-- ===== src/Control/StopLaws.antt =====
-- `stop_input` of src/stream_control.rs: what it leaves of the entry.
use stream_gateway.Common.{
  ℕ, ◌≡◌, refl, ◌∙◌, ap, ◌≢◌, true, false, Option, none, some, [], ◌∷◌, inl, inr, Bool-cases, arith,
}
use stream_gateway.Common.Maps.{
  Map, lookup, Distinct, insert-Distinct, lookup-insert, lookup-insert_self, lookup-insert_ne,
  lookup-extend-some,
}
use stream_gateway.Models.Status.{StreamStatus, is_active}
use stream_gateway.Streams.State.{OutputInfo, AnalysisInfo, InputInfo, World, perform, aborted}
use stream_gateway.Control.Outcome.{already_stopped, done, failed}
use stream_gateway.Control.Outputs.{store, is_stopped, abort_handle}
use stream_gateway.Control.Inputs.{
  outputs_to_stop, abort_outputs, abort_analysis_tasks, abort_tasks, stopped_entry, stop_input,
}

pub outputs_to_stop-Distinct : (tasks : Map OutputInfo) → Distinct (outputs_to_stop tasks)
unfolding outputs_to_stop Distinct
outputs_to_stop-Distinct [] = tt
outputs_to_stop-Distinct ((k, o) ∷ tasks) =
    ground
      (arith, outputs_to_stop-Distinct tasks, insert-Distinct k o.config (outputs_to_stop tasks))

pub lookup-outputs_to_stop :
    (output_id : ℕ) (o : OutputInfo) (tasks : Map OutputInfo)
    → lookup output_id tasks ≡ some o
    → is_active o.status ≡ true
    → lookup output_id (outputs_to_stop tasks) ≡ some o.config
unfolding outputs_to_stop lookup
lookup-outputs_to_stop output_id o [] h a = absurd (ground arith)
lookup-outputs_to_stop output_id o ((k, t) ∷ tasks) h a = ground (
  arith,
  lookup-outputs_to_stop output_id o tasks,
  lookup-insert k output_id t.config (outputs_to_stop tasks),
)

pub abort_handle_streams : (h : Option ℕ) (w : World) → (abort_handle h w).streams ≡ w.streams
unfolding abort_handle
abort_handle_streams none w = refl
abort_handle_streams (some h) w = refl

abort_outputs_streams :
    (tasks : Map OutputInfo) (w : World) → (abort_outputs w tasks).streams ≡ w.streams
unfolding abort_outputs
abort_outputs_streams [] w = refl
abort_outputs_streams ((k, o) ∷ tasks) w = elim (Bool-cases (is_active o.status)) [
  | inl active ↦
      rw (active, abort_outputs)
        (abort_outputs_streams tasks (abort_handle o.abort_handle w)
          ∙ abort_handle_streams o.abort_handle w)
  | inr inactive ↦ rw (inactive, abort_outputs) (abort_outputs_streams tasks w)
]

pub abort_analysis_tasks_streams :
    (tasks : Map AnalysisInfo) (w : World) → (abort_analysis_tasks w tasks).streams ≡ w.streams
unfolding abort_analysis_tasks
abort_analysis_tasks_streams [] w = refl
abort_analysis_tasks_streams ((k, a) ∷ tasks) w =
    abort_analysis_tasks_streams tasks (perform (aborted a.task_handle) w)

pub abort_tasks_streams : (info : InputInfo) (w : World) → (abort_tasks info w).streams ≡ w.streams
unfolding abort_tasks
abort_tasks_streams info w =
    abort_analysis_tasks_streams info.analysis_tasks _
    ∙ (abort_outputs_streams info.output_tasks _ ∙ abort_handle_streams info.task_handle w)

pub stop_input_lem :
    (w : World) (id : ℕ) (info : InputInfo)
    → lookup id w.streams ≡ some info
    → is_stopped info.status ≡ false
    → stop_input w id ≡ (store id (stopped_entry info) (abort_tasks info w), done tt)
unfolding stop_input
stop_input_lem w id info h s = rw (h, stop_input) (rw s refl)

-- Stopping an input that exists and is not stopped succeeds. Its entry is then stopped and has no
-- task, no output task and no analysis task; each of its outputs that was active is kept, with its
-- configuration, among the stopped outputs; and the entry of every other input is as it was.
pub stop_input-keeps :
    (w : World) (id : ℕ) (info : InputInfo)
    → lookup id w.streams ≡ some info
    → is_stopped info.status ≡ false
    → ((stop_input w id).1 ≡ done tt)
      × (entry : InputInfo) × (lookup id (stop_input w id).0.streams ≡ some entry)
      × (entry.status ≡ StreamStatus.stopped)
      × (entry.task_handle ≡ none)
      × (entry.output_tasks ≡ [])
      × (entry.analysis_tasks ≡ [])
      × ((output_id : ℕ) (o : OutputInfo)
          → lookup output_id info.output_tasks ≡ some o
          → is_active o.status ≡ true
          → lookup output_id entry.stopped_outputs ≡ some o.config)
      × ((j : ℕ) → id ≢ j → lookup j (stop_input w id).0.streams ≡ lookup j w.streams)
unfolding stopped_entry
stop_input-keeps w id info h s = rw (stop_input_lem w id info h s) (
  refl,
  stopped_entry info,
  lookup-insert_self id (stopped_entry info) (abort_tasks info w).streams,
  refl,
  refl,
  refl,
  refl,
  λ output_id o e a.
      lookup-extend-some output_id o.config info.stopped_outputs (outputs_to_stop info.output_tasks)
        (outputs_to_stop-Distinct info.output_tasks)
        (lookup-outputs_to_stop output_id o info.output_tasks e a),
  λ j n.
      lookup-insert_ne id j (stopped_entry info) (abort_tasks info w).streams n
      ∙ ap (λ m. lookup j m) (abort_tasks_streams info w),
)

-- A second stop of the same input fails and changes nothing.
pub stop_input_twice :
    (w : World) (id : ℕ) (info : InputInfo)
    → lookup id w.streams ≡ some info
    → is_stopped info.status ≡ false
    → stop_input (stop_input w id).0 id ≡ ((stop_input w id).0, failed already_stopped)
unfolding stopped_entry is_stopped stop_input
stop_input_twice w id info h s =
    rw (stop_input_lem w id info h s) (
      rw (lookup-insert_self id (stopped_entry info) (abort_tasks info w).streams, stop_input) refl)

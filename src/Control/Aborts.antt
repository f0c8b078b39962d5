-- ===== src/Control/Aborts.antt =====
-- Which tasks `stop_input` of src/stream_control.rs aborts.
use mathlib.Core.List.{Memᴰ}
use stream_gateway.Common.{
  ℕ, ◌≡◌, refl, true, false, Option, none, some, [], ◌∷◌, if◌then◌else◌, sym, subst, ◌==◌, inl, inr,
  Bool-cases, arith,
}
use stream_gateway.Common.Maps.{Map, lookup}
use stream_gateway.Models.Status.{is_active}
use stream_gateway.Streams.State.{
  OutputInfo, AnalysisInfo, InputInfo, World, Effect, perform, aborted,
}
use stream_gateway.Control.Outputs.{is_stopped, abort_handle}
use stream_gateway.Control.Inputs.{abort_outputs, abort_analysis_tasks, abort_tasks, stop_input}
use stream_gateway.Control.StopLaws.{stop_input_lem}

-- The effect has been performed.
abbrev pub Performed : Effect → World → Type 0
Performed e w = Memᴰ e w.effects

pub step : (e : Effect) (h : Option ℕ) (w : World) → Performed e w → Performed e (abort_handle h w)
unfolding abort_handle
step e none w m = m
step e (some h) w m = Memᴰ.tail m

outputs-step :
    (e : Effect) (tasks : Map OutputInfo) (w : World)
    → Performed e w
    → Performed e (abort_outputs w tasks)
unfolding abort_outputs
outputs-step e [] w m = m
outputs-step e ((k, o) ∷ tasks) w m = elim (Bool-cases (is_active o.status)) [
  | inl active ↦
      rw (active, abort_outputs)
        (outputs-step e tasks (abort_handle o.abort_handle w) (step e o.abort_handle w m))
  | inr inactive ↦ rw (inactive, abort_outputs) (outputs-step e tasks w m)
]

pub analyses-step :
    (e : Effect) (tasks : Map AnalysisInfo) (w : World)
    → Performed e w
    → Performed e (abort_analysis_tasks w tasks)
unfolding abort_analysis_tasks
analyses-step e [] w m = m
analyses-step e ((k, a) ∷ tasks) w m =
    analyses-step e tasks (perform (aborted a.task_handle) w) (Memᴰ.tail m)

pub handle-aborted :
    (h : ℕ) (handle : Option ℕ) (w : World)
    → handle ≡ some h
    → Performed (aborted h) (abort_handle handle w)
unfolding abort_handle
handle-aborted h handle w e = rw e (Memᴰ.head refl)

output-aborted :
    (tasks : Map OutputInfo) (w : World) (id : ℕ) (o : OutputInfo) (h : ℕ)
    → lookup id tasks ≡ some o
    → is_active o.status ≡ true
    → o.abort_handle ≡ some h
    → Performed (aborted h) (abort_outputs w tasks)
unfolding abort_outputs lookup
output-aborted [] w id o h l a e = absurd (ground arith)
output-aborted ((k, t) ∷ tasks) w id o h l a e = elim (Bool-cases (k == id)) [
  | inl same ↦
      rw (sym (taken same), a, abort_outputs)
        (outputs-step (aborted h) tasks (abort_handle o.abort_handle w)
          (handle-aborted h o.abort_handle w e))
  | inr other ↦
      output-aborted tasks (if is_active t.status then abort_handle t.abort_handle w else w) id o h
        (ground arith) a e
]
  where
    taken : (k == id) ≡ true → o ≡ t
    taken same = ground arith

pub analysis-aborted :
    (tasks : Map AnalysisInfo) (w : World) (id : ℕ) (a : AnalysisInfo)
    → lookup id tasks ≡ some a
    → Performed (aborted a.task_handle) (abort_analysis_tasks w tasks)
unfolding abort_analysis_tasks lookup
analysis-aborted [] w id a l = absurd (ground arith)
analysis-aborted ((k, t) ∷ tasks) w id a l = elim (Bool-cases (k == id)) [
  | inl same ↦
      subst
        (λ (b : AnalysisInfo).
          Performed (aborted a.task_handle)
            (abort_analysis_tasks (perform (aborted b.task_handle) w) tasks))
        (taken same)
        (analyses-step (aborted a.task_handle) tasks (perform (aborted a.task_handle) w)
          (Memᴰ.head refl))
  | inr other ↦ analysis-aborted tasks (perform (aborted t.task_handle) w) id a (ground arith)
]
  where
    taken : (k == id) ≡ true → a ≡ t
    taken same = ground arith

-- Stopping an input that exists and is not stopped aborts the task of the input, the task of each
-- of its outputs that is active, and the task of each of its analyses.
pub stop_input-aborts :
    (w : World) (id : ℕ) (info : InputInfo)
    → lookup id w.streams ≡ some info
    → is_stopped info.status ≡ false
    → ((h : ℕ) → info.task_handle ≡ some h → Memᴰ (aborted h) (stop_input w id).0.effects)
      × ((output_id : ℕ) (o : OutputInfo) (h : ℕ)
          → lookup output_id info.output_tasks ≡ some o
          → is_active o.status ≡ true
          → o.abort_handle ≡ some h
          → Memᴰ (aborted h) (stop_input w id).0.effects)
      × ((analysis_id : ℕ) (a : AnalysisInfo)
          → lookup analysis_id info.analysis_tasks ≡ some a
          → Memᴰ (aborted a.task_handle) (stop_input w id).0.effects)
unfolding abort_tasks
stop_input-aborts w id info l s = rw (stop_input_lem w id info l s) (
  λ h e.
      analyses-step (aborted h) info.analysis_tasks _
        (outputs-step (aborted h) info.output_tasks _ (handle-aborted h info.task_handle w e)),
  λ output_id o h e a b.
      analyses-step (aborted h) info.analysis_tasks _
        (output-aborted info.output_tasks _ output_id o h e a b),
  λ analysis_id a e. analysis-aborted info.analysis_tasks _ analysis_id a e,
)

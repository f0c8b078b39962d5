-- ===== src/Control/Resume.antt =====
-- `start_input` after `stop_input`, in src/stream_control.rs.
use stream_gateway.Common.{ℕ, ◌≡◌, refl, ◌∙◌, ap, true, false, some, []}
use stream_gateway.Common.Maps.{lookup, lookup-insert_self, lookup-extend-some}
use stream_gateway.Models.Requests.{CreateOutputRequest}
use stream_gateway.Models.Status.{is_active}
use stream_gateway.Streams.State.{OutputInfo, InputInfo, World}
use stream_gateway.Control.Outcome.{done, Platform}
use stream_gateway.Control.Outputs.{store, is_stopped}
use stream_gateway.Control.Inputs.{
  stop_input, start_input, started, analysis_types, stopped_entry, abort_tasks, outputs_to_stop,
}
use stream_gateway.Control.StopLaws.{
  stop_input_lem, outputs_to_stop-Distinct, lookup-outputs_to_stop,
}
use stream_gateway.Control.Restart.{
  Resolves, Runs, alone, is_spts, start_input_lem, finish_guarded_done,
}

-- While no other task acts and the destination of each of its stopped UDP outputs is resolved,
-- starting a UDP or SRT input that is not active and has no paused analysis succeeds: its entry is active, has no stopped output left,
-- and each output that was stopped is running.
pub start_input-resumes :
    (p : Platform) (w : World) (info : InputInfo)
    → Resolves p info.stopped_outputs
    → lookup info.id w.streams ≡ some info
    → is_active info.status ≡ false
    → is_spts info.config ≡ false
    → info.paused_analysis ≡ []
    → (entry : InputInfo) × ((start_input alone p w info.id).1 ≡ done tt)
      × (lookup info.id (start_input alone p w info.id).0.streams ≡ some entry)
      × (is_active entry.status ≡ true)
      × (entry.stopped_outputs ≡ [])
      × ((output_id : ℕ) (config : CreateOutputRequest)
          → lookup output_id info.stopped_outputs ≡ some config
          → Runs entry.output_tasks output_id)
unfolding started
start_input-resumes p w info r l a s none_paused =
    let (v, handle, tx, status, active, e) = start_input_lem p w info l a s in
    let (entry, finished, stored, same, channel, emptied, running) =
      finish_guarded_done p v info.id (started info v handle tx status) r none_paused in
    rw e (entry, finished, stored, ap is_active same ∙ active, emptied, running)

-- A UDP or SRT input that is not stopped and has no analysis, running or paused, is stopped and started
-- again, while no other task acts and the destination of each UDP output among those that the stop
-- leaves to be restarted is resolved: the start succeeds, and every output that was active before the
-- stop runs after it.
pub stop_input-start_input :
    (p : Platform) (w : World) (info : InputInfo)
    → Resolves p (stopped_entry info).stopped_outputs
    → lookup info.id w.streams ≡ some info
    → is_stopped info.status ≡ false
    → is_spts info.config ≡ false
    → info.paused_analysis ≡ []
    → info.analysis_tasks ≡ []
    → (entry : InputInfo) × ((start_input alone p (stop_input w info.id).0 info.id).1 ≡ done tt)
      × (lookup info.id (start_input alone p (stop_input w info.id).0 info.id).0.streams
          ≡ some entry)
      × (is_active entry.status ≡ true)
      × ((output_id : ℕ) (o : OutputInfo)
          → lookup output_id info.output_tasks ≡ some o
          → is_active o.status ≡ true
          → Runs entry.output_tasks output_id)
unfolding stopped_entry is_active analysis_types
stop_input-start_input p w info r l a s none_paused no_analysis =
    rw (stop_input_lem w info.id info l a) (
      let v = store info.id (stopped_entry info) (abort_tasks info w) in
      let (entry, finished, stored, active, emptied, running) =
        start_input-resumes p v (stopped_entry info) r
          (lookup-insert_self info.id (stopped_entry info) (abort_tasks info w).streams) refl s
          (rw none_paused (rw no_analysis refl)) in
      (
        entry,
        finished,
        stored,
        active,
        λ output_id o e b. running output_id o.config (
            lookup-extend-some output_id o.config info.stopped_outputs
              (outputs_to_stop info.output_tasks) (outputs_to_stop-Distinct info.output_tasks)
              (lookup-outputs_to_stop output_id o info.output_tasks e b)),
      ))

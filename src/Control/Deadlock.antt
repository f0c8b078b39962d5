-- ===== src/Control/Deadlock.antt =====
-- The write guard of `ACTIVE_STREAMS` that `start_input` of src/stream_control.rs holds while it
-- restarts analyses.
use stream_gateway.Common.{ℕ, ◌≡◌, refl, ◌∙◌, ap, false, List, [], ◌∷◌, ◌++◌, some}
use stream_gateway.Common.Maps.{Map, lookup, lookup-insert_self}
use stream_gateway.Models.Status.{is_active}
use stream_gateway.Models.Analysis.{AnalysisType}
use stream_gateway.Streams.State.{AnalysisInfo, InputInfo, World}
use stream_gateway.Control.Outcome.{done, deadlocked, Platform}
use stream_gateway.Control.Analysis.{start_analysis}
use stream_gateway.Control.Outputs.{store, is_stopped}
use stream_gateway.Control.Inputs.{
  restart_guarded, finish_guarded, stop_input, start_input, started, analysis_types, stopped_entry,
  abort_tasks,
}
use stream_gateway.Control.StopLaws.{stop_input_lem}
use stream_gateway.Control.Restart.{alone, is_spts, start_input_lem, start_outputs_frame}

-- A UDP or SRT input that is not active and has a paused analysis: the start waits for the lock.
start_input-deadlocks :
    (p : Platform) (w : World) (info : InputInfo) (analysis_type : AnalysisType)
    (others : List AnalysisType)
    → lookup info.id w.streams ≡ some info
    → is_active info.status ≡ false
    → is_spts info.config ≡ false
    → info.paused_analysis ≡ analysis_type ∷ others
    → (start_input alone p w info.id).1 ≡ deadlocked
unfolding finish_guarded restart_guarded start_analysis started
start_input-deadlocks p w info analysis_type others l a s paused =
    let (v, handle, tx, status, active, e) = start_input_lem p w info l a s in
    let emptied = record (started info v handle tx status) { stopped_outputs = [] } in
    rw e (
      rw
        (
          ap (λ (i : InputInfo). i.paused_analysis)
                (start_outputs_frame p info.stopped_outputs v emptied)
              ∙ paused,
          restart_guarded,
        )
        refl)

paused_first :
    (paused : List AnalysisType) (id : ℕ) (a : AnalysisInfo) (tasks : Map AnalysisInfo)
    → (first : AnalysisType) × (others : List AnalysisType) × (paused
          ++ analysis_types ((id, a) ∷ tasks)
        ≡ first ∷ others)
unfolding analysis_types
paused_first [] id a tasks = (_, _, refl)
paused_first (first ∷ paused) id a tasks = (first, _, refl)

-- While no other task acts, a UDP or SRT input that is not stopped and has a running analysis can be
-- stopped, and the start that follows never ends: the restart of the analysis asks for the read lock
-- of the state whose write guard the start still holds.
pub stop_input-start_input-deadlocks :
    (p : Platform) (w : World) (info : InputInfo) (id : ℕ) (a : AnalysisInfo)
    (tasks : Map AnalysisInfo)
    → lookup info.id w.streams ≡ some info
    → is_stopped info.status ≡ false
    → is_spts info.config ≡ false
    → info.analysis_tasks ≡ (id, a) ∷ tasks
    → ((stop_input w info.id).1 ≡ done tt)
      × ((start_input alone p (stop_input w info.id).0 info.id).1 ≡ deadlocked)
unfolding stopped_entry is_active
stop_input-start_input-deadlocks p w info id a tasks l n s running =
    let (first, others, e) = paused_first info.paused_analysis id a tasks in
    rw (stop_input_lem w info.id info l n) (
      refl,
      start_input-deadlocks p (store info.id (stopped_entry info) (abort_tasks info w))
          (stopped_entry info) first others
          (lookup-insert_self info.id (stopped_entry info) (abort_tasks info w).streams) refl s
          (ap (λ (t : Map AnalysisInfo). info.paused_analysis ++ analysis_types t) running ∙ e),
    )

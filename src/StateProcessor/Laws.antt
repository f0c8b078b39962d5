-- ===== src/StateProcessor/Laws.antt =====
-- The state changes of src/state_processor.rs against `stop_input` and `start_input`.
use stream_gateway.Common.{ℕ, ◌≡◌, refl, true, false, Option, none, some}
use stream_gateway.Common.Texts.{Text}
use stream_gateway.Common.Maps.{lookup, lookup-insert_self}
use stream_gateway.Models.Status.{StreamStatus, is_active}
use stream_gateway.Streams.State.{InputInfo, World}
use stream_gateway.Control.Outcome.{already_running, failed, Platform}
use stream_gateway.Control.Outputs.{is_stopped}
use stream_gateway.Control.Inputs.{stop_input, start_input, stopped_entry, abort_tasks}
use stream_gateway.Control.StopLaws.{stop_input_lem}
use stream_gateway.StateProcessor.Handlers.{handle_input_state_change, StateChange, process}

-- A change to an active status that is handled after its input was stopped leaves an entry that is
-- active without a task, and the input cannot be started: the start fails and changes nothing.
pub stop_input-process :
    (meanwhile : World → World) (p : Platform) (w : World) (id : ℕ) (info : InputInfo)
    (new_status : StreamStatus) (connected_at : Option ℕ) (source_address : Option Text)
    → lookup id w.streams ≡ some info
    → is_stopped info.status ≡ false
    → is_active new_status ≡ true
    → (entry : InputInfo) × (lookup id
          (process
            (stop_input w id).0
            (StateChange.input_state_changed id new_status connected_at source_address)).0.streams
        ≡ some entry)
      × (entry.task_handle ≡ none)
      × (entry.status ≡ new_status)
      × (start_input meanwhile p
            (process
              (stop_input w id).0
              (StateChange.input_state_changed id new_status connected_at source_address)).0
            id
          ≡ (
            (process
                (stop_input w id).0
                (StateChange.input_state_changed id new_status connected_at source_address)).0,
            failed already_running,
          ))
unfolding process handle_input_state_change start_input stopped_entry
stop_input-process meanwhile p w id info new_status connected_at source_address l n a =
    rw (stop_input_lem w id info l n) (
      rw
        (
          lookup-insert_self id (stopped_entry info) (abort_tasks info w).streams,
          handle_input_state_change,
        )
        (
          _,
          lookup-insert_self id _ _,
          refl,
          refl,
          rw (lookup-insert_self id _ _, start_input) (rw (a, start_input) refl),
        ))

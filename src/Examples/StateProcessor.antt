-- ===== src/Examples/StateProcessor.antt =====
-- The theorems on src/state_processor.rs, applied.
use stream_gateway.Common.{◌+◌, ◌≡◌, refl, true, false, none, some, List, [], ◌∷◌}
use stream_gateway.Common.Maps.{lookup}
use stream_gateway.Models.Status.{StreamStatus, is_active}
use stream_gateway.Streams.State.{InputInfo}
use stream_gateway.Control.Outcome.{failed, already_running}
use stream_gateway.Control.Outputs.{is_stopped}
use stream_gateway.Control.Inputs.{stop_input, start_input}
use stream_gateway.Control.Restart.{alone}
use stream_gateway.StateProcessor.Handlers.{StateChange, process, process_all}
use stream_gateway.StateProcessor.Laws.{stop_input-process}
use stream_gateway.StateProcessor.Gauge.{gauge, bit, process_all-balance}
use stream_gateway.Examples.Values.{platform, live, live_world}

present : lookup 1 live_world.streams ≡ some live
unfolding lookup
present = refl

started_up : is_stopped live.status ≡ false
unfolding is_stopped
started_up = refl

up_again : is_active StreamStatus.connected ≡ true
unfolding is_active
up_again = refl

-- The message that the input's task sent just before it was aborted.
abbrev late : StateChange
late = StateChange.input_state_changed 1 StreamStatus.connected (some 99) none

stop_input-process_example :
    (entry : InputInfo) × (lookup 1 (process (stop_input live_world 1).0 late).0.streams
      ≡ some entry)
    × (entry.task_handle ≡ none)
    × (entry.status ≡ StreamStatus.connected)
    × (start_input alone platform (process (stop_input live_world 1).0 late).0 1
        ≡ ((process (stop_input live_world 1).0 late).0, failed already_running))
stop_input-process_example =
    stop_input-process alone platform live_world 1 live StreamStatus.connected (some 99) none
      present started_up up_again

abbrev changes : List StateChange
changes =
    late
    ∷ StateChange.output_state_changed 1 7 StreamStatus.error none none
    ∷ StateChange.input_state_changed 1 StreamStatus.listening none none
    ∷ []

process_all-balance_example :
    (after : InputInfo) × (lookup 1 (process_all live_world changes).0.streams ≡ some after)
    × (gauge true 1 (process_all live_world changes).1 + bit live.status
        ≡ gauge false 1 (process_all live_world changes).1 + bit after.status)
process_all-balance_example = process_all-balance changes live_world 1 live present

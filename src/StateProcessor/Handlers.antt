-- ===== src/StateProcessor/Handlers.antt =====
-- `handle_input_state_change` and `handle_output_state_change` of src/state_processor.rs. A metrics
-- call is an event with the id and the kind of stream, in the order of the calls; the name and the
-- address that label it are left out. `elapsed` of a time is `none` where it is after `now`.
use stream_gateway.Common.{
  ℕ, ◌-◌, Bool, true, false, not, ◌&&◌, Option, none, some, List, [], ◌∷◌, ◌++◌, leb, if◌then◌else◌,
}
use stream_gateway.Common.Texts.{Text}
use stream_gateway.Common.Maps.{lookup, insert}
use stream_gateway.Models.Requests.{CreateInputRequest, CreateOutputRequest}
use stream_gateway.Models.Status.{StreamStatus, is_connected, is_active}
use stream_gateway.Streams.State.{World}

pub data StreamType : Type 0 where
  udp srt spts : StreamType

pub data Direction : Type 0 where
  input output : Direction

pub data Metric : Type 0 where
  record_connection_event : (id : ℕ) → StreamType → Direction → (connected : Bool) → Metric
  update_active_connections : (id : ℕ) → StreamType → Direction → (connected : Bool) → Metric
  record_connection_duration_event : (id : ℕ) → StreamType → Direction → (duration : ℕ) → Metric

unfoldable pub get_input_stream_type : CreateInputRequest → StreamType
get_input_stream_type (CreateInputRequest.udp c) = StreamType.udp
get_input_stream_type (CreateInputRequest.srt name config) = StreamType.srt
get_input_stream_type (CreateInputRequest.spts c) = StreamType.spts

unfoldable pub get_output_stream_type : CreateOutputRequest → StreamType
get_output_stream_type (CreateOutputRequest.udp c) = StreamType.udp
get_output_stream_type (CreateOutputRequest.srt input_id name config) = StreamType.srt

-- The duration, where there is a time of connection that is not after `now`.
unfoldable pub duration_event : ℕ → ℕ → StreamType → Direction → Option ℕ → List Metric
duration_event now id stream_type direction none = []
duration_event now id stream_type direction (some connected_time) =
    if leb connected_time now
    then record_connection_duration_event id stream_type direction (now - connected_time) ∷ []
    else []

-- The metrics, from the status before and the status after.
unfoldable pub transition_metrics :
    ℕ → ℕ → StreamType → Direction → StreamStatus → StreamStatus → Option ℕ → List Metric
unfolding duration_event is_connected
transition_metrics now id stream_type direction old_status new_status connected_at =
    if is_connected new_status && not (is_connected old_status)
    then record_connection_event id stream_type direction true
      ∷ update_active_connections id stream_type direction true
      ∷ []
    else if is_connected old_status && not (is_connected new_status)
    then record_connection_event id stream_type direction false
      ∷ update_active_connections id stream_type direction false
      ∷ duration_event now id stream_type direction connected_at
    else []

-- The time and the address of a connection after the change: the new ones when it is connected,
-- none when it is not active, and else those that were there.
unfoldable pub metadata : {A : Type 0} → StreamStatus → Option A → Option A → Option A
unfolding is_connected is_active
metadata new_status new old =
    if is_connected new_status then new else if not (is_active new_status) then none else old

unfoldable pub handle_input_state_change :
    World → ℕ → StreamStatus → Option ℕ → Option Text → World × List Metric
unfolding transition_metrics get_input_stream_type metadata lookup insert
handle_input_state_change w input_id new_status connected_at source_address =
    elim (lookup input_id w.streams) [
      | none ↦ (w, [])
      | some input_info ↦ (
        record w {
          streams =
              insert input_id
                (record input_info {
                  status = new_status;
                  connected_at = metadata new_status connected_at input_info.connected_at;
                  source_address = metadata new_status source_address input_info.source_address;
                })
                w.streams;
        },
        transition_metrics w.now input_id (get_input_stream_type input_info.config) Direction.input
            input_info.status new_status connected_at,
      )
    ]

unfoldable pub handle_output_state_change :
    World → ℕ → ℕ → StreamStatus → Option ℕ → Option Text → World × List Metric
unfolding transition_metrics get_output_stream_type metadata lookup insert
handle_output_state_change w input_id output_id new_status connected_at peer_address =
    elim (lookup input_id w.streams) [
      | none ↦ (w, [])
      | some input_info ↦ elim (lookup output_id input_info.output_tasks) [
        | none ↦ (w, [])
        | some output_info ↦ (
          record w {
            streams =
                insert input_id
                  (record input_info {
                    output_tasks =
                        insert output_id
                          (record output_info {
                            status = new_status;
                            connected_at =
                                metadata new_status connected_at output_info.connected_at;
                            peer_address =
                                metadata new_status peer_address output_info.peer_address;
                          })
                          input_info.output_tasks;
                  })
                  w.streams;
          },
          transition_metrics w.now output_id (get_output_stream_type output_info.config)
              Direction.output output_info.status new_status connected_at,
        )
      ]
    ]

-- `StateChange` of src/models.rs
pub data StateChange : Type 0 where
  input_state_changed :
      (input_id : ℕ)
      → (new_status : StreamStatus) → (connected_at : Option ℕ) → (source_address : Option Text)
      → StateChange
  output_state_changed :
      (input_id : ℕ)
      → (output_id : ℕ) → (new_status : StreamStatus) → (connected_at : Option ℕ)
      → (peer_address : Option Text) → StateChange

-- One turn of the loop of `start_processor`.
unfoldable pub process : World → StateChange → World × List Metric
unfolding handle_input_state_change handle_output_state_change
process w (StateChange.input_state_changed input_id new_status connected_at source_address) =
    handle_input_state_change w input_id new_status connected_at source_address
process w
      (StateChange.output_state_changed input_id output_id new_status connected_at peer_address) =
    handle_output_state_change w input_id output_id new_status connected_at peer_address

-- The loop of `start_processor` on the changes that come, with all its metrics.
unfoldable pub process_all : World → List StateChange → World × List Metric
unfolding process
process_all w [] = (w, [])
process_all w (change ∷ changes) =
    let (v, metrics) = process w change in
    let (u, later) = process_all v changes in (u, metrics ++ later)

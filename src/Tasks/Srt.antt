-- ===== src/Tasks/Srt.antt =====
-- The reconnection loops of src/srt_stream.rs: `Forwarder::spawn_with_stats` for inputs and
-- `spawn_srt_output` for outputs, with the `get_socket` of each. What the SRT library gives is an
-- event; the statistics that it is asked for every second are left out, and so are the pauses between
-- attempts.
use stream_gateway.Common.{
  ℕ, suc, Bool, Option, none, some, List, [], ◌∷◌, ◌++◌, leb, if◌then◌else◌, unwrap_or, length,
}
use stream_gateway.Common.Texts.{Text, codes}
use stream_gateway.Models.Requests.{SrtInputConfig, SrtOutputConfig}
use stream_gateway.Models.InputConfig
use stream_gateway.Models.OutputConfig
use stream_gateway.Models.Status.{StreamStatus}
use stream_gateway.Streams.Spawn.{format_addr, srt_status}
use stream_gateway.Control.Inputs.{initial_status}
use stream_gateway.StateProcessor.Handlers.{StateChange}
use stream_gateway.Tasks.Messages.{
  Message, change, packet, record_bytes, record_packets, stream_error,
}

-- One turn of the outer loop: no socket, a socket to a peer and what happens on it, or the global
-- token, before or after `get_socket` began.
pub data Turn {ℓ} (E : Type ℓ) : Type ℓ where
  failure : Turn E
  success : (peer : Text) → (now : ℕ) → (events : List E) → Turn E
  cancel : (begun : Bool) → Turn E

-- How the inner loop ends: it breaks, it returns, or nothing more has happened.
pub data Inner : Type 0 where
  broken cancelled closed ongoing : Inner

-- How the task ends; `running` is a task to which nothing more has happened.
pub data Ending : Type 0 where
  gave_up cancelled closed running : Ending

-- `MAX_RETRIES`
abbrev pub max_retries : ℕ
max_retries = 10

module _ {ℓ} {E : Type ℓ} (inner : List E → List Message × Inner)
    (notify : StreamStatus → Option ℕ → Option Text → StateChange) (initial : StreamStatus)
    (address : Text → Text) where
  -- `get_socket`, as far as its messages go
  unfoldable pub socket_messages : Text → ℕ → List Message
  socket_messages peer now =
      change (notify initial none none)
      ∷ change (notify StreamStatus.connected (some now) (some (address peer)))
      ∷ []

  -- The outer loop, with `consecutive_failures`
  unfoldable pub reconnect_loop : ℕ → List (Turn E) → List Message × Ending
  unfolding socket_messages
  reconnect_loop consecutive_failures [] = ([], Ending.running)
  reconnect_loop consecutive_failures (failure ∷ turns) =
      let later = reconnect_loop (suc consecutive_failures) turns in
      if leb max_retries (suc consecutive_failures)
      then (
        change (notify initial none none) ∷ change (notify StreamStatus.error none none) ∷ [],
        Ending.gave_up,
      )
      else (
        change (notify initial none none)
            ∷ change (notify StreamStatus.reconnecting none none)
            ∷ later.0,
        later.1,
      )
  reconnect_loop consecutive_failures (success peer now events ∷ turns) =
      let later = reconnect_loop 0 turns in
      let (sent, over) = inner events in
      elim over [
        | broken ↦ (
          socket_messages peer now
              ++ (sent ++ change (notify StreamStatus.reconnecting none none) ∷ later.0),
          later.1,
        )
        | cancelled ↦ (socket_messages peer now ++ sent, Ending.cancelled)
        | closed ↦ (socket_messages peer now ++ sent, Ending.closed)
        | ongoing ↦ (socket_messages peer now ++ sent, Ending.running)
      ]
  reconnect_loop consecutive_failures (cancel begun ∷ turns) =
      (if begun then change (notify initial none none) ∷ [] else [], Ending.cancelled)

-- What happens while the task of an input reads from its socket.
pub data Read : Type 0 where
  data_read : List ℕ → Read
  end_of_file read_error read_cancelled : Read

unfoldable pub read_loop : List Read → List Message × Inner
read_loop [] = ([], Inner.ongoing)
read_loop (data_read bytes ∷ reads) =
    let (sent, over) = read_loop reads in
    (record_bytes (length bytes) ∷ record_packets 1 ∷ packet bytes ∷ sent, over)
read_loop (end_of_file ∷ reads) = ([], Inner.broken)
read_loop (read_error ∷ reads) = ([], Inner.broken)
read_loop (read_cancelled ∷ reads) = ([], Inner.cancelled)

-- `source_address` of the connected state
unfoldable pub source_address : SrtInputConfig → Text → Text
unfolding format_addr InputConfig.get_remote_host InputConfig.get_remote_port
source_address (SrtInputConfig.listener c) peer = peer
source_address (SrtInputConfig.caller c) peer =
    format_addr
      (unwrap_or (InputConfig.get_remote_host (SrtInputConfig.caller c)) (codes "127.0.0.1"))
      (unwrap_or (InputConfig.get_remote_port (SrtInputConfig.caller c)) 8000)

-- The task of `Forwarder::spawn_with_stats`
unfoldable pub input_task : SrtInputConfig → ℕ → List (Turn Read) → List Message × Ending
unfolding reconnect_loop read_loop source_address initial_status
input_task config input_id turns =
    reconnect_loop read_loop (StateChange.input_state_changed input_id) (initial_status config)
      (source_address config) 0 turns

-- What happens while the task of an output waits for a packet of its input and writes it.
pub data Send : Type 0 where
  sent_all : List ℕ → Send
  sent_part : List ℕ → (n : ℕ) → Send
  send_failed : List ℕ → Send
  lagged channel_closed send_cancelled : Send

unfoldable pub send_loop : List Send → List Message × Inner
send_loop [] = ([], Inner.ongoing)
send_loop (sent_all bytes ∷ sends) =
    let (sent, over) = send_loop sends in
    (record_bytes (length bytes) ∷ record_packets 1 ∷ sent, over)
send_loop (sent_part bytes n ∷ sends) =
    let (sent, over) = send_loop sends in (stream_error (codes "partial_send") ∷ sent, over)
send_loop (send_failed bytes ∷ sends) = (stream_error (codes "send_failed") ∷ [], Inner.broken)
send_loop (lagged ∷ sends) = send_loop sends
send_loop (channel_closed ∷ sends) = ([], Inner.closed)
send_loop (send_cancelled ∷ sends) = ([], Inner.cancelled)

-- `peer_address` of the connected state
unfoldable pub peer_address : SrtOutputConfig → Text → Text
unfolding format_addr OutputConfig.get_remote_host OutputConfig.get_remote_port
peer_address (SrtOutputConfig.listener c) peer = peer
peer_address (SrtOutputConfig.caller c) peer =
    format_addr
      (unwrap_or (OutputConfig.get_remote_host (SrtOutputConfig.caller c)) (codes "127.0.0.1"))
      (unwrap_or (OutputConfig.get_remote_port (SrtOutputConfig.caller c)) 8000)

-- The task of `spawn_srt_output`
unfoldable pub output_task : SrtOutputConfig → ℕ → ℕ → List (Turn Send) → List Message × Ending
unfolding reconnect_loop send_loop peer_address srt_status
output_task config input_id output_id turns =
    reconnect_loop send_loop (StateChange.output_state_changed input_id output_id)
      (srt_status config) (peer_address config) 0 turns

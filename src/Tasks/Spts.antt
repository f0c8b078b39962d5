-- ===== src/Tasks/Spts.antt =====
-- The filtering task that `spawn_spts_input` of src/spts_input.rs starts. Times are in nanoseconds; the
-- counters are of 64 bits and wrap.
use stream_gateway.Common.{
  ℕ, ◌+◌, ◌-◌, ◌*◌, ◌/◌, ◌%◌, Bool, true, false, none, some, List, [], ◌∷◌, ◌++◌, leb,
  if◌then◌else◌, length, Exec, ret, ◌>>=◌,
}
use stream_gateway.Common.Texts.{Text}
use stream_gateway.Models.Status.{StreamStatus}
use stream_gateway.Filter.Packet.{Bytes}
use stream_gateway.Filter.State.{ProgramFilter, new}
use stream_gateway.Filter.Stream.{filter_packets}
use stream_gateway.Streams.Spawn.{mpts_address}
use stream_gateway.StateProcessor.Handlers.{StateChange}
use stream_gateway.Tasks.Messages.{Message, change, packet, record_bytes, record_packets}
use stream_gateway.Tasks.Udp.{u64_size}

-- `Duration::from_secs(2)`
abbrev pub two_seconds : ℕ
two_seconds = 2000000000

-- What `select!` gives: a message of the source, with the time after it was handled; a lag; the end of
-- the source; the global token.
pub data Event : Type 0 where
  mpts_data : (bytes : Bytes) → (at : ℕ) → Event
  lagged channel_closed cancelled : Event

-- The variables of the loop, with the two counters of the statistics that it writes.
pub record Loop : Type 0 where
  pub filter : ProgramFilter
  pub is_connected : Bool
  pub window_start : ℕ
  pub window_bytes_out : ℕ
  pub window_packets_out : ℕ
  pub packets_per_sec : ℕ
  pub bitrate_bps : ℕ

-- What the filtered data sends: the connected state if it is the first, and the data.
unfoldable pub filtered_messages : ℕ → Text → ℕ → Loop → Bytes → List Message
filtered_messages spts_id source_addr connected_time s [] = []
filtered_messages spts_id source_addr connected_time s (b ∷ filtered) =
    (if s.is_connected
      then []
      else change (
          StateChange.input_state_changed spts_id StreamStatus.connected (some connected_time)
            (some source_addr))
        ∷ [])
    ++ packet (b ∷ filtered) ∷ []

-- The variables after the filtered data; nothing changes if there is none.
unfoldable pub after_filtered : Loop → ProgramFilter → Bytes → Loop
after_filtered s filter [] = record s { filter = filter }
after_filtered s filter (b ∷ filtered) = record s {
  filter = filter;
  is_connected = true;
  window_bytes_out = (s.window_bytes_out + length (b ∷ filtered)) % u64_size;
  window_packets_out = (s.window_packets_out + length (b ∷ filtered) / 188) % u64_size;
}

-- The end of a window.
unfoldable pub window_messages : Loop → ℕ → List Message
window_messages s at =
    if leb two_seconds (at - s.window_start)
    then record_bytes s.window_bytes_out ∷ record_packets s.window_packets_out ∷ []
    else []

unfoldable pub after_window : Loop → ℕ → Loop
after_window s at =
    if leb two_seconds (at - s.window_start)
    then record s {
      window_start = at;
      window_bytes_out = 0;
      window_packets_out = 0;
      packets_per_sec = s.window_packets_out;
      bitrate_bps = s.window_bytes_out * 8 % u64_size;
    }
    else s

-- The loop: what it sends.
unfoldable pub spts_loop : ℕ → Text → ℕ → Loop → List Event → Exec (List Message)
unfolding filter_packets filtered_messages after_filtered window_messages after_window
spts_loop spts_id source_addr connected_time s [] = ret []
spts_loop spts_id source_addr connected_time s (mpts_data bytes at ∷ events) =
    filter_packets s.filter bytes >>= λ r.
    let t = after_filtered s r.0 r.1 in
    spts_loop spts_id source_addr connected_time (after_window t at) events >>= λ later.
    ret (
      filtered_messages spts_id source_addr connected_time s r.1 ++ (window_messages t at ++ later))
spts_loop spts_id source_addr connected_time s (lagged ∷ events) =
    spts_loop spts_id source_addr connected_time s events
spts_loop spts_id source_addr connected_time s (channel_closed ∷ events) =
    ret (change (StateChange.input_state_changed spts_id StreamStatus.stopped none none) ∷ [])
spts_loop spts_id source_addr connected_time s (cancelled ∷ events) = ret []

unfoldable pub start_spts_loop : ℕ → Bool → ℕ → Loop
unfolding new
start_spts_loop program_number fill_with_nulls now = record {
  filter = new program_number fill_with_nulls;
  is_connected = false;
  window_start = now;
  window_bytes_out = 0;
  window_packets_out = 0;
  packets_per_sec = 0;
  bitrate_bps = 0;
}

-- The task: `connected_time` and `now` are the system time and the clock at its start.
unfoldable pub spts_task :
    ℕ → ℕ → ℕ → Bool → (connected_time now : ℕ) → List Event → Exec (List Message)
unfolding spts_loop start_spts_loop mpts_address
spts_task spts_id source_input_id program_number fill_with_nulls connected_time now events =
    spts_loop spts_id (mpts_address source_input_id program_number) connected_time
      (start_spts_loop program_number fill_with_nulls now) events
    >>= λ sent. ret (
        change (
          StateChange.input_state_changed spts_id StreamStatus.listening none
            (some (mpts_address source_input_id program_number)))
        ∷ sent)

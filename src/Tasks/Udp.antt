-- ===== src/Tasks/Udp.antt =====
-- The task that `spawn_udp_input_with_stats` of src/udp_stream.rs starts, and the sender loop of
-- `spawn_output_sender`. Times are in nanoseconds; the counters are of 64 bits and wrap.
use stream_gateway.Common.{
  ℕ, ◌+◌, ◌-◌, ◌*◌, ◌%◌, Bool, true, false, ◌&&◌, none, some, List, [], ◌∷◌, ◌++◌, leb,
  if◌then◌else◌, length, take,
}
use stream_gateway.Common.Texts.{Text, codes}
use stream_gateway.Models.Status.{StreamStatus}
use stream_gateway.Streams.Spawn.{format_addr}
use stream_gateway.StateProcessor.Handlers.{StateChange}
use stream_gateway.Tasks.Messages.{
  Message, change, packet, record_bytes, record_packets, stream_error,
}

-- `Duration::from_secs(1)`, and `IDLE_TIMEOUT`, of 10 seconds
abbrev pub one_second : ℕ
one_second = 1000000000

abbrev pub idle_timeout : ℕ
idle_timeout = 10000000000

abbrev pub u64_size : ℕ
u64_size = 18446744073709551616

-- The size of `buf`
abbrev pub buffer_size : ℕ
buffer_size = 2048

-- What `select!` gives: a datagram as it was sent, with its sender, the times at which `last_packet_time` is set and
-- at which the loop comes back to `select!`, and the time of the connection; an error of the socket;
-- the end of the sleep; the global token.
pub data Event : Type 0 where
  datagram :
      (bytes : List ℕ) → (peer_ip : Text) → (received : ℕ) → (handled : ℕ) → (now : ℕ) → Event
  receive_error : Event
  sleep_over : (at : ℕ) → Event
  cancelled : Event

-- `UdpStatsAtomic`
pub record Stats : Type 0 where
  pub total_packets : ℕ
  pub total_bytes : ℕ
  pub packets_per_sec : ℕ
  pub bitrate_bps : ℕ

-- The variables of the loop; `entered` is the time at which the loop came to `select!`.
pub record Loop : Type 0 where
  pub total_bytes : ℕ
  pub total_packets : ℕ
  pub window_bytes : ℕ
  pub window_pkts : ℕ
  pub window_start : ℕ
  pub is_connected : Bool
  pub last_packet_time : ℕ
  pub entered : ℕ
  pub stats : Stats

unfoldable pub start_loop : ℕ → Loop
start_loop now = record {
  total_bytes = 0;
  total_packets = 0;
  window_bytes = 0;
  window_pkts = 0;
  window_start = now;
  is_connected = false;
  last_packet_time = now;
  entered = now;
  stats = record { total_packets = 0; total_bytes = 0; packets_per_sec = 0; bitrate_bps = 0 };
}

-- The counters after a datagram of `n` bytes; the window is closed once a second.
unfoldable pub count : Loop → ℕ → ℕ → ℕ → Loop
count s n received handled =
    let total_bytes = (s.total_bytes + n) % u64_size in
    let total_packets = (s.total_packets + 1) % u64_size in
    let window_bytes = (s.window_bytes + n) % u64_size in
    let window_pkts = (s.window_pkts + 1) % u64_size in
    let fresh = record s.stats { total_packets = total_packets; total_bytes = total_bytes } in
    let over = leb one_second (received - s.window_start) in
    record {
      total_bytes = total_bytes;
      total_packets = total_packets;
      window_bytes = if over then 0 else window_bytes;
      window_pkts = if over then 0 else window_pkts;
      window_start = if over then received else s.window_start;
      is_connected = true;
      last_packet_time = received;
      entered = handled;
      stats =
          if over
          then record fresh {
            packets_per_sec = window_pkts;
            bitrate_bps = window_bytes * 8 % u64_size;
          }
          else fresh;
    }

-- The condition of the idle branch, which is evaluated when the loop comes to `select!`.
unfoldable pub idle_enabled : Loop → Bool
idle_enabled s = s.is_connected && leb idle_timeout (s.entered - s.last_packet_time)

-- What a datagram sends: the packet, the metrics, and the connected state if it is the first.
unfoldable pub received_messages : ℕ → ℕ → Loop → List ℕ → Text → ℕ → List Message
unfolding format_addr
received_messages id listen_port s bytes peer_ip now =
    packet bytes
    ∷ record_bytes (length bytes)
    ∷ record_packets 1
    ∷ (if s.is_connected
        then []
        else change (
            StateChange.input_state_changed id StreamStatus.connected (some now)
              (some (format_addr peer_ip listen_port)))
          ∷ [])

-- `recv_from` fills the buffer and drops what does not fit.
abbrev pub received_bytes : List ℕ → List ℕ
received_bytes bytes = take buffer_size bytes

-- The loop: what it sends, and its variables when the events are used up or it has ended. A branch
-- that is off does not happen.
unfoldable pub udp_loop : ℕ → ℕ → Loop → List Event → List Message × Loop
unfolding count idle_enabled received_messages
udp_loop id listen_port s [] = ([], s)
udp_loop id listen_port s (datagram bytes peer_ip received handled now ∷ events) =
    let sent = received_bytes bytes in
    let (later, end) = udp_loop id listen_port (count s (length sent) received handled) events in
    (received_messages id listen_port s sent peer_ip now ++ later, end)
udp_loop id listen_port s (receive_error ∷ events) = ([], s)
udp_loop id listen_port s (sleep_over at ∷ events) =
    let (later, end) =
      udp_loop id listen_port (record s { is_connected = false; entered = at }) events in
    let (same, end_same) = udp_loop id listen_port s events in
    if idle_enabled s
    then (change (StateChange.input_state_changed id StreamStatus.listening none none) ∷ later, end)
    else (same, end_same)
udp_loop id listen_port s (cancelled ∷ events) = ([], s)

-- The task: `opened` says whether the socket could be made, at the time `now`.
unfoldable pub udp_task : ℕ → ℕ → (opened : Bool) → ℕ → List Event → List Message
unfolding start_loop udp_loop
udp_task id listen_port true now events =
    change (StateChange.input_state_changed id StreamStatus.listening none none)
    ∷ (udp_loop id listen_port (start_loop now) events).0
udp_task id listen_port false now events =
    change (StateChange.input_state_changed id StreamStatus.error none none) ∷ []

-- What the sender of an output waits for: a packet, and whether `send_to` succeeds; a lag; the end
-- of the channel.
pub data Sending : Type 0 where
  arrived : (bytes : List ℕ) → (sent : Bool) → Sending
  lagged channel_closed : Sending

-- `spawn_output_sender`; `opened` says whether the socket could be made. A packet that is sent stands
-- among the messages.
unfoldable pub send_packets : List Sending → List Message
send_packets [] = []
send_packets (arrived bytes true ∷ sendings) =
    packet bytes ∷ record_bytes (length bytes) ∷ record_packets 1 ∷ send_packets sendings
send_packets (arrived bytes false ∷ sendings) =
    stream_error (codes "send_failed") ∷ send_packets sendings
send_packets (channel_closed ∷ sendings) = []
send_packets (lagged ∷ sendings) = send_packets sendings

unfoldable pub output_sender : (opened : Bool) → List Sending → List Message
unfolding send_packets
output_sender true sendings = send_packets sendings
output_sender false sendings = []

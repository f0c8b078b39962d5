-- ===== src/Tasks/UdpLaws.antt =====
-- What the task of a UDP input of src/udp_stream.rs forwards, counts and reports.
use stream_gateway.Common.{
  ℕ, ◌+◌, ◌-◌, ◌%◌, ◌<◌, ◌≡◌, ◌⊎◌, refl, ap, ◌∙◌, true, false, none, some, List, [], ◌∷◌, ◌++◌, inl,
  inr, lt→leb, length, take, Bool-cases, arith,
}
use stream_gateway.Common.Texts.{Text}
use stream_gateway.Models.Status.{StreamStatus}
use stream_gateway.Streams.Spawn.{format_addr}
use stream_gateway.StateProcessor.Handlers.{StateChange}
use stream_gateway.Tasks.Messages.{changes, packets, packets-append}
use stream_gateway.Tasks.Udp.{
  Event, datagram, receive_error, sleep_over, cancelled, Loop, idle_timeout, u64_size,
  received_bytes, start_loop, count, idle_enabled, received_messages, udp_loop, udp_task,
}

-- The datagrams that come in before an error or the end, each cut to the 2048 bytes of the buffer.
abbrev pub datagrams : List Event → List (List ℕ)
datagrams [] = []
datagrams (datagram bytes peer received handled now ∷ events) = take 2048 bytes ∷ datagrams events
datagrams (receive_error ∷ events) = []
datagrams (sleep_over at ∷ events) = datagrams events
datagrams (cancelled ∷ events) = []

abbrev pub total : List (List ℕ) → ℕ
total [] = 0
total (bytes ∷ packets) = length bytes + total packets

-- The events when none of the branches `sleep_over` is taken, and the messages of a datagram.
received_packets :
    (id listen_port : ℕ) (s : Loop) (bytes : List ℕ) (peer : Text) (now : ℕ)
    → packets (received_messages id listen_port s bytes peer now) ≡ bytes ∷ []
unfolding received_messages
received_packets id listen_port s bytes peer now = elim (Bool-cases s.is_connected) [
  | inl e ↦ rw (e, received_messages) refl
  | inr e ↦ rw (e, received_messages) refl
]

-- From a loop whose counters are in range, the packets that are sent are the datagrams, and the
-- counters grow by their number and their size.
udp_loop-forwards :
    (id listen_port : ℕ) (s : Loop) (events : List Event)
    → s.total_packets < u64_size
    → s.total_bytes < u64_size
    → (packets (udp_loop id listen_port s events).0 ≡ datagrams events)
      × ((udp_loop id listen_port s events).1.total_packets
          ≡ (s.total_packets + length (datagrams events)) % u64_size)
      × ((udp_loop id listen_port s events).1.total_bytes
          ≡ (s.total_bytes + total (datagrams events)) % u64_size)
unfolding udp_loop count
udp_loop-forwards id listen_port s [] p b = (refl, omega (arith, p), omega (arith, b))
udp_loop-forwards id listen_port s (datagram bytes peer received handled now ∷ events) p b =
    let sent = received_bytes bytes in
    let next = count s (length sent) received handled in
    let (same, n, t) = udp_loop-forwards id listen_port next events (omega arith) (omega arith) in
    (
      packets-append (received_messages id listen_port s sent peer now) _
          ∙ (ap (λ (l : List (List ℕ)). l ++ packets (udp_loop id listen_port next events).0)
                (received_packets id listen_port s sent peer now)
              ∙ ap (◌∷◌ sent) same),
      n ∙ omega arith,
      t ∙ omega arith,
    )
udp_loop-forwards id listen_port s (receive_error ∷ events) p b =
    (refl, omega (arith, p), omega (arith, b))
udp_loop-forwards id listen_port s (sleep_over at ∷ events) p b =
    elim (Bool-cases (idle_enabled s)) [
      | inl e ↦
          rw (e, udp_loop)
            (udp_loop-forwards id listen_port (record s { is_connected = false; entered = at })
              events p b)
      | inr e ↦ rw (e, udp_loop) (udp_loop-forwards id listen_port s events p b)
    ]
udp_loop-forwards id listen_port s (cancelled ∷ events) p b =
    (refl, omega (arith, p), omega (arith, b))

-- Every datagram is handled before the idle timeout has passed.
abbrev pub Prompt : List Event → Type 0
Prompt [] = Unit {0}
Prompt (datagram bytes peer received handled now ∷ events) =
    (handled - received < idle_timeout) × Prompt events
Prompt (receive_error ∷ events) = Prompt events
Prompt (sleep_over at ∷ events) = Prompt events
Prompt (cancelled ∷ events) = Prompt events

idle-off : (s : Loop) → s.entered - s.last_packet_time < idle_timeout → idle_enabled s ≡ false
unfolding idle_enabled
idle-off s h = ground (arith, lt→leb idle_timeout (s.entered - s.last_packet_time) h)

-- A loop that is connected reports nothing more.
connected-quiet :
    (id listen_port : ℕ) (s : Loop) (events : List Event)
    → Prompt events
    → s.is_connected ≡ true
    → s.entered - s.last_packet_time < idle_timeout
    → changes (udp_loop id listen_port s events).0 ≡ []
unfolding udp_loop received_messages count
connected-quiet id listen_port s [] prompt on h = refl
connected-quiet id listen_port s (datagram bytes peer received handled now ∷ events) prompt on h =
    rw (on, received_messages)
      (connected-quiet id listen_port (count s (length (received_bytes bytes)) received handled)
        events prompt.1 refl prompt.0)
connected-quiet id listen_port s (receive_error ∷ events) prompt on h = refl
connected-quiet id listen_port s (sleep_over at ∷ events) prompt on h =
    rw (idle-off s h, udp_loop) (connected-quiet id listen_port s events prompt on h)
connected-quiet id listen_port s (cancelled ∷ events) prompt on h = refl

-- The connected state that the first datagram reports.
connected : ℕ → ℕ → Text → ℕ → StateChange
connected id listen_port peer now =
    StateChange.input_state_changed id StreamStatus.connected (some now)
      (some (format_addr peer listen_port))

unconnected-once :
    (id listen_port : ℕ) (s : Loop) (events : List Event)
    → Prompt events
    → s.is_connected ≡ false
    → s.entered - s.last_packet_time < idle_timeout
    → (changes (udp_loop id listen_port s events).0 ≡ [])
      ⊎ ((peer : Text) × (now : ℕ) × (changes (udp_loop id listen_port s events).0
            ≡ connected id listen_port peer now ∷ []))
unfolding udp_loop received_messages count connected
unconnected-once id listen_port s [] prompt off h = inl refl
unconnected-once id listen_port s (datagram bytes peer received handled now ∷ events) prompt off h =
    inr (
      peer,
      now,
      rw (off, received_messages)
          (ap (◌∷◌ (connected id listen_port peer now)) (
            connected-quiet id listen_port
              (count s (length (received_bytes bytes)) received handled) events prompt.1 refl
              prompt.0)),
    )
unconnected-once id listen_port s (receive_error ∷ events) prompt off h = inl refl
unconnected-once id listen_port s (sleep_over at ∷ events) prompt off h =
    rw (idle-off s h, udp_loop) (unconnected-once id listen_port s events prompt off h)
unconnected-once id listen_port s (cancelled ∷ events) prompt off h = inl refl

-- A task that could make its socket sends the datagrams that come in before an error or the end, each
-- once and in order, unchanged if it has at most 2048 bytes and cut to its first 2048 bytes if it is
-- longer; its loop ends with their number and the size of what was sent, modulo 2 ^ 64, in the counters.
pub udp_task-forwards :
    (id listen_port now : ℕ) (events : List Event)
    → (packets (udp_task id listen_port true now events) ≡ datagrams events)
      × ((udp_loop id listen_port (start_loop now) events).1.total_packets
          ≡ length (datagrams events) % u64_size)
      × ((udp_loop id listen_port (start_loop now) events).1.total_bytes
          ≡ total (datagrams events) % u64_size)
unfolding udp_task start_loop
udp_task-forwards id listen_port now events =
    let (same, n, t) =
      udp_loop-forwards id listen_port (start_loop now) events (omega arith) (omega arith) in
    (same, n ∙ omega arith, t ∙ omega arith)

-- If the handling of each datagram takes less than the idle timeout of ten seconds, the task reports
-- the listening state at its start, at most one connected state, and nothing else: however long the
-- source then stays silent, the input never goes back to listening.
pub udp_task-never_idle :
    (id listen_port now : ℕ) (events : List Event)
    → Prompt events
    → (changes (udp_task id listen_port true now events)
        ≡ StateChange.input_state_changed id StreamStatus.listening none none ∷ [])
      ⊎ ((peer : Text) × (at : ℕ) × (changes (udp_task id listen_port true now events)
            ≡ StateChange.input_state_changed id StreamStatus.listening none none
              ∷ StateChange.input_state_changed id StreamStatus.connected
                  (some at)
                  (some (format_addr peer listen_port))
              ∷ []))
unfolding udp_task start_loop connected
udp_task-never_idle id listen_port now events prompt =
    elim (unconnected-once id listen_port (start_loop now) events prompt refl (omega arith)) [
      | inl e ↦ inl (ap (◌∷◌ listening) e)
      | inr (peer, at, e) ↦ inr (peer, at, ap (◌∷◌ listening) e)
    ]
  where
    listening : StateChange
    listening = StateChange.input_state_changed id StreamStatus.listening none none

-- ===== src/Examples/Tasks.antt =====
-- The theorems on the tasks of src/srt_stream.rs, src/udp_stream.rs and src/spts_input.rs, applied.
use stream_gateway.Common.{
  ℕ, ◌%◌, ◌≡◌, ◌⊎◌, ◌↔◌, refl, true, none, some, List, [], ◌∷◌, ◌++◌, length, replicate, arith, ret,
}
use stream_gateway.Common.Texts.{Text, codes}
use stream_gateway.Common.Maps.{lookup}
use stream_gateway.Models.Requests.{SrtInputConfig}
use stream_gateway.Models.Status.{StreamStatus}
use stream_gateway.Streams.State.{InputInfo}
use stream_gateway.Streams.Spawn.{format_addr, mpts_address}
use stream_gateway.StateProcessor.Handlers.{StateChange, process_all}
use stream_gateway.Filter.Packet.{Bytes}
use stream_gateway.Filter.State.{new}
use stream_gateway.Tasks.Messages.{Message, changes, packets}
use stream_gateway.Tasks.Srt.{
  Turn, failure, success, Read, read_error, read_loop, Ending, reconnect_loop, input_task,
}
use stream_gateway.Tasks.SrtLaws.{TenFailures, reconnect_loop-gives_up}
use stream_gateway.Tasks.SrtStatus.{input_task-process}
use stream_gateway.Tasks.Udp.{datagram, sleep_over, start_loop, udp_loop, udp_task, u64_size}
use stream_gateway.Tasks.Udp
use stream_gateway.Tasks.UdpLaws.{datagrams, total, udp_task-forwards, udp_task-never_idle}
use stream_gateway.Tasks.Spts
use stream_gateway.Tasks.SptsLaws.{
  filter_each, messages_of, nonempty, announced, closing, spts_task-filters,
}
use stream_gateway.Examples.Values.{live, live_world}

abbrev listener : SrtInputConfig
listener = SrtInputConfig.listener (record {
  bind_host = none;
  bind_port = some 9000;
  automatic_port = none;
  common = record {
    latency_ms = none;
    stream_id = none;
    passphrase = none;
    expected_bitrate_kbps = none;
    fec = none;
  };
  listen_port = none;
})

abbrev peer : Text
peer = codes "10.0.0.2:7000"

-- Ten attempts without a socket.
abbrev ten_failures : List (Turn Read)
ten_failures =
    failure ∷ failure ∷ failure ∷ failure ∷ failure ∷ failure ∷ failure ∷ failure ∷ failure
    ∷ failure ∷ []

-- A connection that breaks, and then ten attempts without a socket.
abbrev lost : List (Turn Read)
lost = success peer 5 (read_error ∷ []) ∷ ten_failures

abbrev at_peer : Text → Text
at_peer text = text

reconnect_loop-gives_up_example :
    ((reconnect_loop read_loop
        (StateChange.input_state_changed 1)
        StreamStatus.listening
        at_peer
        0
        lost).1
      ≡ Ending.gave_up)
    ↔ TenFailures read_loop (StateChange.input_state_changed 1) StreamStatus.listening at_peer lost
reconnect_loop-gives_up_example =
    reconnect_loop-gives_up read_loop (StateChange.input_state_changed 1) StreamStatus.listening
      at_peer lost

found : lookup 1 live_world.streams ≡ some live
unfolding lookup
found = refl

lost_gave_up : (input_task listener 1 lost).1 ≡ Ending.gave_up
unfolding input_task reconnect_loop read_loop
lost_gave_up = refl

input_task-process_example :
    (entry : InputInfo) × (lookup 1
        (process_all live_world (changes (input_task listener 1 lost).0)).0.streams
      ≡ some entry)
    × (entry.status ≡ StreamStatus.error)
    × (entry.connected_at ≡ none)
    × (entry.task_handle ≡ live.task_handle)
input_task-process_example = input_task-process listener live_world 1 live lost found lost_gave_up

-- Two datagrams, each handled at once, and a long silence.
abbrev traffic : List Udp.Event
traffic =
    datagram (71 ∷ 1 ∷ []) peer 1000 1001 50
    ∷ datagram (71 ∷ 2 ∷ 3 ∷ []) peer 2000 2001 50
    ∷ sleep_over 90000000000
    ∷ []

udp_task-forwards_example :
    (packets (udp_task 1 5000 true 0 traffic) ≡ datagrams traffic)
    × ((udp_loop 1 5000 (start_loop 0) traffic).1.total_packets
        ≡ length (datagrams traffic) % u64_size)
    × ((udp_loop 1 5000 (start_loop 0) traffic).1.total_bytes
        ≡ total (datagrams traffic) % u64_size)
udp_task-forwards_example = udp_task-forwards 1 5000 0 traffic

udp_task-never_idle_example :
    (changes (udp_task 1 5000 true 0 traffic)
      ≡ StateChange.input_state_changed 1 StreamStatus.listening none none ∷ [])
    ⊎ ((sender : Text) × (at : ℕ) × (changes (udp_task 1 5000 true 0 traffic)
          ≡ StateChange.input_state_changed 1 StreamStatus.listening none none
            ∷ StateChange.input_state_changed 1 StreamStatus.connected
                (some at)
                (some (format_addr sender 5000))
            ∷ []))
udp_task-never_idle_example = udp_task-never_idle 1 5000 0 traffic (omega arith, (omega arith, tt))

-- One message of the source, a packet of the PAT, and the end of the source.
abbrev source : List Spts.Event
source = Spts.mpts_data (71 ∷ replicate 187 0) 5 ∷ Spts.channel_closed ∷ []

spts_task-filters_example :
    (outs : List Bytes) × (sent : List Message) × (filter_each (new 3 true) (messages_of source)
      ≡ ret outs)
    × (Spts.spts_task 2 1 3 true 40 0 source ≡ ret sent)
    × (packets sent ≡ nonempty outs)
    × (changes sent
        ≡ StateChange.input_state_changed 2 StreamStatus.listening none (some (mpts_address 1 3))
          ∷ (announced
                (StateChange.input_state_changed 2 StreamStatus.connected
                  (some 40)
                  (some (mpts_address 1 3)))
                (nonempty outs)
              ++ closing 2 source))
spts_task-filters_example = spts_task-filters 2 1 3 true 40 0 source

-- ===== src/Control/Outputs.antt =====
-- `start_output`, `stop_output` and `start_output_internal` of src/stream_control.rs.
use stream_gateway.Common.{ℕ, Bool, true, false, Option, none, some, if◌then◌else◌, unwrap_or}
use stream_gateway.Common.Texts.{Text, codes}
use stream_gateway.Common.Maps.{lookup, insert, remove, contains_key}
use stream_gateway.Models.Requests.{CreateOutputRequest}
use stream_gateway.Models.Outputs.{get_remote_host, get_remote_port}
use stream_gateway.Models.Status.{StreamStatus}
use stream_gateway.Interfaces.{Net}
use stream_gateway.Streams.State.{OutputInfo, InputInfo, World, perform, aborted}
use stream_gateway.Streams.Spawn.{
  format_addr, MulticastOutputConfig, create_udp_output, create_srt_output,
}
use stream_gateway.Control.Outcome.{
  input_not_found, already_running, already_stopped, input_stopped, output_not_found,
  output_not_created, Outcome, done, failed, Platform,
}

-- `multicast_config` of an output to `host`
unfoldable pub multicast_for : Net → Text → Option ℕ → Option Text → Option MulticastOutputConfig
multicast_for net host multicast_ttl multicast_interface = elim (net.parse host) [
  | none ↦ none
  | some addr ↦
      if net.is_multicast addr
      then some (record { ttl = unwrap_or multicast_ttl 1; interface = multicast_interface })
      else none
]

-- `create_udp_output` or `create_srt_output`, by the kind of the stored configuration.
unfoldable pub recreate_output :
    Platform → World → InputInfo → ℕ → CreateOutputRequest → World × Option OutputInfo
unfolding multicast_for create_udp_output create_srt_output format_addr
recreate_output p w input_info output_id (CreateOutputRequest.udp c) =
    let host = unwrap_or (get_remote_host (CreateOutputRequest.udp c)) (codes "127.0.0.1") in
    let port = unwrap_or (get_remote_port (CreateOutputRequest.udp c)) 8000 in
    create_udp_output p.resolve w (format_addr host port) input_info output_id c.name c.bind_host
      (multicast_for p.net host c.multicast_ttl c.multicast_interface)
recreate_output p w input_info output_id (CreateOutputRequest.srt input_id name config) =
    let (v, output_info) = create_srt_output w input_id config input_info output_id name in
    (v, some output_info)

-- `start_output_internal`: the input with the output among its tasks, or as it was, and whether the
-- output was created.
unfoldable pub start_output_internal :
    Platform → World → InputInfo → ℕ → CreateOutputRequest → World × InputInfo × Bool
unfolding recreate_output insert
start_output_internal p w input_info output_id output_config =
    let (v, created) = recreate_output p w input_info output_id output_config in
    elim created [
      | none ↦ (v, input_info, false)
      | some output_info ↦ (
        v,
        record input_info { output_tasks = insert output_id output_info input_info.output_tasks },
        true,
      )
    ]

-- The entry of an input is written back when the guard is given up.
abbrev pub store : ℕ → InputInfo → World → World
store input_id input_info w = record w { streams = insert input_id input_info w.streams }

-- `start_output`, on the entry of the input
unfoldable pub start_output_of : Platform → World → ℕ → InputInfo → ℕ → World × Outcome (Unit {0})
unfolding start_output_internal lookup remove contains_key
start_output_of p w input_id input_info output_id =
    elim (lookup output_id input_info.stopped_outputs) [
      | none ↦ (
        w,
        failed (
            if contains_key output_id input_info.output_tasks
            then already_running
            else output_not_found),
      )
      | some output_config ↦
          let (v, started, ok) =
            start_output_internal p w
              (record input_info { stopped_outputs = remove output_id input_info.stopped_outputs })
              output_id output_config in
          (store input_id started v, if ok then done tt else failed output_not_created)
    ]

-- `input_info.status == StreamStatus::Stopped`
unfoldable pub is_stopped : StreamStatus → Bool
is_stopped StreamStatus.stopped = true
is_stopped _ = false

-- `start_output`
unfoldable pub start_output : Platform → World → ℕ → ℕ → World × Outcome (Unit {0})
unfolding start_output_of is_stopped lookup
start_output p w input_id output_id = elim (lookup input_id w.streams) [
  | none ↦ (w, failed input_not_found)
  | some input_info ↦
      if is_stopped input_info.status
      then (w, failed input_stopped)
      else start_output_of p w input_id input_info output_id
]

-- `if let Some(handle) = handle.take() { handle.abort(); }`
unfoldable pub abort_handle : Option ℕ → World → World
abort_handle none w = w
abort_handle (some handle) w = perform (aborted handle) w

-- `stop_output`
unfoldable pub stop_output : World → ℕ → ℕ → World × Outcome (Unit {0})
unfolding abort_handle lookup insert remove contains_key
stop_output w input_id output_id = elim (lookup input_id w.streams) [
  | none ↦ (w, failed input_not_found)
  | some input_info ↦ elim (lookup output_id input_info.output_tasks) [
    | none ↦ (
      w,
      failed (
          if contains_key output_id input_info.stopped_outputs
          then already_stopped
          else output_not_found),
    )
    | some output_info ↦ (
      store input_id
          (record input_info {
            output_tasks = remove output_id input_info.output_tasks;
            stopped_outputs = insert output_id output_info.config input_info.stopped_outputs;
          })
          (abort_handle output_info.abort_handle w),
      done tt,
    )
  ]
]

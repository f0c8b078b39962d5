-- ===== src/Streams/Spawn.antt =====
-- What starts tasks: `spawn_udp_input_with_stats` and `create_udp_output` of src/udp_stream.rs,
-- `Forwarder::spawn_with_stats` and `create_srt_output` of src/srt_stream.rs, `spawn_spts_input` of
-- src/spts_input.rs. The tasks' own loops are not part of this model.
use stream_gateway.Common.{
  ℕ, suc, Bool, Option, none, some, List, [], ◌∷◌, ◌++◌, or_option, unwrap_or,
}
use stream_gateway.Common.Texts.{Text, codes, print_nat}
use stream_gateway.Models.Requests.{CreateInputRequest, SrtOutputConfig, CreateOutputRequest}
use stream_gateway.Models.OutputConfig.{get_remote_host, get_remote_port, get_bind_port}
use stream_gateway.Models.Outputs.{OutputKind}
use stream_gateway.Models.Status.{StreamStatus}
use stream_gateway.Streams.State.{
  OutputInfo, InputInfo, World, perform, draw, input_task, filter_task, output_task,
  active_inputs_up, active_outputs_up,
}

-- `format!("{}:{}", host, port)`
unfoldable pub format_addr : Text → ℕ → Text
format_addr host port = host ++ b':' ∷ print_nat port

pub record MulticastOutputConfig : Type 0 where
  pub ttl : ℕ
  pub interface : Option Text

-- `MulticastOutputConfig`, field by field, of an option.
unfoldable pub ttl_of : Option MulticastOutputConfig → Option ℕ
ttl_of none = none
ttl_of (some config) = some config.ttl

unfoldable pub interface_of : Option MulticastOutputConfig → Option Text
interface_of none = none
interface_of (some config) = config.interface

-- `spawn_udp_input_with_stats`: the task and its channel are started whatever the socket does.
unfoldable pub spawn_udp_input_with_stats :
    World → ℕ → Option Text → ℕ → Option Text → Option Text → Option Text → World × InputInfo
spawn_udp_input_with_stats w id name listen_port bind_host multicast_group
      source_specific_multicast =
    (
      perform active_inputs_up (perform (input_task (suc w.next) w.next) (draw (draw w))),
      record {
        id = id;
        name = name;
        status = StreamStatus.listening;
        packet_tx = w.next;
        task_handle = some (suc w.next);
        config = CreateInputRequest.udp (record {
          bind_host = bind_host;
          bind_port = some listen_port;
          automatic_port = none;
          name = name;
          multicast_group = multicast_group;
          source_specific_multicast = source_specific_multicast;
          listen_port = some listen_port;
        });
        output_tasks = [];
        stopped_outputs = [];
        analysis_tasks = [];
        paused_analysis = [];
        started_at = some w.now;
        connected_at = none;
        source_address = none;
        error_message = none;
      },
    )

pub record ForwardHandle : Type 0 where
  pub tx : ℕ
  pub handle : ℕ

-- `Forwarder::spawn_with_stats`
unfoldable pub spawn_with_stats : World → World × ForwardHandle
spawn_with_stats w = (
  perform active_inputs_up (perform (input_task (suc w.next) w.next) (draw (draw w))),
  record { tx = w.next; handle = suc w.next },
)

-- `format!("MPTS Input {} Program {}", source_input.id, program_number)`
unfoldable pub mpts_address : ℕ → ℕ → Text
mpts_address source_id program_number =
    codes "MPTS Input " ++ (print_nat source_id ++ (codes " Program " ++ print_nat program_number))

-- `format!("SPTS Program {} from Input {}", program_number, source_input.id)`
unfoldable pub spts_name : ℕ → ℕ → Text
spts_name program_number source_id =
    codes "SPTS Program "
    ++ (print_nat program_number ++ (codes " from Input " ++ print_nat source_id))

-- `spawn_spts_input`
unfoldable pub spawn_spts_input : World → InputInfo → ℕ → ℕ → Bool → Option Text → World × InputInfo
unfolding mpts_address spts_name
spawn_spts_input w source_input spts_id program_number fill_with_nulls name =
    let final_name = or_option name (some (spts_name program_number source_input.id)) in
    (
      perform active_inputs_up
          (perform (filter_task (suc w.next) source_input.packet_tx w.next) (draw (draw w))),
      record {
        id = spts_id;
        name = final_name;
        status = StreamStatus.listening;
        packet_tx = w.next;
        task_handle = some (suc w.next);
        config = CreateInputRequest.spts (record {
          source_input_id = source_input.id;
          program_number = program_number;
          fill_with_nulls = some fill_with_nulls;
          name = final_name;
        });
        output_tasks = [];
        stopped_outputs = [];
        analysis_tasks = [];
        paused_analysis = [];
        started_at = some w.now;
        connected_at = none;
        source_address = some (mpts_address source_input.id program_number);
        error_message = none;
      },
    )

-- The entry that `create_udp_output` returns, and `final_name` in it.
unfoldable pub udp_output_info :
    World
    → Text
    → InputInfo
    → ℕ
    → Option Text
    → Option Text
    → Option MulticastOutputConfig
    → OutputInfo
unfolding ttl_of interface_of
udp_output_info w destination_addr input output_id name bind_host multicast_config =
    let final_name = or_option name (some (codes "UDP Output to " ++ destination_addr)) in
    record {
      id = output_id;
      name = final_name;
      input_id = input.id;
      kind = OutputKind.udp;
      status = StreamStatus.connected;
      destination = destination_addr;
      abort_handle = some w.next;
      config = CreateOutputRequest.udp (record {
        input_id = input.id;
        remote_host = none;
        remote_port = none;
        automatic_port = none;
        name = final_name;
        bind_host = bind_host;
        multicast_ttl = ttl_of multicast_config;
        multicast_interface = interface_of multicast_config;
        destination_addr = some destination_addr;
      });
      started_at = some w.now;
      connected_at = some w.now;
      peer_address = none;
      error_message = none;
    }

-- `create_udp_output`; `resolve` is what `lookup_host` finds, `none` for its error. The output that
-- it makes is `none` where the source returns an error.
unfoldable pub create_udp_output :
    (Text → Option (List Text))
    → World
    → Text
    → InputInfo
    → ℕ
    → Option Text
    → Option Text
    → Option MulticastOutputConfig
    → World × Option OutputInfo
unfolding udp_output_info
create_udp_output resolve w destination_addr input output_id name bind_host multicast_config =
    elim (resolve destination_addr) [
      | none ↦ (w, none)
      | some [] ↦ (w, none)
      | some (dest_addr ∷ others) ↦ (
        perform active_outputs_up (perform (output_task w.next input.packet_tx dest_addr) (draw w)),
        some (udp_output_info w destination_addr input output_id name bind_host multicast_config),
      )
    ]

-- `destination` and `auto_name` of `create_srt_output`
unfoldable pub srt_destination : SrtOutputConfig → Text
unfolding format_addr
srt_destination (SrtOutputConfig.caller c) =
    format_addr (unwrap_or (get_remote_host (SrtOutputConfig.caller c)) (codes "unknown"))
      (unwrap_or (get_remote_port (SrtOutputConfig.caller c)) 0)
srt_destination (SrtOutputConfig.listener c) =
    b':' ∷ print_nat (unwrap_or (get_bind_port (SrtOutputConfig.listener c)) 0)

unfoldable pub srt_auto_name : SrtOutputConfig → Text
unfolding srt_destination
srt_auto_name (SrtOutputConfig.caller c) =
    codes "SRT Caller to " ++ srt_destination (SrtOutputConfig.caller c)
srt_auto_name (SrtOutputConfig.listener c) =
    codes "SRT Listener on " ++ print_nat (unwrap_or (get_bind_port (SrtOutputConfig.listener c)) 0)

unfoldable pub srt_status : SrtOutputConfig → StreamStatus
srt_status (SrtOutputConfig.caller c) = StreamStatus.connecting
srt_status (SrtOutputConfig.listener c) = StreamStatus.listening

unfoldable pub srt_kind : SrtOutputConfig → OutputKind
srt_kind (SrtOutputConfig.caller c) = OutputKind.srt_caller
srt_kind (SrtOutputConfig.listener c) = OutputKind.srt_listener

-- `create_srt_output`, which has no error.
unfoldable pub create_srt_output :
    World → ℕ → SrtOutputConfig → InputInfo → ℕ → Option Text → World × OutputInfo
unfolding srt_destination srt_auto_name srt_status srt_kind
create_srt_output w input_id cfg input output_id name =
    let final_name = or_option name (some (srt_auto_name cfg)) in
    (
      perform active_outputs_up
          (perform (output_task w.next input.packet_tx (srt_destination cfg)) (draw w)),
      record {
        id = output_id;
        name = final_name;
        input_id = input_id;
        kind = srt_kind cfg;
        status = srt_status cfg;
        destination = srt_destination cfg;
        abort_handle = some w.next;
        config = CreateOutputRequest.srt input_id final_name cfg;
        started_at = some w.now;
        connected_at = none;
        peer_address = none;
        error_message = none;
      },
    )

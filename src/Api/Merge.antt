-- ===== src/Api/Merge.antt =====
-- `merge_input_config` and `merge_output_config` of src/api.rs.
use stream_gateway.Common.{Option, none, some, or_option}
use stream_gateway.Common.Texts.{Text}
use stream_gateway.Models.Requests.{
  SrtCommonConfig, UdpInput, SrtListener, SrtInputConfig, CreateInputRequest, UdpOutput,
  SrtOutputConfig, CreateOutputRequest,
}
use stream_gateway.Models.Updates.{
  UpdateUdpInput, UpdateSrtListener, UpdateSrtCaller, UpdateSrtInputConfig, UpdateInputRequest,
  UpdateUdpOutput, UpdateSrtOutputConfig, UpdateOutputRequest,
}

-- The error texts, "Cannot change SRT mode …" and "Cannot change input/output type …".
pub data MergeError : Type 0 where
  changes_srt_mode changes_type : MergeError

pub data Merged {ℓ} (A : Type ℓ) : Type ℓ where
  ok : A → Merged A
  err : MergeError → Merged A

abbrev pub map_merged {ℓ κ} : {A : Type ℓ} {B : Type κ} → (A → B) → Merged A → Merged B
map_merged f (ok a) = ok (f a)
map_merged f (err e) = err e

unfoldable pub merge_optional_field : Option (Option Text) → Option Text → Option Text
merge_optional_field none current = current
merge_optional_field (some inner) current = inner

unfoldable pub merge_udp_input : UdpInput → UpdateUdpInput → UdpInput
merge_udp_input c u = record {
  bind_host = or_option u.bind_host c.bind_host;
  bind_port = or_option u.bind_port c.bind_port;
  automatic_port = none;
  name = or_option u.name c.name;
  multicast_group = or_option u.multicast_group c.multicast_group;
  source_specific_multicast = or_option u.source_specific_multicast c.source_specific_multicast;
  listen_port = none;
}

-- The `Listener` arm, which is the same for inputs and outputs.
unfoldable pub merge_listener : SrtListener → UpdateSrtListener → SrtListener
unfolding merge_optional_field
merge_listener c u = record {
  bind_host = or_option u.bind_host c.bind_host;
  bind_port = or_option u.bind_port c.bind_port;
  automatic_port = none;
  common = record {
    latency_ms = or_option u.latency_ms c.common.latency_ms;
    stream_id = merge_optional_field u.stream_id c.common.stream_id;
    passphrase = merge_optional_field u.passphrase c.common.passphrase;
    expected_bitrate_kbps = or_option u.expected_bitrate_kbps c.common.expected_bitrate_kbps;
    fec = or_option u.fec c.common.fec;
  };
  listen_port = none;
}

-- The `common` part of the `Caller` arms.
unfoldable pub merge_caller_common : SrtCommonConfig → UpdateSrtCaller → SrtCommonConfig
unfolding merge_optional_field
merge_caller_common common u = record {
  latency_ms = or_option u.latency_ms common.latency_ms;
  stream_id = merge_optional_field u.stream_id common.stream_id;
  passphrase = merge_optional_field u.passphrase common.passphrase;
  expected_bitrate_kbps = or_option u.expected_bitrate_kbps common.expected_bitrate_kbps;
  fec = or_option u.fec common.fec;
}

unfoldable pub merge_srt_input : SrtInputConfig → UpdateSrtInputConfig → Merged SrtInputConfig
unfolding merge_listener merge_caller_common
merge_srt_input (SrtInputConfig.listener c) (UpdateSrtInputConfig.listener u) =
    ok (SrtInputConfig.listener (merge_listener c u))
merge_srt_input (SrtInputConfig.caller c) (UpdateSrtInputConfig.caller u) = ok (
    SrtInputConfig.caller (record {
      remote_host = or_option u.remote_host c.remote_host;
      remote_port = or_option u.remote_port c.remote_port;
      common = merge_caller_common c.common u;
      bind_host = or_option u.bind_host c.bind_host;
      target_addr = none;
    }))
merge_srt_input _ _ = err changes_srt_mode

unfoldable pub merge_input_config :
    CreateInputRequest → UpdateInputRequest → Merged CreateInputRequest
unfolding merge_udp_input merge_srt_input
merge_input_config (CreateInputRequest.udp c) (UpdateInputRequest.udp u) =
    ok (CreateInputRequest.udp (merge_udp_input c u))
merge_input_config (CreateInputRequest.srt name config) (UpdateInputRequest.srt new_name update) =
    map_merged (CreateInputRequest.srt (or_option new_name name)) (merge_srt_input config update)
merge_input_config (CreateInputRequest.spts c) (UpdateInputRequest.spts new_name new_fill) = ok (
    CreateInputRequest.spts (record {
      source_input_id = c.source_input_id;
      program_number = c.program_number;
      fill_with_nulls = or_option new_fill c.fill_with_nulls;
      name = or_option new_name c.name;
    }))
merge_input_config _ _ = err changes_type

unfoldable pub merge_udp_output : UdpOutput → UpdateUdpOutput → UdpOutput
merge_udp_output c u = record {
  input_id = c.input_id;
  remote_host = or_option u.remote_host c.remote_host;
  remote_port = or_option u.remote_port c.remote_port;
  automatic_port = none;
  name = or_option u.name c.name;
  bind_host = or_option u.bind_host c.bind_host;
  multicast_ttl = or_option u.multicast_ttl c.multicast_ttl;
  multicast_interface = or_option u.multicast_interface c.multicast_interface;
  destination_addr = none;
}

unfoldable pub merge_srt_output : SrtOutputConfig → UpdateSrtOutputConfig → Merged SrtOutputConfig
unfolding merge_listener merge_caller_common
merge_srt_output (SrtOutputConfig.listener c) (UpdateSrtOutputConfig.listener u) =
    ok (SrtOutputConfig.listener (merge_listener c u))
merge_srt_output (SrtOutputConfig.caller c) (UpdateSrtOutputConfig.caller u) = ok (
    SrtOutputConfig.caller (record {
      remote_host = or_option u.remote_host c.remote_host;
      remote_port = or_option u.remote_port c.remote_port;
      common = merge_caller_common c.common u;
      bind_host = or_option u.bind_host c.bind_host;
      destination_addr = none;
    }))
merge_srt_output _ _ = err changes_srt_mode

unfoldable pub merge_output_config :
    CreateOutputRequest → UpdateOutputRequest → Merged CreateOutputRequest
unfolding merge_udp_output merge_srt_output
merge_output_config (CreateOutputRequest.udp c) (UpdateOutputRequest.udp u) =
    ok (CreateOutputRequest.udp (merge_udp_output c u))
merge_output_config (CreateOutputRequest.srt input_id name config)
      (UpdateOutputRequest.srt new_name update) =
    map_merged (CreateOutputRequest.srt input_id (or_option new_name name))
      (merge_srt_output config update)
merge_output_config _ _ = err changes_type

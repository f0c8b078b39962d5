-- ===== src/Models/Outputs.antt =====
-- The accessors of `CreateOutputRequest` in src/models.rs, and the kind of an output.
use stream_gateway.Common.{ℕ, Bool, Option, none}
use stream_gateway.Common.Texts.{Text, codes}
use stream_gateway.Models.Requests.{FecConfig, CreateOutputRequest}
use stream_gateway.Models.Addresses.{nonzero, host_of, port_of, automatic}
use stream_gateway.PortUtils.Auto.{should_use_auto_port_output}
use stream_gateway.Models.OutputConfig

unfoldable pub is_automatic_port : CreateOutputRequest → Bool
unfolding automatic should_use_auto_port_output OutputConfig.is_automatic_port
is_automatic_port (CreateOutputRequest.udp c) =
    automatic c.automatic_port (should_use_auto_port_output c.remote_port none c.destination_addr)
is_automatic_port (CreateOutputRequest.srt input_id name config) =
    OutputConfig.is_automatic_port config

unfoldable pub get_remote_host : CreateOutputRequest → Option Text
unfolding host_of OutputConfig.get_remote_host
get_remote_host (CreateOutputRequest.udp c) = host_of c.remote_host c.destination_addr
get_remote_host (CreateOutputRequest.srt input_id name config) = OutputConfig.get_remote_host config

unfoldable pub get_remote_port : CreateOutputRequest → Option ℕ
unfolding port_of OutputConfig.get_remote_port
get_remote_port (CreateOutputRequest.udp c) = port_of c.remote_port c.destination_addr
get_remote_port (CreateOutputRequest.srt input_id name config) = OutputConfig.get_remote_port config

unfoldable pub get_bind_port : CreateOutputRequest → Option ℕ
unfolding OutputConfig.get_bind_port
get_bind_port (CreateOutputRequest.udp c) = none
get_bind_port (CreateOutputRequest.srt input_id name config) = OutputConfig.get_bind_port config

unfoldable pub get_bind_host : CreateOutputRequest → Option Text
unfolding OutputConfig.get_bind_host
get_bind_host (CreateOutputRequest.udp c) = c.bind_host
get_bind_host (CreateOutputRequest.srt input_id name config) = OutputConfig.get_bind_host config

unfoldable pub get_expected_bitrate_kbps : CreateOutputRequest → Option ℕ
unfolding OutputConfig.get_expected_bitrate_kbps
get_expected_bitrate_kbps (CreateOutputRequest.udp c) = none
get_expected_bitrate_kbps (CreateOutputRequest.srt input_id name config) =
    OutputConfig.get_expected_bitrate_kbps config

unfoldable pub get_fec_config : CreateOutputRequest → Option FecConfig
unfolding OutputConfig.get_fec_config
get_fec_config (CreateOutputRequest.udp c) = none
get_fec_config (CreateOutputRequest.srt input_id name config) = OutputConfig.get_fec_config config

unfoldable pub extract_assigned_port : CreateOutputRequest → Option ℕ
unfolding nonzero OutputConfig.extract_assigned_port
extract_assigned_port (CreateOutputRequest.udp c) = nonzero c.remote_port
extract_assigned_port (CreateOutputRequest.srt input_id name config) =
    OutputConfig.extract_assigned_port config

pub data OutputKind : Type 0 where
  udp srt_caller srt_listener : OutputKind

unfoldable pub output_kind_string : OutputKind → Text
output_kind_string OutputKind.udp = codes "udp"
output_kind_string OutputKind.srt_caller = codes "srt_caller"
output_kind_string OutputKind.srt_listener = codes "srt_listener"

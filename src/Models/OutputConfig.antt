-- ===== src/Models/OutputConfig.antt =====
-- The accessors of `SrtOutputConfig` in src/models.rs.
use stream_gateway.Common.{ℕ, Bool, false, ◌||◌, Option, none, some, or_option, unwrap_or}
use stream_gateway.Common.Texts.{Text}
use stream_gateway.Models.Requests.{FecConfig, SrtOutputConfig}
use stream_gateway.Models.Addresses.{any_host, nonzero, host_of, port_of, automatic}
use stream_gateway.PortUtils.Auto.{should_use_auto_port_input, should_use_auto_port_output}

unfoldable pub is_automatic_port : SrtOutputConfig → Bool
unfolding automatic should_use_auto_port_output should_use_auto_port_input
is_automatic_port (SrtOutputConfig.listener c) = automatic c.automatic_port (
    should_use_auto_port_output none c.bind_port none
    || should_use_auto_port_input c.bind_port c.listen_port)
is_automatic_port (SrtOutputConfig.caller c) = false

unfoldable pub get_remote_host : SrtOutputConfig → Option Text
unfolding host_of
get_remote_host (SrtOutputConfig.listener c) = none
get_remote_host (SrtOutputConfig.caller c) = host_of c.remote_host c.destination_addr

unfoldable pub get_caller_bind_host : SrtOutputConfig → Option Text
get_caller_bind_host (SrtOutputConfig.listener c) = none
get_caller_bind_host (SrtOutputConfig.caller c) = c.bind_host

unfoldable pub get_remote_port : SrtOutputConfig → Option ℕ
unfolding port_of
get_remote_port (SrtOutputConfig.listener c) = none
get_remote_port (SrtOutputConfig.caller c) = port_of c.remote_port c.destination_addr

unfoldable pub get_bind_port : SrtOutputConfig → Option ℕ
get_bind_port (SrtOutputConfig.listener c) = or_option c.listen_port c.bind_port
get_bind_port (SrtOutputConfig.caller c) = none

unfoldable pub get_bind_host : SrtOutputConfig → Option Text
get_bind_host (SrtOutputConfig.listener c) = some (unwrap_or c.bind_host any_host)
get_bind_host (SrtOutputConfig.caller c) = none

unfoldable pub get_expected_bitrate_kbps : SrtOutputConfig → Option ℕ
get_expected_bitrate_kbps (SrtOutputConfig.listener c) = c.common.expected_bitrate_kbps
get_expected_bitrate_kbps (SrtOutputConfig.caller c) = c.common.expected_bitrate_kbps

unfoldable pub get_fec_config : SrtOutputConfig → Option FecConfig
get_fec_config (SrtOutputConfig.listener c) = c.common.fec
get_fec_config (SrtOutputConfig.caller c) = c.common.fec

unfoldable pub extract_assigned_port : SrtOutputConfig → Option ℕ
unfolding nonzero
extract_assigned_port (SrtOutputConfig.listener c) = nonzero (or_option c.listen_port c.bind_port)
extract_assigned_port (SrtOutputConfig.caller c) = nonzero c.remote_port

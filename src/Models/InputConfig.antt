-- ===== src/Models/InputConfig.antt =====
-- The accessors of `SrtInputConfig` in src/models.rs.
use stream_gateway.Common.{ℕ, Bool, false, Option, none, or_option, unwrap_or}
use stream_gateway.Common.Texts.{Text}
use stream_gateway.Models.Requests.{FecConfig, SrtInputConfig}
use stream_gateway.Models.Addresses.{any_host, nonzero, host_of, port_of, automatic}
use stream_gateway.PortUtils.Auto.{should_use_auto_port_input}

unfoldable pub is_automatic_port : SrtInputConfig → Bool
unfolding automatic should_use_auto_port_input
is_automatic_port (SrtInputConfig.listener c) =
    automatic c.automatic_port (should_use_auto_port_input c.bind_port c.listen_port)
is_automatic_port (SrtInputConfig.caller c) = false

unfoldable pub get_bind_port : SrtInputConfig → ℕ
get_bind_port (SrtInputConfig.listener c) = unwrap_or (or_option c.listen_port c.bind_port) 0
get_bind_port (SrtInputConfig.caller c) = 0

unfoldable pub get_bind_host : SrtInputConfig → Text
get_bind_host (SrtInputConfig.listener c) = unwrap_or c.bind_host any_host
get_bind_host (SrtInputConfig.caller c) = any_host

unfoldable pub get_remote_host : SrtInputConfig → Option Text
unfolding host_of
get_remote_host (SrtInputConfig.listener c) = none
get_remote_host (SrtInputConfig.caller c) = host_of c.remote_host c.target_addr

unfoldable pub get_caller_bind_host : SrtInputConfig → Option Text
get_caller_bind_host (SrtInputConfig.listener c) = none
get_caller_bind_host (SrtInputConfig.caller c) = c.bind_host

unfoldable pub get_remote_port : SrtInputConfig → Option ℕ
unfolding port_of
get_remote_port (SrtInputConfig.listener c) = none
get_remote_port (SrtInputConfig.caller c) = port_of c.remote_port c.target_addr

unfoldable pub get_expected_bitrate_kbps : SrtInputConfig → Option ℕ
get_expected_bitrate_kbps (SrtInputConfig.listener c) = c.common.expected_bitrate_kbps
get_expected_bitrate_kbps (SrtInputConfig.caller c) = c.common.expected_bitrate_kbps

unfoldable pub get_fec_config : SrtInputConfig → Option FecConfig
get_fec_config (SrtInputConfig.listener c) = c.common.fec
get_fec_config (SrtInputConfig.caller c) = c.common.fec

unfoldable pub extract_assigned_port : SrtInputConfig → Option ℕ
unfolding nonzero
extract_assigned_port (SrtInputConfig.listener c) = nonzero (or_option c.listen_port c.bind_port)
extract_assigned_port (SrtInputConfig.caller c) = none

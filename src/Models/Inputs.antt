-- ===== src/Models/Inputs.antt =====
-- The accessors of `CreateInputRequest` in src/models.rs, `input_kind_string` and
-- `input_type_display_string`.
use stream_gateway.Common.{ℕ, Bool, false, Option, none, or_option, unwrap_or, if◌then◌else◌}
use stream_gateway.Common.Texts.{Text, codes, text_eq}
use stream_gateway.Models.Requests.{FecConfig, SrtInputConfig, CreateInputRequest}
use stream_gateway.Models.Addresses.{any_host, nonzero, automatic}
use stream_gateway.PortUtils.Auto.{should_use_auto_port_input}
use stream_gateway.Models.InputConfig

unfoldable pub is_automatic_port : CreateInputRequest → Bool
unfolding automatic should_use_auto_port_input InputConfig.is_automatic_port
is_automatic_port (CreateInputRequest.udp c) =
    automatic c.automatic_port (should_use_auto_port_input c.bind_port c.listen_port)
is_automatic_port (CreateInputRequest.srt name config) = InputConfig.is_automatic_port config
is_automatic_port (CreateInputRequest.spts c) = false

unfoldable pub get_bind_port : CreateInputRequest → ℕ
unfolding InputConfig.get_bind_port
get_bind_port (CreateInputRequest.udp c) = unwrap_or (or_option c.listen_port c.bind_port) 0
get_bind_port (CreateInputRequest.srt name config) = InputConfig.get_bind_port config
get_bind_port (CreateInputRequest.spts c) = 0

unfoldable pub get_bind_host : CreateInputRequest → Text
unfolding InputConfig.get_bind_host
get_bind_host (CreateInputRequest.udp c) = unwrap_or c.bind_host any_host
get_bind_host (CreateInputRequest.srt name config) = InputConfig.get_bind_host config
get_bind_host (CreateInputRequest.spts c) = any_host

unfoldable pub get_remote_host : CreateInputRequest → Option Text
unfolding InputConfig.get_remote_host
get_remote_host (CreateInputRequest.udp c) = none
get_remote_host (CreateInputRequest.srt name config) = InputConfig.get_remote_host config
get_remote_host (CreateInputRequest.spts c) = none

unfoldable pub get_remote_port : CreateInputRequest → Option ℕ
unfolding InputConfig.get_remote_port
get_remote_port (CreateInputRequest.udp c) = none
get_remote_port (CreateInputRequest.srt name config) = InputConfig.get_remote_port config
get_remote_port (CreateInputRequest.spts c) = none

unfoldable pub get_expected_bitrate_kbps : CreateInputRequest → Option ℕ
unfolding InputConfig.get_expected_bitrate_kbps
get_expected_bitrate_kbps (CreateInputRequest.udp c) = none
get_expected_bitrate_kbps (CreateInputRequest.srt name config) =
    InputConfig.get_expected_bitrate_kbps config
get_expected_bitrate_kbps (CreateInputRequest.spts c) = none

unfoldable pub get_fec_config : CreateInputRequest → Option FecConfig
unfolding InputConfig.get_fec_config
get_fec_config (CreateInputRequest.udp c) = none
get_fec_config (CreateInputRequest.srt name config) = InputConfig.get_fec_config config
get_fec_config (CreateInputRequest.spts c) = none

unfoldable pub extract_assigned_port : CreateInputRequest → Option ℕ
unfolding nonzero InputConfig.extract_assigned_port
extract_assigned_port (CreateInputRequest.udp c) = nonzero (or_option c.listen_port c.bind_port)
extract_assigned_port (CreateInputRequest.srt name config) =
    InputConfig.extract_assigned_port config
extract_assigned_port (CreateInputRequest.spts c) = none

unfoldable pub input_kind_string : CreateInputRequest → Text
input_kind_string (CreateInputRequest.udp c) = codes "udp"
input_kind_string (CreateInputRequest.srt name (SrtInputConfig.listener c)) = codes "srt_listener"
input_kind_string (CreateInputRequest.srt name (SrtInputConfig.caller c)) = codes "srt_caller"
input_kind_string (CreateInputRequest.spts c) = codes "spts"

unfoldable pub input_type_display_string : Text → Text
unfolding text_eq
input_type_display_string kind =
    if text_eq kind (codes "udp")
    then codes "UDP Listener"
    else if text_eq kind (codes "srt_listener")
    then codes "SRT Listener"
    else if text_eq kind (codes "srt_caller")
    then codes "SRT Caller"
    else if text_eq kind (codes "spts")
    then codes "SPTS Filter"
    else codes "Unknown"

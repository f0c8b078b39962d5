-- ===== src/Api/Names.antt =====
-- The names and destinations that src/api.rs makes up for a request.
use stream_gateway.Common.{ℕ, Option, none, some, ◌∷◌, ◌++◌, or_option, unwrap_or}
use stream_gateway.Common.Texts.{Text, codes, print_nat}
use stream_gateway.Models.Requests.{
  SrtInputConfig, CreateInputRequest, SrtOutputConfig, CreateOutputRequest,
}
use stream_gateway.Models.Inputs.{get_bind_port}
use stream_gateway.Models.Outputs.{get_remote_host, get_remote_port}
use stream_gateway.Models.InputConfig
use stream_gateway.Models.OutputConfig
use stream_gateway.Streams.Spawn.{format_addr, spts_name, srt_auto_name}

unfoldable pub get_name_from_request : CreateInputRequest → Option Text
get_name_from_request (CreateInputRequest.udp c) = c.name
get_name_from_request (CreateInputRequest.srt name config) = name
get_name_from_request (CreateInputRequest.spts c) = c.name

unfoldable pub generate_input_name : CreateInputRequest → Option Text
unfolding get_bind_port InputConfig.get_bind_port InputConfig.get_remote_host
    InputConfig.get_remote_port format_addr spts_name
generate_input_name (CreateInputRequest.udp c) =
    some (codes "UDP Listener " ++ print_nat (get_bind_port (CreateInputRequest.udp c)))
generate_input_name (CreateInputRequest.srt name (SrtInputConfig.listener c)) =
    some
      (codes "SRT Listener " ++ print_nat (InputConfig.get_bind_port (SrtInputConfig.listener c)))
generate_input_name (CreateInputRequest.srt name (SrtInputConfig.caller c)) = some (
    codes "SRT Caller "
    ++ format_addr
        (unwrap_or (InputConfig.get_remote_host (SrtInputConfig.caller c)) (codes "unknown"))
        (unwrap_or (InputConfig.get_remote_port (SrtInputConfig.caller c)) 0))
generate_input_name (CreateInputRequest.spts c) =
    some (spts_name c.program_number c.source_input_id)

-- `name` of `create_input`, made from the request as it came in.
unfoldable pub input_name : CreateInputRequest → Option Text
unfolding get_name_from_request generate_input_name
input_name req = or_option (get_name_from_request req) (generate_input_name req)

-- `destination_addr` and `listen_port` of `create_output`
unfoldable pub output_destination : CreateOutputRequest → Text × Option ℕ
unfolding format_addr get_remote_host get_remote_port OutputConfig.get_bind_port
output_destination (CreateOutputRequest.srt input_id name (SrtOutputConfig.listener c)) =
    let port = unwrap_or (OutputConfig.get_bind_port (SrtOutputConfig.listener c)) 8000 in
    (b':' ∷ print_nat port, some port)
output_destination req = (
  format_addr (unwrap_or (get_remote_host req) (codes "127.0.0.1"))
      (unwrap_or (get_remote_port req) 8000),
  none,
)

-- `name` of `create_output`
unfoldable pub output_name : CreateOutputRequest → Text → Option Text
unfolding srt_auto_name
output_name (CreateOutputRequest.udp c) destination_addr =
    or_option c.name (some (codes "UDP Output to " ++ destination_addr))
output_name (CreateOutputRequest.srt input_id name config) destination_addr =
    or_option name (some (srt_auto_name config))

-- `input_id` of `create_output`
unfoldable pub output_input_id : CreateOutputRequest → ℕ
output_input_id (CreateOutputRequest.udp c) = c.input_id
output_input_id (CreateOutputRequest.srt input_id name config) = input_id

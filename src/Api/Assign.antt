-- ===== src/Api/Assign.antt =====
-- The automatic port in `create_input` and `create_output` of src/api.rs: the request that is saved
-- once `find_available_port` gave a port.
use stream_gateway.Common.{ℕ, Option, none, some, if◌then◌else◌}
use stream_gateway.Models.Requests.{
  SrtListener, SrtInputConfig, CreateInputRequest, SrtOutputConfig, CreateOutputRequest,
}
use stream_gateway.Models.Inputs
use stream_gateway.Models.Outputs

unfoldable pub assign_listener : ℕ → SrtListener → SrtListener
assign_listener port c = record c {
  bind_port = some port;
  listen_port = some port;
  automatic_port = none;
}

unfoldable pub set_input_port : ℕ → CreateInputRequest → CreateInputRequest
unfolding assign_listener
set_input_port port (CreateInputRequest.udp c) =
    CreateInputRequest.udp
      (record c { bind_port = some port; listen_port = some port; automatic_port = none })
set_input_port port (CreateInputRequest.srt name (SrtInputConfig.listener c)) =
    CreateInputRequest.srt name (SrtInputConfig.listener (assign_listener port c))
set_input_port port (CreateInputRequest.srt name (SrtInputConfig.caller c)) =
    CreateInputRequest.srt name (SrtInputConfig.caller c)
set_input_port port (CreateInputRequest.spts c) = CreateInputRequest.spts c

unfoldable pub set_output_port : ℕ → CreateOutputRequest → CreateOutputRequest
unfolding assign_listener
set_output_port port (CreateOutputRequest.udp c) =
    CreateOutputRequest.udp (record c { remote_port = some port; automatic_port = none })
set_output_port port (CreateOutputRequest.srt input_id name (SrtOutputConfig.listener c)) =
    CreateOutputRequest.srt input_id name (SrtOutputConfig.listener (assign_listener port c))
set_output_port port (CreateOutputRequest.srt input_id name (SrtOutputConfig.caller c)) =
    CreateOutputRequest.srt input_id name (SrtOutputConfig.caller c)

-- `final_req` and `assigned_port`; `port` is what `find_available_port` gives.
unfoldable pub assign_input_port : ℕ → CreateInputRequest → CreateInputRequest × Option ℕ
unfolding set_input_port Inputs.is_automatic_port
assign_input_port port req =
    if Inputs.is_automatic_port req then (set_input_port port req, some port) else (req, none)

unfoldable pub assign_output_port : ℕ → CreateOutputRequest → CreateOutputRequest × Option ℕ
unfolding set_output_port Outputs.is_automatic_port
assign_output_port port req =
    if Outputs.is_automatic_port req then (set_output_port port req, some port) else (req, none)

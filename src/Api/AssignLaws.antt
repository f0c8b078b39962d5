-- ===== src/Api/AssignLaws.antt =====
-- What `create_input` and `create_output` of src/api.rs save of a request with an automatic port.
use stream_gateway.Common.{ℕ, ◌≡◌, ◌≢◌, refl, true, false, none, some, arith}
use stream_gateway.Models.Requests.{
  SrtInputConfig, CreateInputRequest, SrtOutputConfig, CreateOutputRequest,
}
use stream_gateway.Models.Addresses.{nonzero, automatic}
use stream_gateway.PortUtils.Auto.{should_use_auto_port_input}
use stream_gateway.Models.Inputs
use stream_gateway.Models.Outputs
use stream_gateway.Models.InputConfig
use stream_gateway.Models.OutputConfig
use stream_gateway.Api.Assign.{
  assign_listener, set_input_port, set_output_port, assign_input_port, assign_output_port,
}

nonzero-some : (port : ℕ) → port ≢ 0 → nonzero (some port) ≡ some port
unfolding nonzero
nonzero-some port h = ground arith

set_input_port-settles :
    (port : ℕ) (req : CreateInputRequest)
    → port ≢ 0
    → Inputs.is_automatic_port req ≡ true
    → (Inputs.is_automatic_port (set_input_port port req) ≡ false)
      × (Inputs.extract_assigned_port (set_input_port port req) ≡ some port)
      × (Inputs.get_bind_port (set_input_port port req) ≡ port)
unfolding set_input_port assign_listener Inputs.is_automatic_port Inputs.extract_assigned_port
    Inputs.get_bind_port InputConfig.is_automatic_port InputConfig.extract_assigned_port
    InputConfig.get_bind_port automatic should_use_auto_port_input
set_input_port-settles port (CreateInputRequest.udp c) h a =
    (ground arith, nonzero-some port h, refl)
set_input_port-settles port (CreateInputRequest.srt name (SrtInputConfig.listener c)) h a =
    (ground arith, nonzero-some port h, refl)
set_input_port-settles port (CreateInputRequest.srt name (SrtInputConfig.caller c)) h a =
    absurd (ground arith)
set_input_port-settles port (CreateInputRequest.spts c) h a = absurd (ground arith)

-- When the port that was found is not 0, the input request that is saved in place of an automatic
-- one is no longer automatic, has that port as its assigned port, and binds to it.
pub assign_input_port-settles :
    (port : ℕ) (req : CreateInputRequest)
    → port ≢ 0
    → Inputs.is_automatic_port req ≡ true
    → ((assign_input_port port req).1 ≡ some port)
      × (Inputs.is_automatic_port (assign_input_port port req).0 ≡ false)
      × (Inputs.extract_assigned_port (assign_input_port port req).0 ≡ some port)
      × (Inputs.get_bind_port (assign_input_port port req).0 ≡ port)
unfolding assign_input_port
assign_input_port-settles port req h a =
    rw (a, assign_input_port)
      (let (settled, assigned, bound) = set_input_port-settles port req h a in
        (refl, settled, assigned, bound))

set_output_port-assigned :
    (port : ℕ) (req : CreateOutputRequest)
    → port ≢ 0
    → Outputs.is_automatic_port req ≡ true
    → Outputs.extract_assigned_port (set_output_port port req) ≡ some port
unfolding set_output_port assign_listener Outputs.is_automatic_port Outputs.extract_assigned_port
    OutputConfig.is_automatic_port OutputConfig.extract_assigned_port
set_output_port-assigned port (CreateOutputRequest.udp c) h a = nonzero-some port h
set_output_port-assigned port (CreateOutputRequest.srt input_id name (SrtOutputConfig.listener c)) h
      a =
    nonzero-some port h
set_output_port-assigned port (CreateOutputRequest.srt input_id name (SrtOutputConfig.caller c)) h
      a =
    absurd (ground arith)

-- When the port that was found is not 0, the output request that is saved has an assigned port if it
-- was automatic, and is unchanged if it was not.
pub assign_output_port-assigned :
    (port : ℕ) (req : CreateOutputRequest)
    → port ≢ 0
    → (Outputs.is_automatic_port req ≡ true
        → Outputs.extract_assigned_port (assign_output_port port req).0 ≡ some port)
      × (Outputs.is_automatic_port req ≡ false → assign_output_port port req ≡ (req, none))
unfolding assign_output_port
assign_output_port-assigned port req h = (
  λ a. rw (a, assign_output_port) (set_output_port-assigned port req h a),
  λ a. rw (a, assign_output_port) refl,
)

-- ===== src/Examples/Api.antt =====
-- The theorems on src/api.rs, applied.
use stream_gateway.Common.{◌≡◌, refl, true, false, none, some, arith}
use stream_gateway.Common.Texts.{Text, codes, text_eq}
use stream_gateway.Models.Requests.{UdpInput, CreateInputRequest, CreateOutputRequest}
use stream_gateway.Models.Updates.{
  UpdateUdpInput, UpdateInputRequest, UpdateUdpOutput, UpdateOutputRequest,
}
use stream_gateway.Models.Addresses.{automatic}
use stream_gateway.PortUtils.Auto.{should_use_auto_port_input}
use stream_gateway.Models.Inputs
use stream_gateway.Models.Outputs
use stream_gateway.Interfaces.{
  IpAddr, is_valid_bind_address, is_wildcard, any_addr, interface_infos, interface_info, has_addr,
  ip_eq,
}
use stream_gateway.Api.Merge.{
  ok, merge_input_config, merge_output_config, merge_udp_input, merge_udp_output,
}
use stream_gateway.Api.MergeLaws.{
  merge_udp_input_forgets_port, merge_udp_output_forgets_destination,
}
use stream_gateway.Api.Taken.{InputTakes, OutputTakes}
use stream_gateway.Api.MergeTaken.{merge_input_config-Takes, merge_output_config-Takes}
use stream_gateway.Api.Validate
use stream_gateway.Api.Validate.{
  validate_udp_input_config, validate_udp_input, if_given, validate_bind_address,
  validate_multicast_group, validate_source, no_group, ◌>>◌,
}
use stream_gateway.Api.ValidateLaws.{Given, validate_udp_input_config_sound}
use stream_gateway.Api.Assign.{assign_input_port, assign_output_port}
use stream_gateway.Api.AssignLaws.{assign_input_port-settles, assign_output_port-assigned}
use stream_gateway.Examples.Values.{udp_input, udp_output, home, lan, print_ip}

-- An update that sets the bind host only.
abbrev to_lan : UpdateUdpInput
to_lan = record {
  bind_host = some (print_ip lan);
  bind_port = none;
  name = none;
  multicast_group = none;
  source_specific_multicast = none;
}

merged :
    merge_input_config (CreateInputRequest.udp udp_input) (UpdateInputRequest.udp to_lan)
    ≡ ok (CreateInputRequest.udp (merge_udp_input udp_input to_lan))
unfolding merge_input_config
merged = refl

merge_input_config-Takes_example :
    InputTakes
      (UpdateInputRequest.udp to_lan)
      (CreateInputRequest.udp udp_input)
      (CreateInputRequest.udp (merge_udp_input udp_input to_lan))
    × (merge_input_config
          (CreateInputRequest.udp (merge_udp_input udp_input to_lan))
          (UpdateInputRequest.udp to_lan)
        ≡ ok (CreateInputRequest.udp (merge_udp_input udp_input to_lan)))
merge_input_config-Takes_example =
    merge_input_config-Takes (CreateInputRequest.udp udp_input)
      (CreateInputRequest.udp (merge_udp_input udp_input to_lan)) (UpdateInputRequest.udp to_lan)
      merged

-- An update that sets the name only.
abbrev renamed : UpdateUdpOutput
renamed = record {
  remote_host = none;
  remote_port = none;
  bind_host = none;
  multicast_ttl = none;
  multicast_interface = none;
  name = some (codes "news");
}

merged_output :
    merge_output_config (CreateOutputRequest.udp udp_output) (UpdateOutputRequest.udp renamed)
    ≡ ok (CreateOutputRequest.udp (merge_udp_output udp_output renamed))
unfolding merge_output_config
merged_output = refl

merge_output_config-Takes_example :
    OutputTakes
      (UpdateOutputRequest.udp renamed)
      (CreateOutputRequest.udp udp_output)
      (CreateOutputRequest.udp (merge_udp_output udp_output renamed))
    × (merge_output_config
          (CreateOutputRequest.udp (merge_udp_output udp_output renamed))
          (UpdateOutputRequest.udp renamed)
        ≡ ok (CreateOutputRequest.udp (merge_udp_output udp_output renamed)))
merge_output_config-Takes_example =
    merge_output_config-Takes (CreateOutputRequest.udp udp_output)
      (CreateOutputRequest.udp (merge_udp_output udp_output renamed))
      (UpdateOutputRequest.udp renamed) merged_output

-- An input that stands on the legacy port.
abbrev old_input : UdpInput
old_input = record udp_input { bind_port = none; listen_port = some 5004 }

merge_udp_input_forgets_port_example :
    (Inputs.get_bind_port (CreateInputRequest.udp old_input) ≡ 5004)
    × (Inputs.get_bind_port (CreateInputRequest.udp (merge_udp_input old_input to_lan)) ≡ 0)
merge_udp_input_forgets_port_example =
    merge_udp_input_forgets_port old_input to_lan 5004 refl refl refl

merge_udp_output_forgets_destination_example :
    (Outputs.get_remote_host (CreateOutputRequest.udp (merge_udp_output udp_output renamed)) ≡ none)
    × (Outputs.get_remote_port (CreateOutputRequest.udp (merge_udp_output udp_output renamed))
        ≡ none)
merge_udp_output_forgets_destination_example =
    merge_udp_output_forgets_destination udp_output renamed refl refl refl refl

-- An input that binds to the address of the one interface.
abbrev lan_input : UdpInput
lan_input = record udp_input { bind_host = some (print_ip lan) }

accepted : validate_udp_input_config home (CreateInputRequest.udp lan_input) ≡ Validate.ok
unfolding validate_udp_input_config validate_udp_input if_given validate_bind_address
    is_valid_bind_address is_wildcard text_eq any_addr interface_infos interface_info has_addr ip_eq
accepted = refl

validate_udp_input_config_sound_example :
    ((s : Text) → Given lan_input.bind_host s → is_valid_bind_address home s ≡ true)
    × ((s : Text)
        → Given lan_input.multicast_group s
        → (a : IpAddr) × (home.parse s ≡ some a) × (home.is_multicast a ≡ true))
    × ((s : Text)
        → Given lan_input.source_specific_multicast s
        → (g : Text) × (a : IpAddr) × Given lan_input.multicast_group g × (home.parse s ≡ some a))
validate_udp_input_config_sound_example = validate_udp_input_config_sound home lan_input accepted

-- An input without any port.
abbrev open_input : CreateInputRequest
open_input = CreateInputRequest.udp (record udp_input { bind_port = none })

open_automatic : Inputs.is_automatic_port open_input ≡ true
unfolding Inputs.is_automatic_port automatic should_use_auto_port_input
open_automatic = refl

assign_input_port-settles_example :
    ((assign_input_port 10000 open_input).1 ≡ some 10000)
    × (Inputs.is_automatic_port (assign_input_port 10000 open_input).0 ≡ false)
    × (Inputs.extract_assigned_port (assign_input_port 10000 open_input).0 ≡ some 10000)
    × (Inputs.get_bind_port (assign_input_port 10000 open_input).0 ≡ 10000)
assign_input_port-settles_example =
    assign_input_port-settles 10000 open_input (omega arith) open_automatic

assign_output_port-assigned_example :
    (Outputs.is_automatic_port (CreateOutputRequest.udp udp_output) ≡ true
      → Outputs.extract_assigned_port
          (assign_output_port 10000 (CreateOutputRequest.udp udp_output)).0
        ≡ some 10000)
    × (Outputs.is_automatic_port (CreateOutputRequest.udp udp_output) ≡ false
        → assign_output_port 10000 (CreateOutputRequest.udp udp_output)
          ≡ (CreateOutputRequest.udp udp_output, none))
assign_output_port-assigned_example =
    assign_output_port-assigned 10000 (CreateOutputRequest.udp udp_output) (omega arith)

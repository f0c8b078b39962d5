-- ===== src/Examples/Models.antt =====
-- The theorems on src/models.rs, src/port_utils.rs and src/interfaces.rs, applied.
use stream_gateway.PortUtils.Find.{
  OutputPort, find_available_port, search_ports, is_free, has_conflict, check_port_conflict,
  has_port, counted, output_ports, input_ports, insert_port,
}
use stream_gateway.PortUtils.FindLaws.{is_stored, find_available_port_lem}
use stream_gateway.Common.{
  ℕ, ◌≡◌, ◌↔◌, ◌⊎◌, ◌++◌, ◌≢◌, ◌≤◌, ◌<◌, refl, Bool, true, false, not, ◌||◌, arith, ◌==◌, none,
  some, List, [], ◌∷◌, contains,
}
use stream_gateway.Common.Texts.{Text, codes, text_eq}
use stream_gateway.Models.Requests.{CreateInputRequest, CreateOutputRequest}
use stream_gateway.Models.Addresses.{automatic}
use stream_gateway.PortUtils.Auto.{should_use_auto_port_input}
use stream_gateway.Models.Inputs
use stream_gateway.Models.Outputs
use stream_gateway.Models.Status
use stream_gateway.Models.Status.{StreamStatus, from_str-to_string}
use stream_gateway.Models.Analysis
use stream_gateway.Models.Analysis.{AnalysisType, analysis_from_str-to_string}
use stream_gateway.Models.PortLaws.{extract_assigned_port-is_automatic_port, is_automatic_port_lem}
use stream_gateway.Interfaces.{IpAddr, is_valid_bind_address, is_wildcard}
use stream_gateway.Interfaces.Laws.{carries, is_valid_bind_address-carries}
use stream_gateway.Examples.Values.{udp_input, udp_output, home, lan, eth0, print_ip}

from_str-to_string_example :
    Status.from_str (Status.to_string StreamStatus.reconnecting) ≡ some StreamStatus.reconnecting
from_str-to_string_example = from_str-to_string StreamStatus.reconnecting

analysis_from_str-to_string_example :
    Analysis.from_str (Analysis.to_string AnalysisType.tr101) ≡ some AnalysisType.tr101
analysis_from_str-to_string_example = analysis_from_str-to_string AnalysisType.tr101

not_automatic : Inputs.is_automatic_port (CreateInputRequest.udp udp_input) ≡ false
unfolding Inputs.is_automatic_port automatic should_use_auto_port_input
not_automatic = refl

extract_assigned_port-is_automatic_port_example :
    (port : ℕ) × (Inputs.extract_assigned_port (CreateInputRequest.udp udp_input) ≡ some port)
    × (Inputs.get_bind_port (CreateInputRequest.udp udp_input) ≡ port)
    × (port ≢ 0)
extract_assigned_port-is_automatic_port_example =
    extract_assigned_port-is_automatic_port udp_input refl refl not_automatic

is_automatic_port_lem_example :
    (Outputs.is_automatic_port (CreateOutputRequest.udp udp_output) ≡ true) ↔ (
      (udp_output.remote_port ≡ none)
      ⊎ (udp_output.remote_port ≡ some 0)
      ⊎ (udp_output.destination_addr ≡ some (codes "auto"))
      ⊎ ((front : Text) × (udp_output.destination_addr ≡ some (front ++ codes ":0"))))
is_automatic_port_lem_example = is_automatic_port_lem udp_output refl

narrow : is_wildcard home (print_ip lan) ≡ false
unfolding is_wildcard text_eq
narrow = refl

is_valid_bind_address-carries_example :
    (is_valid_bind_address home (print_ip lan) ≡ true)
    ↔ ((a : IpAddr) × (home.parse (print_ip lan) ≡ some a) × (carries a (eth0 ∷ []) ≡ true))
is_valid_bind_address-carries_example =
    is_valid_bind_address-carries home (print_ip lan) (eth0 ∷ []) narrow refl

-- Port 10000 is stored, port 10001 cannot be bound.
abbrev rows : List OutputPort
rows = record { id = 1; listen_port = some 10000 } ∷ []

abbrev bindable : ℕ → Bool
bindable port = not (port == 10001)

run_finds : find_available_port bindable rows [] 10000 10004 [] ≡ some 10002
unfolding find_available_port search_ports is_free has_conflict check_port_conflict has_port counted
    output_ports input_ports insert_port contains
run_finds = refl

find_available_port_lem_example :
    ((port : ℕ)
      → find_available_port bindable rows [] 10000 10004 [] ≡ some port
      → (10000 ≤ port)
        × (port < 10004)
        × (is_stored rows [] port ≡ false)
        × (bindable port ≡ true)
        × ((q : ℕ) → 10000 ≤ q → q < port → (is_stored rows [] q || not (bindable q)) ≡ true))
    × (find_available_port bindable rows [] 10000 10004 [] ≡ none
        → (q : ℕ) → 10000 ≤ q
        → q < 10004
        → (is_stored rows [] q || not (bindable q)) ≡ true)
find_available_port_lem_example = find_available_port_lem bindable rows [] 10000 10004 (omega arith)

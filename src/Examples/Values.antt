-- ===== src/Examples/Values.antt =====
-- Values that the examples share.
use stream_gateway.Common.{◌≡◌, refl, Bool, false, Option, none, some, List, [], ◌∷◌, ◌==◌}
use stream_gateway.Common.Texts.{Text, codes}
use stream_gateway.Models.Requests.{UdpInput, CreateInputRequest, UdpOutput}
use stream_gateway.Models.Status.{StreamStatus}
use stream_gateway.Models.Analysis.{AnalysisType}
use stream_gateway.Interfaces.{IpAddr, v4, v6, Interface, Net}
use stream_gateway.Streams.State.{OutputInfo, AnalysisInfo, InputInfo, World}
use stream_gateway.Streams.Spawn.{udp_output_info, format_addr}
use stream_gateway.Control.Outcome.{Platform}

-- A notation of addresses that can be read back: four parts, or one.
abbrev pub print_ip : IpAddr → Text
print_ip (v4 a b c d) = a ∷ b ∷ c ∷ d ∷ []
print_ip (v6 n) = n ∷ []

abbrev pub parse_ip : Text → Option IpAddr
parse_ip [] = none
parse_ip (n ∷ []) = some (v6 n)
parse_ip (a ∷ b ∷ []) = none
parse_ip (a ∷ b ∷ c ∷ []) = none
parse_ip (a ∷ b ∷ c ∷ d ∷ []) = some (v4 a b c d)
parse_ip (a ∷ b ∷ c ∷ d ∷ e ∷ s) = none

abbrev pub multicast_ip : IpAddr → Bool
multicast_ip (v4 a b c d) = a == 239
multicast_ip (v6 n) = false

pub parse_ip-print_ip : (a : IpAddr) → parse_ip (print_ip a) ≡ some a
parse_ip-print_ip (v4 a b c d) = refl
parse_ip-print_ip (v6 n) = refl

abbrev pub lan : IpAddr
lan = v4 192 168 0 1

abbrev pub eth0 : Interface
eth0 = record { name = codes "eth0"; addr = lan; is_loopback = false }

abbrev pub home : Net
home = record {
  parse = parse_ip;
  print = print_ip;
  is_multicast = multicast_ip;
  get_if_addrs = some (eth0 ∷ []);
  parse-print = parse_ip-print_ip;
}

-- Every name is found at itself.
abbrev pub direct : Text → Option (List Text)
direct name = some (name ∷ [])

abbrev pub platform : Platform
platform = record { resolve = direct; net = home }

abbrev pub udp_input : UdpInput
udp_input = record {
  bind_host = none;
  bind_port = some 5000;
  automatic_port = none;
  name = none;
  multicast_group = none;
  source_specific_multicast = none;
  listen_port = none;
}

abbrev pub udp_output : UdpOutput
udp_output = record {
  input_id = 1;
  remote_host = none;
  remote_port = none;
  automatic_port = none;
  name = none;
  bind_host = none;
  multicast_ttl = none;
  multicast_interface = none;
  destination_addr = some (codes "10.0.0.1:6000");
}

-- Input 1, with no output.
abbrev pub bare : InputInfo
bare = record {
  id = 1;
  name = none;
  status = StreamStatus.listening;
  packet_tx = 0;
  task_handle = some 1;
  config = CreateInputRequest.udp udp_input;
  output_tasks = [];
  stopped_outputs = [];
  analysis_tasks = [];
  paused_analysis = [];
  started_at = some 0;
  connected_at = none;
  source_address = none;
  error_message = none;
}

abbrev pub empty_world : World
empty_world = record { streams = []; next = 9; now = 100; effects = [] }

-- Output 7 of input 1, as it was made in the empty world.
abbrev pub sending : OutputInfo
sending = udp_output_info empty_world (format_addr (codes "10.0.0.1") 6000) bare 7 none none none

-- Input 1 with output 7 running.
abbrev pub live : InputInfo
live = record bare { output_tasks = (7, sending) ∷ [] }

abbrev pub live_world : World
live_world = record empty_world { streams = (1, live) ∷ [] }

abbrev pub measuring : AnalysisInfo
measuring = record {
  id = 4;
  analysis_type = AnalysisType.tr101;
  input_id = 1;
  task_handle = 5;
  created_at = 0;
  timeout_minutes = none;
  expires_at = none;
}

-- Input 1 with an analysis running.
abbrev pub analysed : InputInfo
analysed = record live { analysis_tasks = (4, measuring) ∷ [] }

abbrev pub analysed_world : World
analysed_world = record empty_world { streams = (1, analysed) ∷ [] }

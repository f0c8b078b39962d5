-- ===== src/Api/Taken.antt =====
-- What an update is to make of each field of a configuration that src/api.rs merges it into.
use stream_gateway.Common.{◌≡◌, Option, none, some}
use stream_gateway.Models.Requests.{
  SrtCommonConfig, SrtListener, SrtInputConfig, CreateInputRequest, SrtOutputConfig,
  CreateOutputRequest,
}
use stream_gateway.Models.Updates.{
  UpdateSrtListener, UpdateSrtCaller, UpdateSrtInputConfig, UpdateInputRequest,
  UpdateSrtOutputConfig, UpdateOutputRequest,
}

-- The field has the value that the update names, and the current one if it names none.
abbrev pub Taken {ℓ} : {A : Type ℓ} → Option A → Option A → Option A → Type ℓ
Taken none current after = after ≡ current
Taken (some a) current after = after ≡ some a

-- The same for a field that an update can also clear.
abbrev pub Cleared {ℓ} : {A : Type ℓ} → Option (Option A) → Option A → Option A → Type ℓ
Cleared none current after = after ≡ current
Cleared (some none) current after = after ≡ none
Cleared (some (some a)) current after = after ≡ some a

abbrev pub ListenerTakes : UpdateSrtListener → SrtListener → SrtListener → Type 0
ListenerTakes u c d =
    Taken u.bind_host c.bind_host d.bind_host
    × Taken u.bind_port c.bind_port d.bind_port
    × Taken u.latency_ms c.common.latency_ms d.common.latency_ms
    × Cleared u.stream_id c.common.stream_id d.common.stream_id
    × Cleared u.passphrase c.common.passphrase d.common.passphrase
    × Taken u.expected_bitrate_kbps c.common.expected_bitrate_kbps d.common.expected_bitrate_kbps
    × Taken u.fec c.common.fec d.common.fec

abbrev pub CommonTakes : UpdateSrtCaller → SrtCommonConfig → SrtCommonConfig → Type 0
CommonTakes u c d =
    Taken u.latency_ms c.latency_ms d.latency_ms
    × Cleared u.stream_id c.stream_id d.stream_id
    × Cleared u.passphrase c.passphrase d.passphrase
    × Taken u.expected_bitrate_kbps c.expected_bitrate_kbps d.expected_bitrate_kbps
    × Taken u.fec c.fec d.fec

-- An SRT update of the mode of the configuration.
abbrev pub SrtInputTakes : UpdateSrtInputConfig → SrtInputConfig → SrtInputConfig → Type 0
SrtInputTakes (UpdateSrtInputConfig.listener u) (SrtInputConfig.listener c)
      (SrtInputConfig.listener d) =
    ListenerTakes u c d
SrtInputTakes (UpdateSrtInputConfig.caller u) (SrtInputConfig.caller c) (SrtInputConfig.caller d) =
    Taken u.remote_host c.remote_host d.remote_host
    × Taken u.remote_port c.remote_port d.remote_port
    × Taken u.bind_host c.bind_host d.bind_host
    × CommonTakes u c.common d.common
SrtInputTakes _ _ _ = ⊥

abbrev pub SrtOutputTakes : UpdateSrtOutputConfig → SrtOutputConfig → SrtOutputConfig → Type 0
SrtOutputTakes (UpdateSrtOutputConfig.listener u) (SrtOutputConfig.listener c)
      (SrtOutputConfig.listener d) =
    ListenerTakes u c d
SrtOutputTakes (UpdateSrtOutputConfig.caller u) (SrtOutputConfig.caller c)
      (SrtOutputConfig.caller d) =
    Taken u.remote_host c.remote_host d.remote_host
    × Taken u.remote_port c.remote_port d.remote_port
    × Taken u.bind_host c.bind_host d.bind_host
    × CommonTakes u c.common d.common
SrtOutputTakes _ _ _ = ⊥

-- Update, current configuration and result are of one kind, and each field that an update can name is
-- taken.
abbrev pub InputTakes : UpdateInputRequest → CreateInputRequest → CreateInputRequest → Type 0
InputTakes (UpdateInputRequest.udp u) (CreateInputRequest.udp c) (CreateInputRequest.udp d) =
    Taken u.bind_host c.bind_host d.bind_host
    × Taken u.bind_port c.bind_port d.bind_port
    × Taken u.name c.name d.name
    × Taken u.multicast_group c.multicast_group d.multicast_group
    × Taken u.source_specific_multicast c.source_specific_multicast d.source_specific_multicast
InputTakes (UpdateInputRequest.srt new_name u) (CreateInputRequest.srt name c)
      (CreateInputRequest.srt after d) =
    Taken new_name name after × SrtInputTakes u c d
InputTakes (UpdateInputRequest.spts new_name new_fill) (CreateInputRequest.spts c)
      (CreateInputRequest.spts d) =
    Taken new_name c.name d.name
    × Taken new_fill c.fill_with_nulls d.fill_with_nulls
    × (d.source_input_id ≡ c.source_input_id)
    × (d.program_number ≡ c.program_number)
InputTakes _ _ _ = ⊥

abbrev pub OutputTakes : UpdateOutputRequest → CreateOutputRequest → CreateOutputRequest → Type 0
OutputTakes (UpdateOutputRequest.udp u) (CreateOutputRequest.udp c) (CreateOutputRequest.udp d) =
    Taken u.remote_host c.remote_host d.remote_host
    × Taken u.remote_port c.remote_port d.remote_port
    × Taken u.bind_host c.bind_host d.bind_host
    × Taken u.multicast_ttl c.multicast_ttl d.multicast_ttl
    × Taken u.multicast_interface c.multicast_interface d.multicast_interface
    × Taken u.name c.name d.name
    × (d.input_id ≡ c.input_id)
OutputTakes (UpdateOutputRequest.srt new_name u) (CreateOutputRequest.srt input_id name c)
      (CreateOutputRequest.srt after_id after d) =
    Taken new_name name after × SrtOutputTakes u c d × (after_id ≡ input_id)
OutputTakes _ _ _ = ⊥

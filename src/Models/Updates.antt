-- ===== src/Models/Updates.antt =====
-- The update requests of src/models.rs. `passphrase` and `stream_id` tell a field that is not given
-- (`none`) from one that is to be cleared (`some none`).
use stream_gateway.Common.{ℕ, Bool, Option, none, some, ℤ, if◌then◌else◌}
use stream_gateway.Common.Texts.{Text, is_empty}
use stream_gateway.Models.Requests.{FecConfig}

-- `deserialize_optional_string`, on the optional text that the JSON holds.
unfoldable pub deserialize_optional_string : Option Text → Option (Option Text)
deserialize_optional_string none = none
deserialize_optional_string (some s) = if is_empty s then some none else some (some s)

pub record UpdateUdpInput : Type 0 where
  pub bind_host : Option Text
  pub bind_port : Option ℕ
  pub name : Option Text
  pub multicast_group : Option Text
  pub source_specific_multicast : Option Text

-- The fields of the `Listener` variants of `UpdateSrtInputConfig` and `UpdateSrtOutputConfig`.
pub record UpdateSrtListener : Type 0 where
  pub bind_host : Option Text
  pub bind_port : Option ℕ
  pub latency_ms : Option ℤ
  pub passphrase : Option (Option Text)
  pub stream_id : Option (Option Text)
  pub expected_bitrate_kbps : Option ℕ
  pub fec : Option FecConfig

-- The fields of the `Caller` variants of `UpdateSrtInputConfig` and `UpdateSrtOutputConfig`.
pub record UpdateSrtCaller : Type 0 where
  pub remote_host : Option Text
  pub remote_port : Option ℕ
  pub bind_host : Option Text
  pub latency_ms : Option ℤ
  pub passphrase : Option (Option Text)
  pub stream_id : Option (Option Text)
  pub expected_bitrate_kbps : Option ℕ
  pub fec : Option FecConfig

pub data UpdateSrtInputConfig : Type 0 where
  listener : UpdateSrtListener → UpdateSrtInputConfig
  caller : UpdateSrtCaller → UpdateSrtInputConfig

pub data UpdateInputRequest : Type 0 where
  udp : UpdateUdpInput → UpdateInputRequest
  srt : (name : Option Text) → (config : UpdateSrtInputConfig) → UpdateInputRequest
  spts : (name : Option Text) → (fill_with_nulls : Option Bool) → UpdateInputRequest

pub record UpdateUdpOutput : Type 0 where
  pub remote_host : Option Text
  pub remote_port : Option ℕ
  pub bind_host : Option Text
  pub multicast_ttl : Option ℕ
  pub multicast_interface : Option Text
  pub name : Option Text

pub data UpdateSrtOutputConfig : Type 0 where
  listener : UpdateSrtListener → UpdateSrtOutputConfig
  caller : UpdateSrtCaller → UpdateSrtOutputConfig

pub data UpdateOutputRequest : Type 0 where
  udp : UpdateUdpOutput → UpdateOutputRequest
  srt : (name : Option Text) → (config : UpdateSrtOutputConfig) → UpdateOutputRequest

-- ===== src/Models/Requests.antt =====
-- The configuration types of src/models.rs. A variant with named fields is a constructor over a
-- record. `u16`, `u32` and `u8` are numbers, `i32` is `ℤ`, row ids are numbers.
use stream_gateway.Common.{ℕ, Bool, Option, ℤ}
use stream_gateway.Common.Texts.{Text}

pub record FecConfig : Type 0 where
  pub cols : ℕ
  pub rows : ℕ
  pub arq_level : Option ℕ
  pub staircase : Bool

pub record SrtCommonConfig : Type 0 where
  pub latency_ms : Option ℤ
  pub stream_id : Option Text
  pub passphrase : Option Text
  pub expected_bitrate_kbps : Option ℕ
  pub fec : Option FecConfig

pub record UdpInput : Type 0 where
  pub bind_host : Option Text
  pub bind_port : Option ℕ
  pub automatic_port : Option Bool
  pub name : Option Text
  pub multicast_group : Option Text
  pub source_specific_multicast : Option Text
  pub listen_port : Option ℕ

-- The fields of `SrtInputConfig::Listener`, which are those of `SrtOutputConfig::Listener` too.
pub record SrtListener : Type 0 where
  pub bind_host : Option Text
  pub bind_port : Option ℕ
  pub automatic_port : Option Bool
  pub common : SrtCommonConfig
  pub listen_port : Option ℕ

pub record SrtInputCaller : Type 0 where
  pub remote_host : Option Text
  pub remote_port : Option ℕ
  pub common : SrtCommonConfig
  pub bind_host : Option Text
  pub target_addr : Option Text

pub data SrtInputConfig : Type 0 where
  listener : SrtListener → SrtInputConfig
  caller : SrtInputCaller → SrtInputConfig

pub record SptsInput : Type 0 where
  pub source_input_id : ℕ
  pub program_number : ℕ
  pub fill_with_nulls : Option Bool
  pub name : Option Text

pub data CreateInputRequest : Type 0 where
  udp : UdpInput → CreateInputRequest
  srt : (name : Option Text) → (config : SrtInputConfig) → CreateInputRequest
  spts : SptsInput → CreateInputRequest

pub record UdpOutput : Type 0 where
  pub input_id : ℕ
  pub remote_host : Option Text
  pub remote_port : Option ℕ
  pub automatic_port : Option Bool
  pub name : Option Text
  pub bind_host : Option Text
  pub multicast_ttl : Option ℕ
  pub multicast_interface : Option Text
  pub destination_addr : Option Text

pub record SrtOutputCaller : Type 0 where
  pub remote_host : Option Text
  pub remote_port : Option ℕ
  pub common : SrtCommonConfig
  pub bind_host : Option Text
  pub destination_addr : Option Text

pub data SrtOutputConfig : Type 0 where
  listener : SrtListener → SrtOutputConfig
  caller : SrtOutputCaller → SrtOutputConfig

pub data CreateOutputRequest : Type 0 where
  udp : UdpOutput → CreateOutputRequest
  srt : (input_id : ℕ) → (name : Option Text) → (config : SrtOutputConfig) → CreateOutputRequest

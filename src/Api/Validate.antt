-- ===== src/Api/Validate.antt =====
-- The validation functions of src/api.rs. An error is a value that names its message.
use stream_gateway.Common.{ℕ, Bool, true, not, Option, none, some, ◌==◌, if◌then◌else◌}
use stream_gateway.Common.Texts.{Text, is_empty}
use stream_gateway.Models.Requests.{
  UdpInput, SrtInputConfig, CreateInputRequest, UdpOutput, SrtOutputConfig, CreateOutputRequest,
}
use stream_gateway.Interfaces.{Net, is_wildcard, is_valid_bind_address}

pub data ValidationError : Type 0 where
  invalid_ip_format invalid_bind_format invalid_source_format : Text → ValidationError
  not_multicast bind_address_not_found : Text → ValidationError
  source_without_group ttl_out_of_range : ValidationError

pub data Checked : Type 0 where
  ok : Checked
  err : ValidationError → Checked

-- `f()?; rest`
infixl 5 ◌>>◌
abbrev pub ◌>>◌ : Checked → Checked → Checked
ok >> rest = rest
err e >> rest = err e

-- `if let Some(addr) = field { if !addr.is_empty() { check(addr)?; } }`
unfoldable pub if_given : Option Text → (Text → Checked) → Checked
if_given none check = ok
if_given (some addr) check = if not (is_empty addr) then check addr else ok

module _ (net : Net) where
  unfoldable pub validate_multicast_group : Text → Checked
  validate_multicast_group group_addr = elim (net.parse group_addr) [
    | none ↦ err (invalid_ip_format group_addr)
    | some addr ↦ if not (net.is_multicast addr) then err (not_multicast group_addr) else ok
  ]

  unfoldable pub validate_bind_address : Text → Checked
  unfolding is_wildcard
  validate_bind_address bind_addr =
      if is_wildcard net bind_addr then ok else elim (net.parse bind_addr) [
        | none ↦ err (invalid_bind_format bind_addr)
        | some addr ↦
            if not (is_valid_bind_address net bind_addr)
            then err (bind_address_not_found bind_addr)
            else ok
      ]

  unfoldable pub validate_source : Text → Checked
  validate_source source_addr = elim (net.parse source_addr) [
    | none ↦ err (invalid_source_format source_addr)
    | some addr ↦ ok
  ]

  -- `multicast_group.is_none() || multicast_group.as_ref().unwrap().is_empty()`
  unfoldable pub no_group : Option Text → Bool
  no_group none = true
  no_group (some group) = is_empty group

  unfoldable pub validate_udp_input : UdpInput → Checked
  unfolding if_given validate_multicast_group no_group validate_source
  validate_udp_input c =
      if_given c.bind_host validate_bind_address
      >> if_given c.multicast_group validate_multicast_group
      >> if_given c.source_specific_multicast (λ source_addr.
        if no_group c.multicast_group
        then err source_without_group
        else validate_source source_addr)

  unfoldable pub validate_udp_input_config : CreateInputRequest → Checked
  unfolding validate_udp_input
  validate_udp_input_config (CreateInputRequest.udp c) = validate_udp_input c
  validate_udp_input_config _ = ok

  unfoldable pub validate_srt_config : CreateInputRequest → Checked
  unfolding if_given
  validate_srt_config (CreateInputRequest.srt name (SrtInputConfig.listener c)) =
      if_given c.bind_host validate_bind_address
  validate_srt_config (CreateInputRequest.srt name (SrtInputConfig.caller c)) =
      if_given c.bind_host validate_bind_address
  validate_srt_config _ = ok

  unfoldable pub validate_ttl : Option ℕ → Checked
  validate_ttl none = ok
  validate_ttl (some ttl) = if ttl == 0 then err ttl_out_of_range else ok

  -- The look at a multicast destination at the end of the source's function has no effect.
  unfoldable pub validate_udp_output : UdpOutput → Checked
  unfolding if_given validate_ttl
  validate_udp_output c =
      if_given c.bind_host validate_bind_address
      >> if_given c.multicast_interface validate_bind_address
      >> validate_ttl c.multicast_ttl

  unfoldable pub validate_udp_output_config : CreateOutputRequest → Checked
  unfolding validate_udp_output
  validate_udp_output_config (CreateOutputRequest.udp c) = validate_udp_output c
  validate_udp_output_config _ = ok

  unfoldable pub validate_srt_output_config : CreateOutputRequest → Checked
  unfolding if_given
  validate_srt_output_config (CreateOutputRequest.srt id name (SrtOutputConfig.listener c)) =
      if_given c.bind_host validate_bind_address
  validate_srt_output_config (CreateOutputRequest.srt id name (SrtOutputConfig.caller c)) =
      if_given c.bind_host validate_bind_address
  validate_srt_output_config _ = ok

-- ===== src/Api/ValidateLaws.antt =====
-- What a UDP input that passes validation is like.
use stream_gateway.Common.{
  ◌≡◌, refl, inl, inr, true, false, Option, none, some, arith, Option-cases, if◌then◌else◌,
}
use stream_gateway.Common.Texts.{Text, is_empty}
use stream_gateway.Models.Requests.{UdpInput, CreateInputRequest}
use stream_gateway.Interfaces.{IpAddr, Net, is_valid_bind_address}
use stream_gateway.Api.Validate.{
  Checked, ok, err, source_without_group, ◌>>◌, if_given, validate_bind_address,
  validate_multicast_group, validate_source, no_group, validate_udp_input,
  validate_udp_input_config,
}

-- The field is given, and is not the empty text.
abbrev pub Given : Option Text → Text → Type 0
Given field s = (field ≡ some s) × (is_empty s ≡ false)

seq-ok : (a b : Checked) → (a >> b) ≡ ok → (a ≡ ok) × (b ≡ ok)
seq-ok ok b h = (refl, h)
seq-ok (err e) b h = cc

if_given-ok :
    (field : Option Text) (check : Text → Checked) (s : Text)
    → if_given field check ≡ ok
    → Given field s
    → check s ≡ ok
unfolding if_given
if_given-ok none check s h g = cc
if_given-ok (some t) check s h g = ground arith

no_group-given :
    (net : Net) (group : Option Text)
    → no_group net group ≡ false
    → (g : Text) × (group ≡ some g) × (is_empty g ≡ false)
unfolding no_group
no_group-given net none h = cc
no_group-given net (some g) h = (g, refl, h)

module _ (net : Net) where
  validate_multicast_group-ok :
      (s : Text)
      → validate_multicast_group net s ≡ ok
      → (a : IpAddr) × (net.parse s ≡ some a) × (net.is_multicast a ≡ true)
  unfolding validate_multicast_group
  validate_multicast_group-ok s h = elim (Option-cases (net.parse s)) [
    | inl e ↦ ground arith
    | inr (a, e) ↦ (a, e, ground arith)
  ]

  validate_source-ok :
      (group : Option Text) (s : Text)
      → (if no_group net group then err source_without_group else validate_source net s) ≡ ok
      → (no_group net group ≡ false) × ((a : IpAddr) × (net.parse s ≡ some a))
  unfolding validate_source
  validate_source-ok group s h = elim (Option-cases (net.parse s)) [
    | inl e ↦ ground arith
    | inr (a, e) ↦ (ground arith, (a, e))
  ]

  validate_bind_address-valid :
      (s : Text) → validate_bind_address net s ≡ ok → is_valid_bind_address net s ≡ true
  unfolding validate_bind_address is_valid_bind_address
  validate_bind_address-valid s h = ground arith

  -- A UDP input that is accepted binds only to an address of this system or a wildcard, joins only
  -- a multicast group, and names a source address only beside such a group; the source parses.
  pub validate_udp_input_config_sound :
      (c : UdpInput)
      → validate_udp_input_config net (CreateInputRequest.udp c) ≡ ok
      → ((s : Text) → Given c.bind_host s → is_valid_bind_address net s ≡ true)
        × ((s : Text)
            → Given c.multicast_group s
            → (a : IpAddr) × (net.parse s ≡ some a) × (net.is_multicast a ≡ true))
        × ((s : Text)
            → Given c.source_specific_multicast s
            → (g : Text) × (a : IpAddr) × Given c.multicast_group g × (net.parse s ≡ some a))
  unfolding validate_udp_input_config validate_udp_input
  validate_udp_input_config_sound c h =
      let check = λ (t : Text).
        if no_group net c.multicast_group
        then err source_without_group
        else validate_source net t in
      let binds = if_given c.bind_host (validate_bind_address net) in
      let groups = if_given c.multicast_group (validate_multicast_group net) in
      let (front, source) =
        seq-ok (binds >> groups) (if_given c.source_specific_multicast check) h in
      let (bind, group) = seq-ok binds groups front in
      (
        λ s g.
            validate_bind_address-valid s
              (if_given-ok c.bind_host (validate_bind_address net) s bind g),
        λ s g.
            validate_multicast_group-ok s
              (if_given-ok c.multicast_group (validate_multicast_group net) s group g),
        λ s g.
            let (grouped, (a, parsed)) =
              validate_source-ok c.multicast_group s
                (if_given-ok c.source_specific_multicast check s source g) in
            let (t, named, filled) = no_group-given net c.multicast_group grouped in
            (t, a, (named, filled), parsed),
      )

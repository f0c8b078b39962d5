-- ===== src/Interfaces/Laws.antt =====
-- What `is_valid_bind_address` accepts, in terms of the addresses of the interfaces.
use stream_gateway.Common.{
  ◌≡◌, ◌↔◌, refl, sym, ap, ◌∙◌, Bool, true, false, ◌||◌, some, List, [], ◌∷◌, inl, inr,
  Option-cases, some-injective, arith,
}
use stream_gateway.Common.Texts.{Text}
use stream_gateway.Interfaces.{
  IpAddr, ip_eq, Interface, Net, interface_infos, any_addr, is_wildcard, is_valid_bind_address,
}

-- The address is one of an interface.
unfoldable pub carries : IpAddr → List Interface → Bool
carries a [] = false
carries a (interface ∷ interfaces) = ip_eq interface.addr a || carries a interfaces

module _ (net : Net) where
  any_addr-carries :
      (a : IpAddr) (interfaces : List Interface)
      → any_addr net a (interface_infos net interfaces) ≡ carries a interfaces
  unfolding any_addr interface_infos carries
  any_addr-carries a [] = refl
  any_addr-carries a (interface ∷ interfaces) =
      ground (arith, net.parse-print interface.addr, any_addr-carries a interfaces)

  -- While the interfaces can be listed, a bind address that is not one of the two wildcards is accepted
  -- exactly when it parses as an address that an enumerated interface has: to print an interface's
  -- address and parse it again loses nothing.
  pub is_valid_bind_address-carries :
      (s : Text) (interfaces : List Interface)
      → is_wildcard net s ≡ false
      → net.get_if_addrs ≡ some interfaces
      → (is_valid_bind_address net s ≡ true)
        ↔ ((a : IpAddr) × (net.parse s ≡ some a) × (carries a interfaces ≡ true))
  unfolding is_valid_bind_address
  is_valid_bind_address-carries s interfaces w g = elim (Option-cases (net.parse s)) [
    | inl p ↦ (λ h. absurd (ground (arith, w, p, h)), λ (a, q, c). absurd (ground (arith, p, q)))
    | inr (a, p) ↦ (
      λ h. (a, p, sym (parsed a p) ∙ h),
      λ (b, q, c).
          parsed a p ∙ ap (λ (x : IpAddr). carries x interfaces) (some-injective (sym p ∙ q)) ∙ c,
    )
  ]
    where
      parsed :
          (a : IpAddr) → net.parse s ≡ some a → is_valid_bind_address net s ≡ carries a interfaces
      parsed a p = rw w (rw p (rw g (any_addr-carries a interfaces)))

-- ===== src/Models/PortLaws.antt =====
-- Automatic ports of src/models.rs and src/port_utils.rs, against the ports that the accessors give.
use mathlib.Core.List.{reverse, reverse_aux, append-nil}
use stream_gateway.Common.Texts.{Text, codes, text_eq, text_eq_iff}
use stream_gateway.Common.{
  [], ◌∷◌, ◌++◌, ◌∙◌, sym, ap, ℕ, ◌≡◌, ◌≢◌, ◌↔◌, ◌⊎◌, inl, inr, Bool-cases, refl, true, false,
  Option, none, some, unwrap_or, arith,
}
use stream_gateway.Models.Requests.{UdpInput, UdpOutput, CreateInputRequest, CreateOutputRequest}
use stream_gateway.Models.Addresses.{nonzero, automatic}
use stream_gateway.PortUtils.Auto.{
  starts_with, ends_with, should_use_auto_port_input, should_use_auto_port_output, legacy_auto,
  ports_auto,
}
use stream_gateway.Models.Inputs
use stream_gateway.Models.Outputs

-- A UDP input without the automatic_port flag and without the legacy port that is not automatic has
-- an assigned port, which is not 0 and which it binds to.
pub extract_assigned_port-is_automatic_port :
    (c : UdpInput)
    → c.automatic_port ≡ none
    → c.listen_port ≡ none
    → Inputs.is_automatic_port (CreateInputRequest.udp c) ≡ false
    → (port : ℕ) × (Inputs.extract_assigned_port (CreateInputRequest.udp c) ≡ some port)
      × (Inputs.get_bind_port (CreateInputRequest.udp c) ≡ port)
      × (port ≢ 0)
unfolding Inputs.is_automatic_port Inputs.extract_assigned_port Inputs.get_bind_port automatic
    should_use_auto_port_input nonzero
extract_assigned_port-is_automatic_port c flag legacy h =
    rw legacy (go c.bind_port (rw (flag, legacy, automatic) at h))
  where
    go :
        (bind_port : Option ℕ)
        → should_use_auto_port_input bind_port none ≡ false
        → (port : ℕ) × (nonzero bind_port ≡ some port) × (unwrap_or bind_port 0 ≡ port) × (port ≢ 0)
    go none e = absurd (ground arith)
    go (some port) e = (port, ground arith, refl, ground arith)

reverse_twice : (l r s : Text) → reverse_aux (reverse_aux l r) s ≡ reverse_aux r (l ++ s)
reverse_twice [] r s = refl
reverse_twice (a ∷ l) r s = reverse_twice l (a ∷ r) s

reverse-reverse : (s : Text) → reverse (reverse s) ≡ s
reverse-reverse s = reverse_twice s [] [] ∙ append-nil s

reverse_append : (a b r : Text) → reverse_aux (a ++ b) r ≡ reverse_aux b (reverse_aux a r)
reverse_append [] b r = refl
reverse_append (x ∷ a) b r = reverse_append a b (x ∷ r)

reverse_split : (l r : Text) → reverse_aux l r ≡ reverse l ++ r
reverse_split l r =
    ap (λ (k : Text). reverse_aux k r) (sym (reverse-reverse l)) ∙ reverse_twice (reverse l) [] r

-- The text is some text before `:0`.
EndsZero : Text → Type 0
EndsZero s = (front : Text) × (s ≡ front ++ codes ":0")

ends_with-EndsZero : (s : Text) → ends_with s (codes ":0") ≡ true → EndsZero s
unfolding ends_with starts_with EndsZero
ends_with-EndsZero s h = go (reverse s) refl h
  where
    last :
        (x y : ℕ) (rest : Text)
        → starts_with (x ∷ y ∷ rest) (reverse (codes ":0")) ≡ true
        → y ∷ x ∷ [] ≡ codes ":0"
    last x y rest k = ground (arith, k)

    go : (r : Text) → reverse s ≡ r → starts_with r (reverse (codes ":0")) ≡ true → EndsZero s
    go [] e k = absurd (ground (arith, k))
    go (x ∷ []) e k = absurd (ground (arith, k))
    go (x ∷ y ∷ rest) e k = (
      reverse rest,
      sym (reverse-reverse s)
          ∙ ap (λ (t : Text). reverse t) e
          ∙ ap (λ (t : Text). reverse_aux rest t) (last x y rest k)
          ∙ reverse_split rest (codes ":0"),
    )

EndsZero-ends_with : (s : Text) → EndsZero s → ends_with s (codes ":0") ≡ true
unfolding ends_with starts_with EndsZero
EndsZero-ends_with s (front, e) =
    ap (λ (t : Text). starts_with (reverse t) (reverse (codes ":0"))) e
    ∙ ap (λ (t : Text). starts_with t (reverse (codes ":0"))) (reverse_append front (codes ":0") [])
    ∙ ground arith

-- The legacy address asks for an automatic port.
legacy_auto-Asks :
    (addr : Text) → (legacy_auto (some addr) ≡ true) ↔ ((addr ≡ codes "auto") ⊎ EndsZero addr)
unfolding legacy_auto EndsZero
legacy_auto-Asks addr = (
  λ h. elim (Bool-cases (text_eq addr (codes "auto"))) [
    | inl auto ↦ inl ((text_eq_iff addr (codes "auto")).0 auto)
    | inr other ↦ elim (Bool-cases (ends_with addr (codes ":0"))) [
      | inl zero_port ↦ inr (ends_with-EndsZero addr zero_port)
      | inr neither ↦
          inr ([], (text_eq_iff addr (codes ":0")).0 (ground (arith, h, other, neither)))
    ]
  ],
  λ asks. elim asks [
    | inl auto ↦ ground (arith, (text_eq_iff addr (codes "auto")).1 auto)
    | inr zero_port ↦ ground (arith, EndsZero-ends_with addr zero_port)
  ],
)

-- What asks for an automatic port, of the remote port and the legacy address.
AsksAuto : Option ℕ → Option Text → Type 0
AsksAuto remote_port addr =
    (remote_port ≡ none)
    ⊎ (remote_port ≡ some 0)
    ⊎ (addr ≡ some (codes "auto"))
    ⊎ ((front : Text) × (addr ≡ some (front ++ codes ":0")))

auto-Asks :
    (remote_port : Option ℕ) (addr : Option Text)
    → should_use_auto_port_output remote_port none addr ≡ true
    → AsksAuto remote_port addr
unfolding should_use_auto_port_output ports_auto legacy_auto EndsZero AsksAuto
auto-Asks none addr h = inl refl
auto-Asks (some port) none h = inr (inl (ground (arith, h)))
auto-Asks (some port) (some addr) h = elim (Bool-cases (legacy_auto (some addr))) [
  | inl legacy ↦ elim ((legacy_auto-Asks addr).0 legacy) [
    | inl auto ↦ inr (inr (inl (ap (λ (t : Text). some t) auto)))
    | inr (front, e) ↦ inr (inr (inr (front, ap (λ (t : Text). some t) e)))
  ]
  | inr new ↦ inr (inl (ground (arith, h, new)))
]

Asks-auto :
    (remote_port : Option ℕ) (addr : Option Text)
    → AsksAuto remote_port addr
    → should_use_auto_port_output remote_port none addr ≡ true
unfolding should_use_auto_port_output ports_auto EndsZero AsksAuto
Asks-auto remote_port addr (inl e) = ground (arith, e)
Asks-auto remote_port addr (inr (inl e)) = ground (arith, e)
Asks-auto remote_port addr (inr (inr (inl e))) =
    let legacy = ap legacy_auto e ∙ (legacy_auto-Asks (codes "auto")).1 (inl refl) in
    ground (arith, legacy)
Asks-auto remote_port addr (inr (inr (inr (front, e)))) =
    let legacy =
      ap legacy_auto e ∙ (legacy_auto-Asks (front ++ codes ":0")).1 (inr (front, refl)) in
    ground (arith, legacy)

-- A UDP output without the automatic_port flag gets an automatic port exactly when it has no
-- remote_port, when that is 0, or when its legacy destination_addr is `auto` or ends in `:0`; so one
-- that names its port only in the legacy address gets another.
pub is_automatic_port_lem :
    (c : UdpOutput)
    → c.automatic_port ≡ none
    → (Outputs.is_automatic_port (CreateOutputRequest.udp c) ≡ true) ↔ (
        (c.remote_port ≡ none)
        ⊎ (c.remote_port ≡ some 0)
        ⊎ (c.destination_addr ≡ some (codes "auto"))
        ⊎ ((front : Text) × (c.destination_addr ≡ some (front ++ codes ":0"))))
unfolding Outputs.is_automatic_port automatic AsksAuto
is_automatic_port_lem c flag =
    rw flag (auto-Asks c.remote_port c.destination_addr, Asks-auto c.remote_port c.destination_addr)

-- ===== src/PortUtils/FindLaws.antt =====
-- What `find_available_port` of src/port_utils.rs promises of the port that it finds.
use stream_gateway.Common.{
  ℕ, zero, suc, ◌+◌, ◌-◌, ◌≤◌, ◌<◌, ◌%◌, ◌≡◌, refl, sym, ◌∙◌, inl, inr, subst, Bool, true, false,
  not, ◌&&◌, ◌||◌, Option, none, some, List, [], ◌∷◌, contains, Bool-cases, Option-cases, ◌==◌,
  arith,
}
use stream_gateway.PortUtils.Find.{
  OutputPort, InputPorts, insert_port, output_ports, input_ports, counted, has_port,
  check_port_conflict, has_conflict, is_free, search_ports, find_available_port,
}

-- A port from `port` on is `port`, or one after it.
at_first :
    (free : ℕ → Bool) (port q : ℕ)
    → free port ≡ false
    → port ≤ q
    → (suc port ≤ q → free q ≡ false)
    → free q ≡ false
at_first free port q no_port a later = elim (Bool-cases (port == q)) [
  | inl same ↦ subst (λ (k : ℕ). free k ≡ false) (ground (arith, same)) no_port
  | inr other ↦ later (ground (arith, other, a))
]

search_ports-some :
    (free : ℕ → Bool) (port count found : ℕ)
    → search_ports free port count ≡ some found
    → (port ≤ found)
      × (found < port + count)
      × (free found ≡ true)
      × ((q : ℕ) → port ≤ q → q < found → free q ≡ false)
unfolding search_ports
search_ports-some free port zero found h = absurd (ground arith)
search_ports-some free port (suc count) found h = elim (Bool-cases (free port)) [
  | inl taken ↦
      let same = hit taken in
      (
        omega (arith, same),
        omega (arith, same),
        subst (λ (k : ℕ). free k ≡ true) same taken,
        λ q a b. absurd (omega (arith, same)),
      )
  | inr no_port ↦
      let (low, high, ok, before) =
        search_ports-some free (suc port) count found (missed no_port) in
      (omega arith, omega arith, ok, λ q a b. at_first free port q no_port a (λ c. before q c b))
]
  where
    hit : free port ≡ true → port ≡ found
    hit taken = ground (arith, taken, h)

    missed : free port ≡ false → search_ports free (suc port) count ≡ some found
    missed no_port = ground (arith, no_port, h)

search_ports-none :
    (free : ℕ → Bool) (port count : ℕ)
    → search_ports free port count ≡ none
    → (q : ℕ) → port ≤ q
    → q < port + count
    → free q ≡ false
unfolding search_ports
search_ports-none free port zero h q a b = absurd (omega arith)
search_ports-none free port (suc count) h q a b = elim (Bool-cases (free port)) [
  | inl taken ↦ absurd (ground (arith, taken, h))
  | inr no_port ↦
      at_first free port q no_port a
        (λ c. search_ports-none free (suc port) count (missed no_port) q c (omega arith))
]
  where
    missed : free port ≡ false → search_ports free (suc port) count ≡ none
    missed no_port = ground (arith, no_port, h)

-- The port is the stored one, read as a `u16`.
abbrev pub names : ℕ → Option ℕ → Bool
names port none = false
names port (some stored_port) = stored_port % 65536 == port

-- Some stored output or input has the port: an output its `listen_port`, an input one of its two.
unfoldable pub any_output : ℕ → List OutputPort → Bool
any_output port [] = false
any_output port (row ∷ rows) = names port row.listen_port || any_output port rows

unfoldable pub any_input : ℕ → List InputPorts → Bool
any_input port [] = false
any_input port (row ∷ rows) =
    names port row.listen_port || names port row.bind_port || any_input port rows

abbrev pub is_stored : List OutputPort → List InputPorts → ℕ → Bool
is_stored outputs inputs port = any_output port outputs || any_input port inputs

contains-insert_port :
    (o : Option ℕ) (ports : List ℕ) (port : ℕ)
    → contains (insert_port o ports) port ≡ (names port o || contains ports port)
unfolding insert_port contains
contains-insert_port none ports port = refl
contains-insert_port (some p) ports port = ground arith

contains-output_ports :
    (rows : List OutputPort) (ports : List ℕ) (port : ℕ)
    → contains (output_ports rows ports) port ≡ (any_output port rows || contains ports port)
unfolding output_ports any_output
contains-output_ports [] ports port = refl
contains-output_ports (row ∷ rows) ports port = ground (
  arith,
  contains-output_ports rows (insert_port row.listen_port ports) port,
  contains-insert_port row.listen_port ports port,
)

contains-input_ports :
    (rows : List InputPorts) (ports : List ℕ) (port : ℕ)
    → contains (input_ports rows ports) port ≡ (any_input port rows || contains ports port)
unfolding input_ports any_input
contains-input_ports [] ports port = refl
contains-input_ports (row ∷ rows) ports port =
    let one = insert_port row.listen_port ports in
    ground (
      arith,
      contains-input_ports rows (insert_port row.bind_port one) port,
      contains-insert_port row.bind_port one port,
      contains-insert_port row.listen_port ports port,
    )

-- A conflict of a port of 16 bits is with a port that is stored.
check_port_conflict-stored :
    (rows : List OutputPort) (port : ℕ)
    → port < 65536
    → any_output port rows ≡ false
    → check_port_conflict rows port none ≡ false
unfolding check_port_conflict any_output has_port counted
check_port_conflict-stored [] port b h = refl
check_port_conflict-stored (row ∷ rows) port b h = elim (Option-cases row.listen_port) [
  | inl e ↦ ground (arith, e, h, check_port_conflict-stored rows port b)
  | inr (stored_port, e) ↦ elim (Bool-cases (stored_port == port)) [
    | inl same ↦ absurd (ground (arith, e, h, same, b))
    | inr other ↦ ground (arith, e, h, other, check_port_conflict-stored rows port b)
  ]
]

is_free-stored :
    (is_port_available : ℕ → Bool) (outputs : List OutputPort) (inputs : List InputPorts) (port : ℕ)
    → port < 65536
    → is_free is_port_available outputs [] (input_ports inputs (output_ports outputs [])) port
      ≡ (not (is_stored outputs inputs port) && is_port_available port)
unfolding is_free has_conflict contains
is_free-stored is_port_available outputs inputs port b = ground (
  arith,
  contains-input_ports inputs (output_ports outputs []) port,
  contains-output_ports outputs [] port,
  check_port_conflict-stored outputs port b,
)

-- With no id excluded, and a range of ports of 16 bits: a port that is found lies in the range, no
-- stored output has it as its listen_port and no stored input as its listen_port or bind_port, and it
-- can be bound; every port below it in the range is stored or cannot be bound. When none is found,
-- every port of the range is stored or cannot be bound.
pub find_available_port_lem :
    (is_port_available : ℕ → Bool) (outputs : List OutputPort) (inputs : List InputPorts)
    (first last : ℕ)
    → last ≤ 65536
    → ((port : ℕ)
        → find_available_port is_port_available outputs inputs first last [] ≡ some port
        → (first ≤ port)
          × (port < last)
          × (is_stored outputs inputs port ≡ false)
          × (is_port_available port ≡ true)
          × ((q : ℕ)
              → first ≤ q
              → q < port
              → (is_stored outputs inputs q || not (is_port_available q)) ≡ true))
      × (find_available_port is_port_available outputs inputs first last [] ≡ none
          → (q : ℕ) → first ≤ q
          → q < last
          → (is_stored outputs inputs q || not (is_port_available q)) ≡ true)
unfolding find_available_port
find_available_port_lem is_port_available outputs inputs first last bound =
    let free =
      is_free is_port_available outputs [] (input_ports inputs (output_ports outputs [])) in
    let free_of = is_free-stored is_port_available outputs inputs in
    (
      λ port h.
          let (low, high, ok, before) = search_ports-some free first (last - first) port h in
          let found = sym (free_of port (omega arith)) ∙ ok in
          (
            low,
            omega arith,
            ground (arith, found),
            ground (arith, found),
            λ q a b. refused q (sym (free_of q (omega arith)) ∙ before q a b),
          ),
      λ h q a b. refused q (
          sym (free_of q (omega arith))
          ∙ search_ports-none free first (last - first) h q a (omega arith)),
    )
  where
    refused :
        (q : ℕ)
        → (not (is_stored outputs inputs q) && is_port_available q) ≡ false
        → (is_stored outputs inputs q || not (is_port_available q)) ≡ true
    refused q h = ground (arith, h)

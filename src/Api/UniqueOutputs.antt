-- ===== src/Api/UniqueOutputs.antt =====
-- The conflicts that `create_output` of src/api.rs looks for.
use stream_gateway.Common.{
  ℕ, ◌≡◌, ◌≢◌, ◌⊎◌, refl, sym, ap, ◌∙◌, ◌==◌, Bool, true, false, Option, none, some, [], ◌∷◌, inl,
  inr, Bool-cases, Option-cases, some-injective, ==_refl, arith, subst,
}
use stream_gateway.Common.Texts.{Text, text_eq_refl}
use stream_gateway.Common.Maps.{Map, lookup, insert, lookup-insert}
use stream_gateway.Models.Requests.{CreateOutputRequest}
use stream_gateway.PortUtils.Find.{check_port_conflict, counted, has_port}
use stream_gateway.Streams.State.{InputInfo}
use stream_gateway.Database.Tables.{
  Database, OutputRow, save_output_to_db, any_destination, is_destination, check_output_exists,
  count_outputs, count_ports, output_port_rows, port_conflict,
}
use stream_gateway.Database.Laws.{save_output-known, save_output-unknown}
use stream_gateway.Api.Gateway.{Gateway, Site}
use stream_gateway.Api.Names.{output_destination, output_input_id}
use stream_gateway.Api.CreateOutput.{
  new_output_row, add_output, save_output, port_taken, in_conflict, make_output, create_output,
}
use stream_gateway.Api.CreateOutputLaws.{Saves, create_output-cases}

-- Two outputs that are in each other's way: of one input to one destination, or on one port.
abbrev Clash : OutputRow → OutputRow → Type 0
Clash one other =
    ((d : Text) × (one.input_id ≡ other.input_id)
      × (one.destination ≡ some d)
      × (other.destination ≡ some d))
    ⊎ ((port : ℕ) × (one.listen_port ≡ some port) × (other.listen_port ≡ some port))

-- No two rows clash.
unfoldable pub Unique : Map OutputRow → Type 0
unfolding lookup
Unique rows =
    (id other_id : ℕ) (row other : OutputRow)
    → lookup id rows ≡ some row
    → lookup other_id rows ≡ some other
    → Clash row other
    → id ≡ other_id

any_destination-lookup :
    (input_id : ℕ) (d : Text) (rows : Map OutputRow) (id : ℕ) (row : OutputRow)
    → any_destination input_id d rows ≡ false
    → lookup id rows ≡ some row
    → row.input_id ≡ input_id
    → row.destination ≢ some d
unfolding any_destination is_destination lookup
any_destination-lookup input_id d [] id row h l i e = absurd (ground (arith, l))
any_destination-lookup input_id d ((key, held) ∷ rows) id row h l i e =
    elim (Bool-cases (key == id)) [
      | inl hit ↦ ground (arith, h, same_input (taken hit), same_destination (taken hit))
      | inr miss ↦
          any_destination-lookup input_id d rows id row (ground (arith, h))
            (ground (arith, l, miss)) i e
    ]
  where
    taken : (key == id) ≡ true → held ≡ row
    taken hit = ground (arith, l, hit)

    same_input : held ≡ row → (held.input_id == input_id) ≡ true
    same_input same =
        ap (λ (k : ℕ). k == input_id) (ap (λ (r : OutputRow). r.input_id) same ∙ i)
        ∙ ==_refl input_id

    same_destination : held ≡ row → is_destination d held.destination ≡ true
    same_destination same =
        ap (is_destination d) (ap (λ (r : OutputRow). r.destination) same ∙ e) ∙ text_eq_refl d

check_port_conflict-lookup :
    (port : ℕ) (rows : Map OutputRow) (id : ℕ) (row : OutputRow)
    → check_port_conflict (output_port_rows rows) port none ≡ false
    → lookup id rows ≡ some row
    → row.listen_port ≢ some port
unfolding check_port_conflict output_port_rows lookup counted has_port
check_port_conflict-lookup port [] id row h l e = absurd (ground (arith, l))
check_port_conflict-lookup port ((key, held) ∷ rows) id row h l e = elim (Bool-cases (key == id)) [
  | inl hit ↦ ground (arith, h, same_port (taken hit))
  | inr miss ↦
      check_port_conflict-lookup port rows id row (ground (arith, h)) (ground (arith, l, miss)) e
]
  where
    taken : (key == id) ≡ true → held ≡ row
    taken hit = ground (arith, l, hit)

    same_port : held ≡ row → has_port held.listen_port port ≡ true
    same_port same =
        ap (λ p. has_port p port) (ap (λ (r : OutputRow). r.listen_port) same ∙ e) ∙ ==_refl port

-- A row that nothing is in the way of is added.
Unique-insert :
    (id : ℕ) (row : OutputRow) (rows : Map OutputRow)
    → ((other_id : ℕ) (other : OutputRow) → lookup other_id rows ≡ some other → ¬ Clash row other)
    → Unique rows
    → Unique (insert id row rows)
unfolding Unique
Unique-insert id row rows clear unique i j one other l m clash = elim (Bool-cases (id == i)) [
  | inl first ↦ elim (Bool-cases (id == j)) [
    | inl second ↦ ground (arith, first, second)
    | inr second ↦ absurd (
        clear j other (kept j other m second)
          (subst (λ r. Clash r other) (sym (taken i one l first)) clash))
  ]
  | inr first ↦ elim (Bool-cases (id == j)) [
    | inl second ↦ absurd (
        clear i one (kept i one l first)
          (turn one row (subst (λ r. Clash one r) (sym (taken j other m second)) clash)))
    | inr second ↦ unique i j one other (kept i one l first) (kept j other m second) clash
  ]
]
  where
    turn : (one other : OutputRow) → Clash one other → Clash other one
    turn one other (inl (d, i, a, b)) = inl (d, sym i, b, a)
    turn one other (inr (port, a, b)) = inr (port, b, a)

    taken :
        (key : ℕ) (held : OutputRow)
        → lookup key (insert id row rows) ≡ some held
        → (id == key) ≡ true
        → row ≡ held
    taken key held l hit = ground (arith, l, hit, lookup-insert id key row rows)

    kept :
        (key : ℕ) (held : OutputRow)
        → lookup key (insert id row rows) ≡ some held
        → (id == key) ≡ false
        → lookup key rows ≡ some held
    kept key held l miss = ground (arith, l, miss, lookup-insert id key row rows)

check_output_exists-false :
    (site : Site) (db : Database) (input_id : ℕ) (d : Text)
    → check_output_exists site.answers input_id d db ≡ some false
    → any_destination input_id d db.outputs ≡ false
unfolding check_output_exists
check_output_exists-false site db input_id d e = elim (Bool-cases (site.answers count_outputs)) [
  | inl h ↦ some-injective (sym (asked h) ∙ e)
  | inr h ↦ absurd (ground (arith, sym (broken h) ∙ e))
]
  where
    asked :
        site.answers count_outputs ≡ true
        → check_output_exists site.answers input_id d db
          ≡ some (any_destination input_id d db.outputs)
    asked h = rw (h, check_output_exists) refl

    broken :
        site.answers count_outputs ≡ false → check_output_exists site.answers input_id d db ≡ none
    broken h = rw (h, check_output_exists) refl

port_conflict-false :
    (site : Site) (db : Database) (port : ℕ)
    → port_conflict site.answers port none db ≡ some false
    → check_port_conflict (output_port_rows db.outputs) port none ≡ false
unfolding port_conflict
port_conflict-false site db port e = elim (Bool-cases (site.answers count_ports)) [
  | inl h ↦ some-injective (sym (asked h) ∙ e)
  | inr h ↦ absurd (ground (arith, sym (broken h) ∙ e))
]
  where
    asked :
        site.answers count_ports ≡ true
        → port_conflict site.answers port none db
          ≡ some (check_port_conflict (output_port_rows db.outputs) port none)
    asked h = rw (h, port_conflict) refl

    broken : site.answers count_ports ≡ false → port_conflict site.answers port none db ≡ none
    broken h = rw (h, port_conflict) refl

-- Both queries say that nothing is in the way.
in_conflict-false :
    (site : Site) (db : Database) (req : CreateOutputRequest)
    → in_conflict site db req ≡ some false
    → (check_output_exists site.answers (output_input_id req) (output_destination req).0 db
        ≡ some false)
      × (port_taken site db (output_destination req).1 ≡ some false)
unfolding in_conflict
in_conflict-false site db req e = go asked refl
  where
    asked : Option Bool
    asked = check_output_exists site.answers (output_input_id req) (output_destination req).0 db

    none_then : asked ≡ none → in_conflict site db req ≡ none
    none_then f = rw (f, in_conflict) refl

    true_then : asked ≡ some true → in_conflict site db req ≡ some true
    true_then f = rw (f, in_conflict) refl

    false_then :
        asked ≡ some false → in_conflict site db req ≡ port_taken site db (output_destination req).1
    false_then f = rw (f, in_conflict) refl

    go :
        (found : Option Bool)
        → asked ≡ found
        → (asked ≡ some false) × (port_taken site db (output_destination req).1 ≡ some false)
    go none f = absurd (ground (arith, sym (none_then f) ∙ e))
    go (some true) f = absurd (ground (arith, sym (true_then f) ∙ e))
    go (some false) f = (f, sym (false_then f) ∙ e)

-- What `in_conflict` lets pass clashes with no row.
in_conflict-clear :
    (site : Site) (db : Database) (req : CreateOutputRequest)
    → in_conflict site db req ≡ some false
    → (other_id : ℕ) (other : OutputRow) → lookup other_id db.outputs ≡ some other
    → ¬ Clash (new_output_row site.json req) other
unfolding new_output_row port_taken
in_conflict-clear site db req e other_id other l (inl (d, i, a, b)) =
    any_destination-lookup (output_input_id req) (output_destination req).0 db.outputs other_id
      other
      (check_output_exists-false site db (output_input_id req) (output_destination req).0
        (in_conflict-false site db req e).0)
      l (sym i) (b ∙ sym a)
in_conflict-clear site db req e other_id other l (inr (port, a, b)) =
    check_port_conflict-lookup port db.outputs other_id other
      (port_conflict-false site db port
        (sym (ap (port_taken site db) a) ∙ (in_conflict-false site db req e).1))
      l b

-- What follows the save does not touch the tables.
add_output_database :
    (site : Site) (g : Gateway) (input : InputInfo) (req : CreateOutputRequest) (id : ℕ)
    (port : Option ℕ)
    → (add_output site g input req id port).0.database ≡ g.database
unfolding add_output
add_output_database site g input req id port =
    elim (Option-cases (make_output site g.world req (output_destination req).0 input id).1) [
      | inl e ↦ rw (e, add_output) refl
      | inr (o, e) ↦ rw (e, add_output) refl
    ]

save_output-Unique :
    (site : Site) (g : Gateway) (input : InputInfo) (req : CreateOutputRequest) (port : Option ℕ)
    → in_conflict site g.database req ≡ some false
    → Unique g.database.outputs
    → Unique (save_output site g input req port).0.database.outputs
unfolding save_output
save_output-Unique site g input req port clear unique = elim (Option-cases saved.1) [
  | inl e ↦ rw (e, save_output) (rw (save_output-unknown site.answers row g.database e) unique)
  | inr (id, e) ↦
      rw (e, save_output)
        (rw (add_output_database site (record g { database = saved.0 }) input req id port) (
          rw ((save_output-known site.answers row g.database id e).1) (
            Unique-insert g.database.next_output row g.database.outputs
              (in_conflict-clear site g.database req clear) unique)))
]
  where
    row : OutputRow
    row = new_output_row site.json req

    saved : Database × Option ℕ
    saved = save_output_to_db site.answers row g.database

-- If no two rows of outputs are of one input to one destination or on one port, then none are after
-- `create_output`, whatever it answers.
pub create_output-Unique :
    (site : Site) (g : Gateway) (req : CreateOutputRequest)
    → Unique g.database.outputs
    → Unique (create_output site g req).0.database.outputs
unfolding Saves
create_output-Unique site g req unique = elim (create_output-cases site g req) [
  | inl same ↦ rw same unique
  | inr (input, final, port, found, clear, e) ↦
      rw e (save_output-Unique site g input final port clear unique)
]

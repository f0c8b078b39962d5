-- ===== src/Api/Stored.antt =====
-- The shared state of src/main.rs against the tables of src/database.rs.
use stream_gateway.Common.{ℕ, ◌≡◌, ◌==◌, true, false, some, inl, inr, Bool-cases, arith, subst}
use stream_gateway.Common.Maps.{Map, lookup, contains_key, lookup-insert}
use stream_gateway.Models.Requests.{CreateOutputRequest}
use stream_gateway.Streams.State.{OutputInfo, InputInfo, World}
use stream_gateway.Control.Outputs.{store}
use stream_gateway.Control.OutputLaws.{Apart}
use stream_gateway.Control.Moves.{Held, Move, Moves}
use stream_gateway.Database.Tables.{Database}
use stream_gateway.Database.Laws.{Row, Fresh, Keeps}
use stream_gateway.Api.Gateway.{Gateway}

-- The input has a row, each of its outputs has a row that names it, and no output is both running
-- and stopped.
unfoldable pub Entry : Database → ℕ → Map OutputInfo → Map CreateOutputRequest → Type 0
unfolding contains_key Held Row Apart
Entry db input_id tasks stopped =
    (contains_key input_id db.inputs ≡ true)
    × ((id : ℕ) → Held tasks stopped id → Row db input_id id)
    × Apart tasks stopped

-- Every entry of the shared state is backed by rows, and no key was given out twice.
unfoldable pub Stored : Gateway → Type 0
unfolding Fresh Entry
Stored g =
    Fresh g.database
    × ((input_id : ℕ) (info : InputInfo)
        → lookup input_id g.world.streams ≡ some info
        → Entry g.database input_id info.output_tasks info.stopped_outputs)

pub Entry-Keeps :
    (db after : Database) (input_id : ℕ) (tasks : Map OutputInfo)
    (stopped : Map CreateOutputRequest)
    → Fresh db
    → Keeps db after
    → Entry db input_id tasks stopped
    → Entry after input_id tasks stopped
unfolding Entry Keeps
Entry-Keeps db after input_id tasks stopped fresh keeps entry =
    (keeps.1 input_id entry.0, λ id h. keeps.2 input_id id fresh (entry.1 id h), entry.2)

-- Outputs only moved, and rows were only added or changed.
pub Stored-Moves :
    (w v : World) (db after : Database)
    → Moves w v
    → Keeps db after
    → Stored (record { world = w; database = db })
    → Stored (record { world = v; database = after })
unfolding Stored Moves Move Keeps Entry
Stored-Moves w v db after moves keeps stored = (
  keeps.0 stored.0,
  λ input_id info l.
      let (before, e, move) = moves input_id info l in
      let entry = stored.1 input_id before e in
      Entry-Keeps db after input_id info.output_tasks info.stopped_outputs stored.0 keeps
        (entry.0, (λ id h. entry.1 id (move.0 id h)), move.1 entry.2),
)

-- An entry that is backed by rows is written.
pub Stored-store :
    (w v : World) (db after : Database) (input_id : ℕ) (info : InputInfo)
    → v.streams ≡ w.streams
    → Keeps db after
    → Entry after input_id info.output_tasks info.stopped_outputs
    → Stored (record { world = w; database = db })
    → Stored (record { world = store input_id info v; database = after })
unfolding Stored Keeps
Stored-store w v db after input_id info same keeps entry stored = (
  keeps.0 stored.0,
  λ j other l. elim (Bool-cases (input_id == j)) [
    | inl hit ↦
        subst (λ (key : ℕ). Entry after key other.output_tasks other.stopped_outputs) (ground arith)
          (subst (λ (i : InputInfo). Entry after input_id i.output_tasks i.stopped_outputs)
            (taken j other l hit) entry)
    | inr miss ↦
        Entry-Keeps db after j other.output_tasks other.stopped_outputs stored.0 keeps
          (stored.1 j other (kept j other l miss))
  ],
)
  where
    taken :
        (j : ℕ) (other : InputInfo)
        → lookup j (store input_id info v).streams ≡ some other
        → (input_id == j) ≡ true
        → info ≡ other
    taken j other l hit = ground (arith, hit, l, lookup-insert input_id j info v.streams)

    kept :
        (j : ℕ) (other : InputInfo)
        → lookup j (store input_id info v).streams ≡ some other
        → (input_id == j) ≡ false
        → lookup j w.streams ≡ some other
    kept j other l miss = ground (arith, miss, l, same, lookup-insert input_id j info v.streams)

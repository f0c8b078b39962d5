-- ===== src/Api/StoredOutput.antt =====
-- `create_output` of src/api.rs: the tables hold the output that it adds to the shared state.
use stream_gateway.Common.{
  ℕ, ◌≡◌, refl, ◌==◌, Option, none, some, inl, inr, Bool-cases, Option-cases, arith, subst,
}
use stream_gateway.Common.Texts.{Text}
use stream_gateway.Common.Maps.{
  Map, lookup, insert, contains_key, lookup-insert, lookup-insert_self,
}
use stream_gateway.Models.Requests.{CreateOutputRequest}
use stream_gateway.Streams.State.{OutputInfo, InputInfo, World}
use stream_gateway.Streams.Spawn.{create_srt_output}
use stream_gateway.Control.OutputLaws.{Apart, create_udp_output_streams}
use stream_gateway.Control.Moves.{Held, Moves-refl, Moves-same}
use stream_gateway.Database.Tables.{Database, OutputRow, save_output_to_db}
use stream_gateway.Database.Laws.{Row, Fresh, Keeps, save_output-Keeps, save_output-known}
use stream_gateway.Api.Names.{output_input_id, output_destination}
use stream_gateway.Api.Gateway.{Gateway, Site}
use stream_gateway.Api.CreateOutput.{
  make_output, new_output_row, add_output, save_output, create_output,
}
use stream_gateway.Api.CreateOutputLaws.{Saves, create_output-cases}
use stream_gateway.Api.Stored.{Entry, Stored, Stored-store, Stored-Moves}

-- The output is added to the tasks under a key that had no row.
Entry-add :
    (db after : Database) (input_id id : ℕ) (o : OutputInfo) (tasks : Map OutputInfo)
    (stopped : Map CreateOutputRequest)
    → Fresh db
    → Keeps db after
    → lookup id db.outputs ≡ none
    → Row after input_id id
    → Entry db input_id tasks stopped
    → Entry after input_id (insert id o tasks) stopped
unfolding Entry Keeps Held contains_key Apart Row
Entry-add db after input_id id o tasks stopped fresh keeps free row entry = (
  keeps.1 input_id entry.0,
  λ key h. elim (Bool-cases (id == key)) [
    | inl hit ↦ subst (λ k. Row after input_id k) (ground arith) row
    | inr miss ↦
        keeps.2 input_id key fresh
          (entry.1 key (ground (arith, h, miss, lookup-insert id key o tasks)))
  ],
  λ key. elim (Bool-cases (id == key)) [
    | inl hit ↦ elim (Option-cases (lookup key stopped)) [
      | inl none_there ↦ inr none_there
      | inr (config, e) ↦
          let (held, l, same) = entry.1 key (ground (arith, e)) in
          absurd (ground (arith, hit, l, free))
    ]
    | inr miss ↦ ground (arith, miss, entry.2 key, lookup-insert id key o tasks)
  ],
)

make_output_streams :
    (site : Site) (w : World) (req : CreateOutputRequest) (destination : Text) (input : InputInfo)
    (id : ℕ)
    → (make_output site w req destination input id).0.streams ≡ w.streams
unfolding make_output create_srt_output
make_output_streams site w (CreateOutputRequest.udp c) destination input id =
    create_udp_output_streams site.platform.resolve w destination input id _ _ _
make_output_streams site w (CreateOutputRequest.srt input_id name config) destination input id =
    refl

add_output-Stored :
    (site : Site) (w : World) (db after : Database) (input : InputInfo) (req : CreateOutputRequest)
    (id : ℕ) (port : Option ℕ)
    → lookup (output_input_id req) w.streams ≡ some input
    → Keeps db after
    → lookup id db.outputs ≡ none
    → Row after (output_input_id req) id
    → Stored (record { world = w; database = db })
    → Stored (add_output site (record { world = w; database = after }) input req id port).0
unfolding add_output Stored
add_output-Stored site w db after input req id port found keeps free row stored = go made.1 refl
  where
    made : World × Option OutputInfo
    made = make_output site w req (output_destination req).0 input id

    same : made.0.streams ≡ w.streams
    same = make_output_streams site w req (output_destination req).0 input id

    go :
        (o : Option OutputInfo)
        → made.1 ≡ o
        → Stored (add_output site (record { world = w; database = after }) input req id port).0
    go none e =
        rw (e, add_output) (Stored-Moves w made.0 db after (Moves-same w made.0 same) keeps stored)
    go (some o) e =
        rw (e, add_output)
          (Stored-store w made.0 db after (output_input_id req)
            (record input { output_tasks = insert id o input.output_tasks }) same keeps
            (Entry-add db after (output_input_id req) id o input.output_tasks input.stopped_outputs
              stored.0 keeps free row (stored.1 (output_input_id req) input found))
            stored)

save_output-Stored :
    (site : Site) (g : Gateway) (input : InputInfo) (req : CreateOutputRequest) (port : Option ℕ)
    → lookup (output_input_id req) g.world.streams ≡ some input
    → Stored g
    → Stored (save_output site g input req port).0
unfolding save_output Stored Fresh Row new_output_row
save_output-Stored site g input req port found stored = go saved.1 refl
  where
    row : OutputRow
    row = new_output_row site.json req

    saved : Database × Option ℕ
    saved = save_output_to_db site.answers row g.database

    keeps : Keeps g.database saved.0
    keeps = save_output-Keeps site.answers row g.database

    free : (id : ℕ) → id ≡ g.database.next_output → lookup id g.database.outputs ≡ none
    free id e = stored.0 id (omega (arith, e))

    written : (id : ℕ) → saved.1 ≡ some id → lookup id saved.0.outputs ≡ some row
    written id e =
        let (same, rows) = save_output-known site.answers row g.database id e in
        rw (same, rows) (lookup-insert_self g.database.next_output row g.database.outputs)

    go : (key : Option ℕ) → saved.1 ≡ key → Stored (save_output site g input req port).0
    go none e =
        rw (e, save_output)
          (Stored-Moves g.world g.world g.database saved.0 (Moves-refl g.world) keeps stored)
    go (some id) e =
        rw (e, save_output)
          (add_output-Stored site g.world g.database saved.0 input req id port found keeps
            (free id (save_output-known site.answers row g.database id e).0)
            (row, written id e, refl) stored)

pub create_output-Stored :
    (site : Site) (g : Gateway) (req : CreateOutputRequest)
    → Stored g
    → Stored (create_output site g req).0
unfolding Saves
create_output-Stored site g req stored = elim (create_output-cases site g req) [
  | inl same ↦ rw same stored
  | inr (input, final, port, found, clear, e) ↦
      rw e (save_output-Stored site g input final port found stored)
]

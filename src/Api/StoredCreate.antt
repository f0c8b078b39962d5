-- ===== src/Api/StoredCreate.antt =====
-- `create_input` and `create_output` of src/api.rs: the tables hold what they add to the shared state.
use stream_gateway.Common.{
  ℕ, ◌≡◌, refl, true, Option, none, some, [], inl, inr, Option-cases, arith,
}
use stream_gateway.Common.Texts.{Text, codes}
use stream_gateway.Common.Maps.{lookup, contains_key}
use stream_gateway.Models.Requests.{CreateInputRequest}
use stream_gateway.Streams.State.{World, draw}
use stream_gateway.Streams.Spawn.{spawn_udp_input_with_stats, spawn_with_stats, spawn_spts_input}
use stream_gateway.Control.OutputLaws.{Apart-none}
use stream_gateway.Control.Moves.{Held, Moves-refl}
use stream_gateway.Database.Tables.{Database, save_input_to_db, update_input_status_in_db}
use stream_gateway.Database.Laws.{
  Keeps, Keeps-trans, save_input-Keeps, save_input-known, input_status-Keeps,
}
use stream_gateway.Api.Gateway.{Gateway, Site, Spawned, spawned, refused, spawn_input}
use stream_gateway.Api.CreateInput.{
  error_input_info, add_input, save_input, validate_input, final_input, create_input,
}
use stream_gateway.Api.Validate.{Checked, ok, err}
use stream_gateway.Api.Stored.{Entry, Stored, Stored-store, Stored-Moves}
use stream_gateway.Api.Names.{input_name}

-- An entry that has just been made has the id and no outputs.
abbrev pub Bare : ℕ → Spawned → Type 0
Bare id (refused error) = Unit
Bare id (spawned info) = (info.id ≡ id) × (info.output_tasks ≡ []) × (info.stopped_outputs ≡ [])

pub spawn_input-Bare :
    (w : World) (req : CreateInputRequest) (id : ℕ) (name : Option Text)
    → ((spawn_input w req id name).0.streams ≡ w.streams) × Bare id (spawn_input w req id name).1
unfolding spawn_input spawn_udp_input_with_stats spawn_with_stats spawn_spts_input
spawn_input-Bare w (CreateInputRequest.udp c) id name = (refl, (refl, refl, refl))
spawn_input-Bare w (CreateInputRequest.srt n config) id name = (refl, (refl, refl, refl))
spawn_input-Bare w (CreateInputRequest.spts c) id name =
    elim (Option-cases (lookup c.source_input_id w.streams)) [
      | inl e ↦ rw (e, spawn_input) (refl, tt)
      | inr (source, e) ↦ rw (e, spawn_input) (refl, (refl, refl, refl))
    ]

bare-Entry : (db : Database) (id : ℕ) → contains_key id db.inputs ≡ true → Entry db id [] []
unfolding Entry Held contains_key lookup
bare-Entry db id h = (h, (λ key held. absurd (ground (arith, held))), Apart-none [])

add_input-Stored :
    (site : Site) (w : World) (before db : Database) (req : CreateInputRequest) (id : ℕ)
    (name : Option Text) (port : Option ℕ)
    → Keeps before db
    → contains_key id db.inputs ≡ true
    → Stored (record { world = w; database = before })
    → Stored (add_input site (record { world = w; database = db }) req id name port).0
unfolding add_input Keeps
add_input-Stored site w before db req id name port keeps known stored =
    go (spawn_input w req id name).1 refl (spawn_input-Bare w req id name).1
  where
    v : World
    v = (spawn_input w req id name).0

    same : v.streams ≡ w.streams
    same = (spawn_input-Bare w req id name).0

    after : Database
    after = (update_input_status_in_db site.answers id (codes "error") db).0

    marked : Keeps db after
    marked = input_status-Keeps site.answers id (codes "error") db

    go :
        (made : Spawned)
        → (spawn_input w req id name).1 ≡ made
        → Bare id made
        → Stored (add_input site (record { world = w; database = db }) req id name port).0
    go (spawned info) e (i, tasks, stopped) =
        rw (e, add_input)
          (Stored-store w v before db info.id info same keeps
            (rw (i, tasks, stopped) (bare-Entry db id known)) stored)
    go (refused error) e bare =
        rw (e, add_input)
          (Stored-store w (draw v) before after id (error_input_info v req id name error) same
            (Keeps-trans before db after keeps marked) (bare-Entry after id (marked.1 id known))
            stored)

save_input-Stored :
    (site : Site) (g : Gateway) (req : CreateInputRequest) (name : Option Text) (port : Option ℕ)
    → Stored g
    → Stored (save_input site g req name port).0
unfolding save_input Keeps
save_input-Stored site g req name port stored = go saved.1 refl
  where
    saved : Database × Option ℕ
    saved = save_input_to_db site.answers site.json name req g.database

    keeps : Keeps g.database saved.0
    keeps = save_input-Keeps site.answers site.json name req g.database

    go : (key : Option ℕ) → saved.1 ≡ key → Stored (save_input site g req name port).0
    go none e =
        rw (e, save_input)
          (Stored-Moves g.world g.world g.database saved.0 (Moves-refl g.world) keeps stored)
    go (some id) e =
        rw (e, save_input)
          (add_input-Stored site g.world g.database saved.0 req id name port keeps
            (save_input-known site.answers site.json name req g.database id e) stored)

pub create_input-Stored :
    (site : Site) (g : Gateway) (req : CreateInputRequest)
    → Stored g
    → Stored (create_input site g req).0
unfolding create_input
create_input-Stored site g req stored = checked (validate_input site req) refl
  where
    final :
        (r : Option (CreateInputRequest × Option ℕ))
        → final_input site g.database req ≡ r
        → validate_input site req ≡ ok
        → Stored (create_input site g req).0
    final none e f = rw (f, create_input) (rw (e, create_input) stored)
    final (some r) e f =
        rw (f, create_input)
          (rw (e, create_input) (save_input-Stored site g r.0 (input_name req) r.1 stored))

    checked : (c : Checked) → validate_input site req ≡ c → Stored (create_input site g req).0
    checked ok e = final (final_input site g.database req) refl e
    checked (err x) e = rw (e, create_input) stored

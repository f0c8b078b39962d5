-- ===== src/Api/StoredUpdate.antt =====
-- The endpoints of src/api.rs that start, stop and update streams: the tables hold what they leave of
-- the shared state.
use stream_gateway.Common.{
  ℕ, ◌≡◌, refl, Bool, Option, none, some, inl, inr, Bool-cases, Option-cases,
}
use stream_gateway.Common.Texts.{Text, codes}
use stream_gateway.Common.Maps.{lookup}
use stream_gateway.Models.Requests.{CreateInputRequest}
use stream_gateway.Models.Updates.{UpdateInputRequest}
use stream_gateway.Streams.State.{World}
use stream_gateway.Control.Outcome.{Outcome, done, failed, deadlocked, panicked, Platform}
use stream_gateway.Control.Inputs.{start_input, stop_input}
use stream_gateway.Control.Outputs.{start_output, stop_output}
use stream_gateway.Control.Moves.{Move-refl, Moves, Moves-refl, Moves-trans, Moves-store}
use stream_gateway.Control.Atomic.{stop_input-Moves, start_output-Moves, stop_output-Moves}
use stream_gateway.Control.Interleaved.{start_input-Moves}
use stream_gateway.Database.Tables.{
  Database, InputRow, update_input_status_in_db, update_output_status_in_db, get_input_by_id,
  get_input_id_for_output, update_input_in_db,
}
use stream_gateway.Database.Laws.{
  Keeps, Keeps-refl, Keeps-trans, input_status-Keeps, output_status-Keeps, update_input-Keeps,
}
use stream_gateway.Api.Gateway.{Gateway, Site, Response}
use stream_gateway.Api.Endpoints
use stream_gateway.Api.UpdateInput
use stream_gateway.Api.CreateInput.{validate_input}
use stream_gateway.Api.Names.{get_name_from_request}
use stream_gateway.Api.Merge
use stream_gateway.Api.Validate
use stream_gateway.Api.Stored.{Stored, Stored-Moves}

record_input-Stored :
    (site : Site) (w : World) (before db : Database) (input_id : ℕ) (status : Text)
    (answer : Response) (result : World × Outcome (Unit {0}))
    → Moves w result.0
    → Keeps before db
    → Stored (record { world = w; database = before })
    → Stored
        (Endpoints.record_input site
          (record { world = w; database = db })
          input_id
          status
          answer
          result).0
unfolding Endpoints.record_input
record_input-Stored site w before db input_id status answer (v, done u) moves keeps stored =
    Stored-Moves w v before (update_input_status_in_db site.answers input_id status db).0 moves
      (Keeps-trans before db _ keeps (input_status-Keeps site.answers input_id status db)) stored
record_input-Stored site w before db input_id status answer (v, failed e) moves keeps stored =
    Stored-Moves w v before db moves keeps stored
record_input-Stored site w before db input_id status answer (v, deadlocked) moves keeps stored =
    Stored-Moves w v before db moves keeps stored
record_input-Stored site w before db input_id status answer (v, panicked) moves keeps stored =
    Stored-Moves w v before db moves keeps stored

pub record_output-Stored :
    (site : Site) (base w : World) (db : Database) (output_id : ℕ) (status : Text)
    (answer : Response) (result : World × Outcome (Unit {0}))
    → Moves w result.0
    → Stored (record { world = w; database = db })
    → Stored
        (Endpoints.record_output site
          (record { world = base; database = db })
          output_id
          status
          answer
          result).0
unfolding Endpoints.record_output
record_output-Stored site base w db output_id status answer (v, done u) moves stored =
    Stored-Moves w v db (update_output_status_in_db site.answers output_id status db).0 moves
      (output_status-Keeps site.answers output_id status db) stored
record_output-Stored site base w db output_id status answer (v, failed e) moves stored =
    Stored-Moves w v db db moves (Keeps-refl db) stored
record_output-Stored site base w db output_id status answer (v, deadlocked) moves stored =
    Stored-Moves w v db db moves (Keeps-refl db) stored
record_output-Stored site base w db output_id status answer (v, panicked) moves stored =
    Stored-Moves w v db db moves (Keeps-refl db) stored

pub stop_input_endpoint-Stored :
    (site : Site) (g : Gateway) (input_id : ℕ)
    → Stored g
    → Stored (Endpoints.stop_input_endpoint site g input_id).0
unfolding Endpoints.stop_input_endpoint
stop_input_endpoint-Stored site g input_id stored =
    record_input-Stored site g.world g.database g.database input_id (codes "stopped") _
      (stop_input g.world input_id) (stop_input-Moves g.world input_id) (Keeps-refl g.database)
      stored

pub start_output_endpoint-Stored :
    (site : Site) (g : Gateway) (output_id : ℕ)
    → Stored g
    → Stored (Endpoints.start_output_endpoint site g output_id).0
unfolding Endpoints.start_output_endpoint
start_output_endpoint-Stored site g output_id stored =
    elim (Option-cases (get_input_id_for_output site.answers output_id g.database)) [
      | inl e ↦ rw (e, Endpoints.start_output_endpoint) stored
      | inr (input_id, e) ↦
          rw (e, Endpoints.start_output_endpoint)
            (record_output-Stored site g.world g.world g.database output_id _ _
              (start_output site.platform g.world input_id output_id)
              (start_output-Moves site.platform g.world input_id output_id) stored)
    ]

pub stop_output_endpoint-Stored :
    (site : Site) (g : Gateway) (output_id : ℕ)
    → Stored g
    → Stored (Endpoints.stop_output_endpoint site g output_id).0
unfolding Endpoints.stop_output_endpoint
stop_output_endpoint-Stored site g output_id stored =
    elim (Option-cases (get_input_id_for_output site.answers output_id g.database)) [
      | inl e ↦ rw (e, Endpoints.stop_output_endpoint) stored
      | inr (input_id, e) ↦
          rw (e, Endpoints.stop_output_endpoint)
            (record_output-Stored site g.world g.world g.database output_id _ _
              (stop_output g.world input_id output_id)
              (stop_output-Moves g.world input_id output_id) stored)
    ]

-- What other tasks do in between only moves outputs.
module _ (meanwhile : World → World) (moves : (u : World) → Moves u (meanwhile u)) where
  pub start_input_endpoint-Stored :
      (site : Site) (g : Gateway) (input_id : ℕ)
      → Stored g
      → Stored (Endpoints.start_input_endpoint meanwhile site g input_id).0
  unfolding Endpoints.start_input_endpoint
  start_input_endpoint-Stored site g input_id stored =
      record_input-Stored site g.world g.database g.database input_id _ _
        (start_input meanwhile site.platform g.world input_id)
        (start_input-Moves meanwhile moves site.platform g.world input_id) (Keeps-refl g.database)
        stored

  stop_active-Moves :
      (w : World) (input_id : ℕ) → Moves w (UpdateInput.stop_active meanwhile w input_id).0
  unfolding UpdateInput.stop_active
  stop_active-Moves w input_id = elim (Bool-cases (UpdateInput.is_input_active w input_id)) [
    | inl e ↦
        rw (e, UpdateInput.stop_active)
          (Moves-trans w (meanwhile w) _ (moves w) (stop_input-Moves (meanwhile w) input_id))
    | inr e ↦ rw (e, UpdateInput.stop_active) (moves w)
  ]

  set_config-Moves :
      (w : World) (input_id : ℕ) (config : CreateInputRequest)
      → Moves w (UpdateInput.set_config input_id config w)
  unfolding UpdateInput.set_config
  set_config-Moves w input_id config = elim (Option-cases (lookup input_id w.streams)) [
    | inl e ↦ rw (e, UpdateInput.set_config) (Moves-refl w)
    | inr (info, e) ↦
        rw (e, UpdateInput.set_config)
          (Moves-store w w input_id info (record info { config = config }) e refl
            (Move-refl info.output_tasks info.stopped_outputs))
  ]

  restart_input-Moves :
      (p : Platform) (w : World) (input_id : ℕ) (config : CreateInputRequest)
      → Moves w (UpdateInput.restart_input meanwhile p w input_id config).0
  unfolding UpdateInput.restart_input
  restart_input-Moves p w input_id config = go stopped.1 refl
    where
      stopped : World × Outcome (Unit {0})
      stopped = UpdateInput.stop_active meanwhile w input_id

      ready : World
      ready = UpdateInput.set_config input_id config (meanwhile stopped.0)

      to_ready : Moves w (meanwhile ready)
      to_ready =
          Moves-trans w ready (meanwhile ready)
            (Moves-trans w (meanwhile stopped.0) ready
              (Moves-trans w stopped.0 (meanwhile stopped.0) (stop_active-Moves w input_id)
                (moves stopped.0))
              (set_config-Moves (meanwhile stopped.0) input_id config))
            (moves ready)

      go :
          (outcome : Outcome (Unit {0}))
          → stopped.1 ≡ outcome
          → Moves w (UpdateInput.restart_input meanwhile p w input_id config).0
      go (failed x) e = rw (e, UpdateInput.restart_input) (stop_active-Moves w input_id)
      go deadlocked e = rw (e, UpdateInput.restart_input) (stop_active-Moves w input_id)
      go panicked e = rw (e, UpdateInput.restart_input) (stop_active-Moves w input_id)
      go (done u) e =
          rw (e, UpdateInput.restart_input)
            (Moves-trans w (meanwhile ready) _ to_ready
              (start_input-Moves meanwhile moves p (meanwhile ready) input_id))

  apply_input_update-Stored :
      (site : Site) (g : Gateway) (input_id : ℕ) (config : CreateInputRequest)
      → Stored g
      → Stored (UpdateInput.apply_input_update meanwhile site g input_id config).0
  unfolding UpdateInput.apply_input_update
  apply_input_update-Stored site g input_id config stored = elim (Bool-cases written.1) [
    | inl e ↦
        rw (e, UpdateInput.apply_input_update)
          (record_input-Stored site g.world g.database written.0 input_id (codes "listening") _
            (UpdateInput.restart_input meanwhile site.platform g.world input_id config)
            (restart_input-Moves site.platform g.world input_id config) keeps stored)
    | inr e ↦
        rw (e, UpdateInput.apply_input_update)
          (Stored-Moves g.world g.world g.database written.0 (Moves-refl g.world) keeps stored)
  ]
    where
      written : Database × Bool
      written =
          update_input_in_db site.answers input_id (get_name_from_request config)
            (site.json.print_input config) g.database

      keeps : Keeps g.database written.0
      keeps =
          update_input-Keeps site.answers input_id (get_name_from_request config)
            (site.json.print_input config) g.database

  update_input_row-Stored :
      (site : Site) (g : Gateway) (input_id : ℕ) (req : UpdateInputRequest) (row : InputRow)
      → Stored g
      → Stored (UpdateInput.update_input_row meanwhile site g input_id req row).0
  unfolding UpdateInput.update_input_row
  update_input_row-Stored site g input_id req row stored =
      elim (Option-cases (site.json.parse_input row.config_json)) [
        | inl e ↦ rw (e, UpdateInput.update_input_row) stored
        | inr (current, e) ↦ merged current e (Merge.merge_input_config current req) refl
      ]
    where
      checked :
          (current config : CreateInputRequest)
          → site.json.parse_input row.config_json ≡ some current
          → Merge.merge_input_config current req ≡ Merge.ok config
          → (c : Validate.Checked) → validate_input site config ≡ c
          → Stored (UpdateInput.update_input_row meanwhile site g input_id req row).0
      checked current config e f (Validate.err x) h =
          rw (e, UpdateInput.update_input_row) (rw f (rw h stored))
      checked current config e f Validate.ok h =
          rw (e, UpdateInput.update_input_row)
            (rw f (rw h (apply_input_update-Stored site g input_id config stored)))

      merged :
          (current : CreateInputRequest)
          → site.json.parse_input row.config_json ≡ some current
          → (m : Merge.Merged CreateInputRequest) → Merge.merge_input_config current req ≡ m
          → Stored (UpdateInput.update_input_row meanwhile site g input_id req row).0
      merged current e (Merge.err x) f = rw (e, UpdateInput.update_input_row) (rw f stored)
      merged current e (Merge.ok config) f =
          checked current config e f (validate_input site config) refl

  pub update_input-Stored :
      (site : Site) (g : Gateway) (input_id : ℕ) (req : UpdateInputRequest)
      → Stored g
      → Stored (UpdateInput.update_input meanwhile site g input_id req).0
  unfolding UpdateInput.update_input
  update_input-Stored site g input_id req stored =
      go (get_input_by_id site.answers input_id g.database) refl
    where
      go :
          (found : Option (Option InputRow))
          → get_input_by_id site.answers input_id g.database ≡ found
          → Stored (UpdateInput.update_input meanwhile site g input_id req).0
      go none e = rw (e, UpdateInput.update_input) stored
      go (some none) e = rw (e, UpdateInput.update_input) stored
      go (some (some row)) e =
          rw (e, UpdateInput.update_input) (update_input_row-Stored site g input_id req row stored)

-- ===== src/Api/UpdateInput.antt =====
-- `update_input` of src/api.rs. It gives up the lock between its steps: there the argument `meanwhile`
-- is what other tasks do to the shared state.
use stream_gateway.Common.{ℕ, Bool, false, none, some, if◌then◌else◌}
use stream_gateway.Common.Texts.{codes}
use stream_gateway.Common.Maps.{lookup}
use stream_gateway.Models.Requests.{CreateInputRequest}
use stream_gateway.Models.Updates.{UpdateInputRequest}
use stream_gateway.Models.Status.{is_active}
use stream_gateway.Streams.State.{World}
use stream_gateway.Control.Outcome.{Outcome, done, failed, deadlocked, panicked, Platform}
use stream_gateway.Control.Inputs.{start_input, stop_input}
use stream_gateway.Control.Outputs.{store}
use stream_gateway.Database.Tables.{InputRow, get_input_by_id, update_input_in_db}
use stream_gateway.Api.CreateInput.{validate_input}
use stream_gateway.Api.Endpoints.{record_input}
use stream_gateway.Api.Gateway.{
  Gateway, Site, Response, input_updated, bad_request, bad_update, not_found, internal_error,
}
use stream_gateway.Api.Merge
use stream_gateway.Api.Names.{get_name_from_request}
use stream_gateway.Api.Validate

-- `guard.get(&input_id).map(|info| info.status.is_active()).unwrap_or(false)`
unfoldable pub is_input_active : World → ℕ → Bool
unfolding is_active lookup
is_input_active w input_id = elim (lookup input_id w.streams) [
  | none ↦ false
  | some info ↦ is_active info.status
]

-- `input_info.config = merged_config.clone()`, if there is an entry
unfoldable pub set_config : ℕ → CreateInputRequest → World → World
unfolding lookup
set_config input_id config w = elim (lookup input_id w.streams) [
  | none ↦ w
  | some input_info ↦ store input_id (record input_info { config = config }) w
]

-- The stop of an active input.
unfoldable pub stop_active : (World → World) → World → ℕ → World × Outcome (Unit {0})
unfolding is_input_active stop_input
stop_active meanwhile w input_id =
    if is_input_active w input_id then stop_input (meanwhile w) input_id else (meanwhile w, done tt)

-- From the stop to the start.
unfoldable pub restart_input :
    (World → World) → Platform → World → ℕ → CreateInputRequest → World × Outcome (Unit {0})
unfolding stop_active set_config start_input
restart_input meanwhile p w input_id config =
    let (v, outcome) = stop_active meanwhile w input_id in
    elim outcome [
      | failed e ↦ (v, failed e)
      | deadlocked ↦ (v, deadlocked)
      | panicked ↦ (v, panicked)
      | done u ↦
          start_input meanwhile p (meanwhile (set_config input_id config (meanwhile v))) input_id
    ]

-- From the update of the row on.
unfoldable pub apply_input_update :
    (World → World) → Site → Gateway → ℕ → CreateInputRequest → Gateway × Response
unfolding update_input_in_db get_name_from_request restart_input record_input
apply_input_update meanwhile site g input_id config =
    let name = get_name_from_request config in
    let (db, written) =
      update_input_in_db site.answers input_id name (site.json.print_input config) g.database in
    if written
    then record_input site (record g { database = db }) input_id (codes "listening")
        (input_updated input_id name)
        (restart_input meanwhile site.platform g.world input_id config)
    else (record g { database = db }, internal_error)

-- From the stored row on.
unfoldable pub update_input_row :
    (World → World) → Site → Gateway → ℕ → UpdateInputRequest → InputRow → Gateway × Response
unfolding Merge.merge_input_config validate_input apply_input_update
update_input_row meanwhile site g input_id req row = elim (site.json.parse_input row.config_json) [
  | none ↦ (g, internal_error)
  | some current_config ↦ elim (Merge.merge_input_config current_config req) [
    | Merge.err e ↦ (g, bad_update e)
    | Merge.ok merged_config ↦ elim (validate_input site merged_config) [
      | Validate.err e ↦ (g, bad_request e)
      | Validate.ok ↦ apply_input_update meanwhile site g input_id merged_config
    ]
  ]
]

-- `update_input`
unfoldable pub update_input :
    (World → World) → Site → Gateway → ℕ → UpdateInputRequest → Gateway × Response
unfolding get_input_by_id update_input_row
update_input meanwhile site g input_id req =
    elim (get_input_by_id site.answers input_id g.database) [
      | none ↦ (g, internal_error)
      | some none ↦ (g, not_found)
      | some (some row) ↦ update_input_row meanwhile site g input_id req row
    ]

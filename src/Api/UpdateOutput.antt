-- ===== src/Api/UpdateOutput.antt =====
-- `update_output` of src/api.rs. It gives up the lock between its steps: there the argument `meanwhile`
-- is what other tasks do to the shared state.
use stream_gateway.Common.{ℕ, Bool, Option, none, some, [], if◌then◌else◌, unwrap_or}
use stream_gateway.Common.Texts.{Text, codes, text_eq, split}
use stream_gateway.Common.Maps.{lookup, insert, contains_key}
use stream_gateway.Models.Addresses.{second, parse_port}
use stream_gateway.Models.Requests.{UdpOutput, CreateOutputRequest}
use stream_gateway.Models.Updates.{UpdateOutputRequest}
use stream_gateway.Models.OutputConfig.{get_bind_port}
use stream_gateway.Models.Outputs.{get_remote_host, get_remote_port}
use stream_gateway.Streams.State.{World}
use stream_gateway.Streams.Spawn.{format_addr, srt_destination}
use stream_gateway.Control.Outcome.{Outcome, done, failed, deadlocked, panicked, Platform}
use stream_gateway.Control.Outputs.{store, start_output, stop_output}
use stream_gateway.Database.Tables.{OutputRow, get_output_by_id, update_output_in_db}
use stream_gateway.Api.CreateOutput.{validate_output}
use stream_gateway.Api.Endpoints.{record_output}
use stream_gateway.Api.Gateway.{
  Gateway, Site, Response, output_updated, bad_request, bad_update, not_found, internal_error,
}
use stream_gateway.Api.Merge
use stream_gateway.Api.Validate

-- The configuration of a row without JSON, from its destination.
unfoldable pub legacy_output : OutputRow → UdpOutput
unfolding split second parse_port
legacy_output row =
    let destination = unwrap_or row.destination [] in
    record {
      input_id = row.input_id;
      remote_host = some (split b':' destination).0;
      remote_port = parse_port (second (split b':' destination).1);
      automatic_port = none;
      name = row.name;
      bind_host = none;
      multicast_ttl = none;
      multicast_interface = none;
      destination_addr = some destination;
    }

-- `current_config`; `none` is an error.
unfoldable pub stored_output : Site → OutputRow → Option CreateOutputRequest
unfolding legacy_output text_eq
stored_output site row = elim row.config_json [
  | some config_json ↦ site.json.parse_output config_json
  | none ↦
      if text_eq row.kind (codes "udp")
      then some (CreateOutputRequest.udp (legacy_output row))
      else none
]

-- `updated_name`
unfoldable pub name_of_output : CreateOutputRequest → Option Text
name_of_output (CreateOutputRequest.udp c) = c.name
name_of_output (CreateOutputRequest.srt input_id name config) = name

-- `destination_addr` and `listen_port`, whose defaults differ from those of `create_output`.
unfoldable pub updated_destination : CreateOutputRequest → Text × Option ℕ
unfolding format_addr get_remote_host get_remote_port srt_destination get_bind_port
updated_destination (CreateOutputRequest.udp c) = (
  format_addr (unwrap_or (get_remote_host (CreateOutputRequest.udp c)) (codes "127.0.0.1"))
      (unwrap_or (get_remote_port (CreateOutputRequest.udp c)) 8000),
  none,
)
updated_destination (CreateOutputRequest.srt input_id name config) =
    (srt_destination config, get_bind_port config)

-- Whether the input exists, and then whether the output is among its tasks.
unfoldable pub output_active : World → ℕ → ℕ → Option Bool
unfolding lookup contains_key
output_active w input_id output_id = elim (lookup input_id w.streams) [
  | none ↦ none
  | some input_info ↦ some (contains_key output_id input_info.output_tasks)
]

-- `input_info.stopped_outputs.insert(output_id, merged_config.clone())`, if there is an entry
unfoldable pub set_stopped : ℕ → ℕ → CreateOutputRequest → World → World
unfolding lookup insert
set_stopped input_id output_id config w = elim (lookup input_id w.streams) [
  | none ↦ w
  | some input_info ↦
      store input_id
        (record input_info { stopped_outputs = insert output_id config input_info.stopped_outputs })
        w
]

-- From the stop to the start.
unfoldable pub restart_output :
    (World → World)
    → Platform
    → World
    → ℕ
    → ℕ
    → Bool
    → CreateOutputRequest
    → World × Outcome (Unit {0})
unfolding stop_output set_stopped start_output
restart_output meanwhile p w input_id output_id active config =
    let (v, outcome) = if active then stop_output w input_id output_id else (w, done tt) in
    elim outcome [
      | failed e ↦ (v, failed e)
      | deadlocked ↦ (v, deadlocked)
      | panicked ↦ (v, panicked)
      | done u ↦
          start_output p (meanwhile (set_stopped input_id output_id config (meanwhile v))) input_id
            output_id
    ]

-- From the update of the row on.
unfoldable pub apply_output_update :
    (World → World) → Site → Gateway → ℕ → ℕ → CreateOutputRequest → Gateway × Response
unfolding update_output_in_db name_of_output updated_destination output_active restart_output
    record_output
apply_output_update meanwhile site g input_id output_id config =
    let (destination, listen_port) = updated_destination config in
    let (db, written) =
      update_output_in_db site.answers output_id (name_of_output config) destination
        (some (site.json.print_output config)) listen_port g.database in
    if written
    then elim (output_active g.world input_id output_id) [
      | none ↦ (record g { database = db }, not_found)
      | some active ↦
          record_output site (record g { database = db }) output_id (codes "connecting")
            (output_updated output_id input_id destination)
            (restart_output meanwhile site.platform (meanwhile g.world) input_id output_id active
              config)
    ]
    else (record g { database = db }, internal_error)

-- From the stored row on.
unfoldable pub update_output_row :
    (World → World) → Site → Gateway → ℕ → UpdateOutputRequest → OutputRow → Gateway × Response
unfolding stored_output Merge.merge_output_config validate_output apply_output_update
update_output_row meanwhile site g output_id req row = elim (stored_output site row) [
  | none ↦ (g, internal_error)
  | some current_config ↦ elim (Merge.merge_output_config current_config req) [
    | Merge.err e ↦ (g, bad_update e)
    | Merge.ok merged_config ↦ elim (validate_output site merged_config) [
      | Validate.err e ↦ (g, bad_request e)
      | Validate.ok ↦ apply_output_update meanwhile site g row.input_id output_id merged_config
    ]
  ]
]

-- `update_output`
unfoldable pub update_output :
    (World → World) → Site → Gateway → ℕ → UpdateOutputRequest → Gateway × Response
unfolding get_output_by_id update_output_row
update_output meanwhile site g output_id req =
    elim (get_output_by_id site.answers output_id g.database) [
      | none ↦ (g, internal_error)
      | some none ↦ (g, not_found)
      | some (some row) ↦ update_output_row meanwhile site g output_id req row
    ]

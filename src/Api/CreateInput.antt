-- ===== src/Api/CreateInput.antt =====
-- `create_input` of src/api.rs. The handler takes the lock only to insert the entry, under a key that
-- no other request was given; other requests are taken to come before or after it.
use stream_gateway.Common.{ℕ, Option, none, some, [], if◌then◌else◌}
use stream_gateway.Common.Texts.{Text, codes}
use stream_gateway.Models.Requests.{CreateInputRequest}
use stream_gateway.Models.Inputs.{is_automatic_port}
use stream_gateway.Models.Status.{StreamStatus}
use stream_gateway.Streams.State.{InputInfo, World, draw}
use stream_gateway.Control.Outputs.{store}
use stream_gateway.Database.Tables.{Database, save_input_to_db, update_input_status_in_db}
use stream_gateway.Api.Assign.{assign_input_port}
use stream_gateway.Api.Names.{input_name}
use stream_gateway.Api.Validate.{
  Checked, ok, err, ◌>>◌, validate_udp_input_config, validate_srt_config,
}
use stream_gateway.Api.Gateway.{
  Gateway, Site, Response, input_created, bad_request, internal_error, free_port, spawned, refused,
  spawn_input,
}

-- `final_req` and `assigned_port`; `none` is the error that no port is free.
unfoldable pub final_input :
    Site → Database → CreateInputRequest → Option (CreateInputRequest × Option ℕ)
unfolding free_port is_automatic_port assign_input_port
final_input site db req =
    if is_automatic_port req
    then elim (free_port site db) [ none ↦ none | some port ↦ some (assign_input_port port req) ]
    else some (req, none)

-- The entry of an input that could not be started; it has a channel that nothing writes to.
unfoldable pub error_input_info : World → CreateInputRequest → ℕ → Option Text → Text → InputInfo
error_input_info w req id name error = record {
  id = id;
  name = name;
  status = StreamStatus.error;
  packet_tx = w.next;
  task_handle = none;
  config = req;
  output_tasks = [];
  stopped_outputs = [];
  analysis_tasks = [];
  paused_analysis = [];
  started_at = none;
  connected_at = none;
  source_address = none;
  error_message = some error;
}

-- From the call of `spawn_input` on.
unfoldable pub add_input :
    Site → Gateway → CreateInputRequest → ℕ → Option Text → Option ℕ → Gateway × Response
unfolding spawn_input error_input_info update_input_status_in_db
add_input site g req id name assigned_port =
    let (w, made) = spawn_input g.world req id name in
    elim made [
      | spawned info ↦
          (record g { world = store info.id info w }, input_created id name assigned_port)
      | refused error ↦ (
        record {
          world = store id (error_input_info w req id name error) (draw w);
          database = (update_input_status_in_db site.answers id (codes "error") g.database).0;
        },
        internal_error,
      )
    ]

-- From the call of `save_input_to_db` on.
unfoldable pub save_input :
    Site → Gateway → CreateInputRequest → Option Text → Option ℕ → Gateway × Response
unfolding save_input_to_db add_input
save_input site g req name assigned_port =
    let (db, key) = save_input_to_db site.answers site.json name req g.database in
    elim key [
      | none ↦ (record g { database = db }, internal_error)
      | some id ↦ add_input site (record g { database = db }) req id name assigned_port
    ]

unfoldable pub validate_input : Site → CreateInputRequest → Checked
unfolding validate_udp_input_config validate_srt_config
validate_input site req =
    validate_udp_input_config site.platform.net req >> validate_srt_config site.platform.net req

-- `create_input`
unfoldable pub create_input : Site → Gateway → CreateInputRequest → Gateway × Response
unfolding validate_input final_input input_name save_input
create_input site g req = elim (validate_input site req) [
  | err e ↦ (g, bad_request e)
  | ok ↦ elim (final_input site g.database req) [
    | none ↦ (g, internal_error)
    | some final ↦ save_input site g final.0 (input_name req) final.1
  ]
]

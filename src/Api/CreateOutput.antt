-- ===== src/Api/CreateOutput.antt =====
-- `create_output` of src/api.rs, which holds the write guard from the look at the input on.
use stream_gateway.Common.{ℕ, Bool, true, false, Option, none, some, if◌then◌else◌}
use stream_gateway.Common.Texts.{Text}
use stream_gateway.Common.Maps.{lookup, insert}
use stream_gateway.Models.Requests.{CreateOutputRequest}
use stream_gateway.Models.Outputs.{is_automatic_port, OutputKind, output_kind_string}
use stream_gateway.Models.Status.{StreamStatus, to_string}
use stream_gateway.Interfaces.{Net}
use stream_gateway.Streams.State.{OutputInfo, InputInfo, World}
use stream_gateway.Streams.Spawn.{
  MulticastOutputConfig, create_udp_output, create_srt_output, srt_kind,
}
use stream_gateway.Control.Outputs.{store, multicast_for}
use stream_gateway.Database.Tables.{
  Database, Json, OutputRow, save_output_to_db, check_output_exists, port_conflict,
}
use stream_gateway.Api.Assign.{assign_output_port}
use stream_gateway.Api.Names.{output_destination, output_name, output_input_id}
use stream_gateway.Api.Validate.{
  Checked, ok, err, ◌>>◌, validate_udp_output_config, validate_srt_output_config,
}
use stream_gateway.Api.Gateway.{
  Gateway, Site, Response, output_created, bad_request, not_found, conflict, internal_error,
  free_port,
}

-- `final_req` and `assigned_port`; `none` is the error that no port is free.
unfoldable pub final_output :
    Site → Database → CreateOutputRequest → Option (CreateOutputRequest × Option ℕ)
unfolding free_port is_automatic_port assign_output_port
final_output site db req =
    if is_automatic_port req
    then elim (free_port site db) [ none ↦ none | some port ↦ some (assign_output_port port req) ]
    else some (req, none)

-- `multicast_config`: only `remote_host` is looked at.
unfoldable pub multicast_of :
    Net → Option Text → Option ℕ → Option Text → Option MulticastOutputConfig
unfolding multicast_for
multicast_of net none multicast_ttl multicast_interface = none
multicast_of net (some host) multicast_ttl multicast_interface =
    multicast_for net host multicast_ttl multicast_interface

-- `output_info`
unfoldable pub make_output :
    Site → World → CreateOutputRequest → Text → InputInfo → ℕ → World × Option OutputInfo
unfolding multicast_of create_udp_output create_srt_output
make_output site w (CreateOutputRequest.udp c) destination_addr input output_id =
    create_udp_output site.platform.resolve w destination_addr input output_id c.name c.bind_host
      (multicast_of site.platform.net c.remote_host c.multicast_ttl c.multicast_interface)
make_output site w (CreateOutputRequest.srt input_id name config) destination_addr input output_id =
    let (v, info) = create_srt_output w input_id config input output_id name in (v, some info)

unfoldable pub request_kind : CreateOutputRequest → OutputKind
unfolding srt_kind
request_kind (CreateOutputRequest.udp c) = OutputKind.udp
request_kind (CreateOutputRequest.srt input_id name config) = srt_kind config

-- The row that `create_output` saves, with the status that `save_output_to_db` writes.
unfoldable pub new_output_row : Json → CreateOutputRequest → OutputRow
unfolding output_name output_destination output_input_id request_kind output_kind_string to_string
new_output_row json req = record {
  name = output_name req (output_destination req).0;
  input_id = output_input_id req;
  kind = output_kind_string (request_kind req);
  destination = some (output_destination req).0;
  listen_port = (output_destination req).1;
  config_json = some (json.print_output req);
  status = to_string StreamStatus.connecting;
}

-- From the creation of the output on. An output that is not created leaves its row behind.
unfoldable pub add_output :
    Site → Gateway → InputInfo → CreateOutputRequest → ℕ → Option ℕ → Gateway × Response
unfolding make_output output_destination output_input_id insert
add_output site g input req output_id assigned_port =
    let (w, made) = make_output site g.world req (output_destination req).0 input output_id in
    elim made [
      | none ↦ (record g { world = w }, internal_error)
      | some info ↦ (
        record g {
          world =
              store (output_input_id req)
                (record input { output_tasks = insert output_id info input.output_tasks }) w;
        },
        output_created output_id (output_input_id req) info.destination info.kind assigned_port,
      )
    ]

-- From the call of `save_output_to_db` on.
unfoldable pub save_output :
    Site → Gateway → InputInfo → CreateOutputRequest → Option ℕ → Gateway × Response
unfolding save_output_to_db new_output_row add_output
save_output site g input req assigned_port =
    let (db, key) = save_output_to_db site.answers (new_output_row site.json req) g.database in
    elim key [
      | none ↦ (record g { database = db }, internal_error)
      | some output_id ↦
          add_output site (record g { database = db }) input req output_id assigned_port
    ]

-- Whether another output is in the way: one of the input with the destination, or one that listens
-- on the port; `none` is an error of a query.
unfoldable pub port_taken : Site → Database → Option ℕ → Option Bool
unfolding port_conflict
port_taken site db none = some false
port_taken site db (some port) = port_conflict site.answers port none db

unfoldable pub in_conflict : Site → Database → CreateOutputRequest → Option Bool
unfolding check_output_exists output_destination output_input_id port_taken
in_conflict site db req =
    elim (check_output_exists site.answers (output_input_id req) (output_destination req).0 db) [
      | none ↦ none
      | some true ↦ some true
      | some false ↦ port_taken site db (output_destination req).1
    ]

unfoldable pub check_output :
    Site → Gateway → InputInfo → CreateOutputRequest → Option ℕ → Gateway × Response
unfolding in_conflict save_output
check_output site g input req assigned_port = elim (in_conflict site g.database req) [
  | none ↦ (g, internal_error)
  | some true ↦ (g, conflict)
  | some false ↦ save_output site g input req assigned_port
]

unfoldable pub validate_output : Site → CreateOutputRequest → Checked
unfolding validate_udp_output_config validate_srt_output_config
validate_output site req =
    validate_udp_output_config site.platform.net req
    >> validate_srt_output_config site.platform.net req

-- `create_output`
unfoldable pub create_output : Site → Gateway → CreateOutputRequest → Gateway × Response
unfolding validate_output output_input_id final_output check_output lookup
create_output site g req = elim (validate_output site req) [
  | err e ↦ (g, bad_request e)
  | ok ↦ elim (lookup (output_input_id req) g.world.streams) [
    | none ↦ (g, not_found)
    | some input ↦ elim (final_output site g.database req) [
      | none ↦ (g, internal_error)
      | some final ↦ check_output site g input final.0 final.1
    ]
  ]
]

-- ===== src/Api/Gateway.antt =====
-- The state that the handlers of src/api.rs act on, their answers, and what `spawn_input` and
-- `find_available_port` give them.
use stream_gateway.Common.{ℕ, Bool, false, Option, none, some, [], ◌++◌, unwrap_or}
use stream_gateway.Common.Texts.{Text, codes, print_nat}
use stream_gateway.Common.Maps.{lookup}
use stream_gateway.Models.Requests.{CreateInputRequest}
use stream_gateway.Models.Inputs.{get_bind_port, get_bind_host}
use stream_gateway.Models.Outputs.{OutputKind}
use stream_gateway.PortUtils.Find.{find_available_port}
use stream_gateway.Streams.State.{InputInfo, World}
use stream_gateway.Streams.Spawn.{spawn_udp_input_with_stats, spawn_with_stats, spawn_spts_input}
use stream_gateway.Control.Outcome.{Platform}
use stream_gateway.Control.Inputs.{specific_host, initial_status}
use stream_gateway.Database.Tables.{Database, Json, Answers, output_port_rows, input_port_rows}
use stream_gateway.Api.Validate.{ValidationError}
use stream_gateway.Api.Merge.{MergeError}

-- `ACTIVE_STREAMS` and the pool.
pub record Gateway : Type 0 where
  pub world : World
  pub database : Database

-- What the handlers need of the code that the sources only call, and `port_range`.
pub record Site : Type 0 where
  pub platform : Platform
  pub json : Json
  pub answers : Answers
  pub is_port_available : ℕ → Bool
  pub auto_port_range_start : ℕ
  pub auto_port_range_end : ℕ

-- `no_response`: the handler never ends.
pub data Response : Type 0 where
  input_created : (id : ℕ) → (name : Option Text) → (assigned_port : Option ℕ) → Response
  output_created :
      (output_id : ℕ)
      → (input_id : ℕ) → (destination : Text) → (kind : OutputKind) → (assigned_port : Option ℕ)
      → Response
  success : Response
  input_updated : (id : ℕ) → (name : Option Text) → Response
  output_updated : (output_id : ℕ) → (input_id : ℕ) → (destination : Text) → Response
  success_with : (status : Text) → Response
  bad_request : ValidationError → Response
  bad_update : MergeError → Response
  not_found conflict internal_error no_response : Response

unfoldable pub free_port : Site → Database → Option ℕ
unfolding find_available_port output_port_rows input_port_rows
free_port site db =
    find_available_port site.is_port_available (output_port_rows db.outputs)
      (input_port_rows site.json db.inputs) site.auto_port_range_start site.auto_port_range_end []

-- What `spawn_input` gives: the entry, or the text of the error.
pub data Spawned : Type 0 where
  spawned : InputInfo → Spawned
  refused : Text → Spawned

-- `spawn_input`; its one error is an SPTS input whose source is not there.
unfoldable pub spawn_input : World → CreateInputRequest → ℕ → Option Text → World × Spawned
unfolding get_bind_port get_bind_host specific_host initial_status spawn_udp_input_with_stats
    spawn_with_stats spawn_spts_input lookup
spawn_input w (CreateInputRequest.udp c) id name =
    let (v, info) =
      spawn_udp_input_with_stats w id name (get_bind_port (CreateInputRequest.udp c))
        (specific_host (get_bind_host (CreateInputRequest.udp c))) c.multicast_group
        c.source_specific_multicast in
    (v, spawned info)
spawn_input w (CreateInputRequest.srt srt_name config) id name =
    let (v, sender) = spawn_with_stats w in
    (
      v,
      spawned (record {
        id = id;
        name = name;
        status = initial_status config;
        packet_tx = sender.tx;
        task_handle = some sender.handle;
        config = CreateInputRequest.srt srt_name config;
        output_tasks = [];
        stopped_outputs = [];
        analysis_tasks = [];
        paused_analysis = [];
        started_at = some w.now;
        connected_at = none;
        source_address = none;
        error_message = none;
      }),
    )
spawn_input w (CreateInputRequest.spts c) id name = elim (lookup c.source_input_id w.streams) [
  | none ↦ (
    w,
    refused (
        codes "Source input " ++ (print_nat c.source_input_id ++ codes " not found or not active")),
  )
  | some source_input ↦
      let (v, info) =
        spawn_spts_input w source_input id c.program_number (unwrap_or c.fill_with_nulls false)
          name in
      (v, spawned info)
]

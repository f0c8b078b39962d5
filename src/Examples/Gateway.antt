-- ===== src/Examples/Gateway.antt =====
-- The theorems on the handlers of src/api.rs and the tables of src/database.rs, applied.
use mathlib.Core.List.{Memᴰ}
use stream_gateway.Common.{ℕ, ◌≡◌, ◌≢◌, ◌⊎◌, false, refl, true, none, some, [], ◌∷◌, arith, Bool}
use stream_gateway.Common.Texts.{Text, codes, text_eq}
use stream_gateway.Common.Maps.{lookup, Distinct}
use stream_gateway.Models.Requests.{CreateInputRequest, CreateOutputRequest}
use stream_gateway.Streams.State.{OutputInfo, InputInfo, AnalysisInfo, aborted}
use stream_gateway.Database.Tables.{Json, InputRow, OutputRow, Statement}
use stream_gateway.Api.Gateway.{Gateway, Site, success}
use stream_gateway.Api.CreateInput.{create_input}
use stream_gateway.Api.CreateOutput.{create_output}
use stream_gateway.Api.Delete.{delete_input}
use stream_gateway.Api.Stored.{Stored}
use stream_gateway.Api.Requests.{new_gateway}
use stream_gateway.Api.UniqueOutputs.{Unique, create_output-Unique}
use stream_gateway.Api.DeleteLaws.{delete_input-clears}
use stream_gateway.Api.LoadInputs.{Readers, is_stopped_row, is_spts_row, is_srt}
use stream_gateway.Api.LoadOutputs.{load_from_db}
use stream_gateway.Api.LoadReads.{every, input_reads, output_reads}
use stream_gateway.Api.LoadSucceeds.{load_from_db-succeeds}
use stream_gateway.Api.LoadComplete.{is_known_kind, load_from_db-loads}
use stream_gateway.Models.Status.{StreamStatus}
use stream_gateway.Examples.Values.{platform, udp_input, udp_output, live, live_world}

-- Texts that only say what kind of request they stand for.
abbrev json : Json
json = record {
  print_input = λ (r : CreateInputRequest). codes "input";
  parse_input = λ (t : Text). some (CreateInputRequest.udp udp_input);
  print_output = λ (r : CreateOutputRequest). codes "output";
  parse_output = λ (t : Text). some (CreateOutputRequest.udp udp_output);
  input_ports = λ (t : Text). record { listen_port = none; bind_port = none };
}

abbrev answers : Statement → Bool
answers s = true

-- Every statement succeeds, and every port is free.
abbrev site : Site
site = record {
  platform = platform;
  json = json;
  answers = answers;
  is_port_available = λ (port : ℕ). true;
  auto_port_range_start = 10000;
  auto_port_range_end = 10010;
}

abbrev with_input : Gateway
with_input = (create_input site new_gateway (CreateInputRequest.udp udp_input)).0

abbrev input_row : InputRow
input_row = record {
  name = none;
  kind = codes "udp";
  config_json = codes "input";
  status = codes "listening";
}

abbrev output_row : OutputRow
output_row = record {
  name = none;
  input_id = 1;
  kind = codes "udp";
  destination = some (codes "10.0.0.1:6000");
  listen_port = none;
  config_json = some (codes "output");
  status = codes "connected";
}

-- Input 1 with output 7, in the shared state and in the tables.
abbrev stored_live : Gateway
stored_live = record {
  world = live_world;
  database = record {
    inputs = (1, input_row) ∷ [];
    outputs = (7, output_row) ∷ [];
    next_input = 2;
    next_output = 8;
  };
}

one_row-Unique : Unique stored_live.database.outputs
unfolding Unique lookup
one_row-Unique id other_id row other l m clash = ground (arith, l, m)

create_output-Unique_example :
    Unique (create_output site stored_live (CreateOutputRequest.udp udp_output)).0.database.outputs
create_output-Unique_example =
    create_output-Unique site stored_live (CreateOutputRequest.udp udp_output) one_row-Unique

found : lookup 1 live_world.streams ≡ some live
unfolding lookup
found = refl

delete_input-clears_example :
    ((delete_input site stored_live 1).1 ≡ success)
    × (lookup 1 (delete_input site stored_live 1).0.world.streams ≡ none)
    × (lookup 1 (delete_input site stored_live 1).0.database.inputs ≡ none)
    × ((key : ℕ) (row : OutputRow)
        → lookup key (delete_input site stored_live 1).0.database.outputs ≡ some row
        → row.input_id ≢ 1)
    × ((j : ℕ)
        → 1 ≢ j
        → (lookup j (delete_input site stored_live 1).0.world.streams
            ≡ lookup j stored_live.world.streams)
          × (lookup j (delete_input site stored_live 1).0.database.inputs
              ≡ lookup j stored_live.database.inputs))
    × ((key : ℕ) (row : OutputRow)
        → lookup key stored_live.database.outputs ≡ some row
        → row.input_id ≢ 1
        → lookup key (delete_input site stored_live 1).0.database.outputs ≡ some row)
    × ((h : ℕ)
        → live.task_handle ≡ some h
        → Memᴰ (aborted h) (delete_input site stored_live 1).0.world.effects)
    × ((output_id : ℕ) (o : OutputInfo) (h : ℕ)
        → lookup output_id live.output_tasks ≡ some o
        → o.abort_handle ≡ some h
        → Memᴰ (aborted h) (delete_input site stored_live 1).0.world.effects)
    × ((analysis_id : ℕ) (a : AnalysisInfo)
        → lookup analysis_id live.analysis_tasks ≡ some a
        → Memᴰ (aborted a.task_handle) (delete_input site stored_live 1).0.world.effects)
delete_input-clears_example = delete_input-clears site stored_live 1 live found refl refl

-- Configurations are whatever they need to be; every text is an address.
abbrev readers : Readers
readers = record {
  parse_input = λ (t : Text). some (CreateInputRequest.udp udp_input);
  parse_srt_input = λ (t : Text). none;
  parse_srt_output = λ (t : Text). none;
  parse_srt_common = λ (t : Text). none;
  is_socket_addr = λ (t : Text). true;
}

abbrev stopped_row : InputRow
stopped_row = record input_row { status = codes "stopped" }

-- The tables after a restart: input 1 was stopped, its output was not.
abbrev restarted : Gateway
restarted = record {
  world = new_gateway.world;
  database = record {
    inputs = (1, stopped_row) ∷ [];
    outputs = (7, output_row) ∷ [];
    next_input = 2;
    next_output = 8;
  };
}

load_from_db-loads_example :
    (info : InputInfo) × (lookup 1 (load_from_db readers site restarted).0.streams ≡ some info)
    × (info.id ≡ 1)
    × ((is_stopped_row stopped_row ≡ false)
        ⊎ ((info.status ≡ StreamStatus.stopped) × (info.task_handle ≡ none)))
unfolding Distinct load_from_db is_known_kind
load_from_db-loads_example =
    load_from_db-loads readers site restarted 1 stopped_row (refl, tt) refl refl refl

inputs_read : every (input_reads readers) restarted.database.inputs ≡ true
unfolding every is_spts_row is_srt text_eq
inputs_read = refl

outputs_read : every (output_reads readers) restarted.database.outputs ≡ true
unfolding every text_eq
outputs_read = refl

load_from_db-succeeds_example : (load_from_db readers site restarted).1 ≡ true
load_from_db-succeeds_example =
    load_from_db-succeeds readers site restarted refl refl inputs_read outputs_read

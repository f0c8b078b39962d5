-- ===== src/Database/Tables.antt =====
-- `InputRow` and `OutputRow` of src/models.rs and the functions of src/database.rs on the tables that
-- src/migrations/ declares. A table maps the primary key to the row. How serde_json prints a request
-- and reads one is the argument `Json`; whether SQLite carries out a statement is the argument
-- `answers`: a statement that fails changes nothing. The status that a statement writes is one of
-- those that the schema admits, so that check is left out.
use stream_gateway.Common.{
  ℕ, suc, Bool, true, false, ◌&&◌, ◌||◌, Option, none, some, List, [], ◌∷◌, ◌==◌, if◌then◌else◌,
}
use stream_gateway.Common.Texts.{Text, codes, text_eq}
use stream_gateway.Common.Maps.{Map, lookup, insert, remove, contains_key}
use stream_gateway.Models.Requests.{CreateInputRequest, CreateOutputRequest}
use stream_gateway.Models.Inputs.{input_kind_string}
use stream_gateway.PortUtils.Find.{OutputPort, InputPorts, check_port_conflict}

pub record InputRow : Type 0 where
  pub name : Option Text
  pub kind : Text
  pub config_json : Text
  pub status : Text

pub record OutputRow : Type 0 where
  pub name : Option Text
  pub input_id : ℕ
  pub kind : Text
  pub destination : Option Text
  pub listen_port : Option ℕ
  pub config_json : Option Text
  pub status : Text

-- The keys are AUTOINCREMENT: the next one of each table is above all that were ever used.
pub record Database : Type 0 where
  pub inputs : Map InputRow
  pub outputs : Map OutputRow
  pub next_input : ℕ
  pub next_output : ℕ

-- `serde_json::to_string`, `serde_json::from_str`, and the two top-level ports that
-- `find_available_port` of src/port_utils.rs looks up in a value.
pub record Json : Type 0 where
  pub print_input : CreateInputRequest → Text
  pub parse_input : Text → Option CreateInputRequest
  pub print_output : CreateOutputRequest → Text
  pub parse_output : Text → Option CreateOutputRequest
  pub input_ports : Text → InputPorts

pub data Statement : Type 0 where
  insert_input insert_output delete_outputs_of delete_input delete_output : Statement
  count_outputs count_ports select_input select_output select_input_id : Statement
  select_inputs select_outputs : Statement
  update_input_status update_output_status update_input update_output : Statement

abbrev pub Answers : Type 0
Answers = Statement → Bool

-- The row that `save_input_to_db` inserts.
unfoldable pub new_input_row : Json → Option Text → CreateInputRequest → InputRow
unfolding input_kind_string
new_input_row json name request = record {
  name = name;
  kind = input_kind_string request;
  config_json = json.print_input request;
  status = codes "listening";
}

-- `save_input_to_db`; the result is the new key, `none` for an error.
unfoldable pub save_input_to_db :
    Answers → Json → Option Text → CreateInputRequest → Database → Database × Option ℕ
unfolding new_input_row insert
save_input_to_db answers json name request db =
    if answers insert_input
    then (
      record db {
        inputs = insert db.next_input (new_input_row json name request) db.inputs;
        next_input = suc db.next_input;
      },
      some db.next_input,
    )
    else (db, none)

-- `DELETE FROM outputs WHERE input_id = ?`
unfoldable pub without_input : ℕ → Map OutputRow → Map OutputRow
without_input id [] = []
without_input id ((key, row) ∷ rows) =
    let rest = without_input id rows in if row.input_id == id then rest else (key, row) ∷ rest

-- `delete_input_from_db`: the outputs first, then the input; whether both statements succeeded.
unfoldable pub delete_input_from_db : Answers → ℕ → Database → Database × Bool
unfolding without_input remove
delete_input_from_db answers id db =
    if answers delete_outputs_of
    then if answers delete_input
      then (record db { inputs = remove id db.inputs; outputs = without_input id db.outputs }, true)
      else (record db { outputs = without_input id db.outputs }, false)
    else (db, false)

-- `save_output_to_db`; the foreign key refuses an output of an input that has no row.
unfoldable pub save_output_to_db : Answers → OutputRow → Database → Database × Option ℕ
unfolding contains_key insert
save_output_to_db answers row db =
    if answers insert_output && contains_key row.input_id db.inputs
    then (
      record db {
        outputs = insert db.next_output row db.outputs;
        next_output = suc db.next_output;
      },
      some db.next_output,
    )
    else (db, none)

-- `delete_output_from_db`
unfoldable pub delete_output_from_db : Answers → ℕ → Database → Database × Bool
unfolding remove
delete_output_from_db answers id db =
    if answers delete_output
    then (record db { outputs = remove id db.outputs }, true)
    else (db, false)

-- `destination = ?`, which no NULL satisfies
unfoldable pub is_destination : Text → Option Text → Bool
unfolding text_eq
is_destination destination none = false
is_destination destination (some other) = text_eq other destination

-- `COUNT(*) > 0` of the rows with the input and the destination
unfoldable pub any_destination : ℕ → Text → Map OutputRow → Bool
unfolding is_destination
any_destination input_id destination [] = false
any_destination input_id destination ((key, row) ∷ rows) =
    (row.input_id == input_id && is_destination destination row.destination)
    || any_destination input_id destination rows

-- `check_output_exists`; `none` is an error.
unfoldable pub check_output_exists : Answers → ℕ → Text → Database → Option Bool
unfolding any_destination
check_output_exists answers input_id destination db =
    if answers count_outputs then some (any_destination input_id destination db.outputs) else none

-- What the port queries read of the tables.
unfoldable pub output_port_rows : Map OutputRow → List OutputPort
output_port_rows [] = []
output_port_rows ((key, row) ∷ rows) =
    (record { id = key; listen_port = row.listen_port }) ∷ output_port_rows rows

unfoldable pub input_port_rows : Json → Map InputRow → List InputPorts
input_port_rows json [] = []
input_port_rows json ((key, row) ∷ rows) =
    json.input_ports row.config_json ∷ input_port_rows json rows

-- `check_port_conflict` on the table; `none` is an error.
unfoldable pub port_conflict : Answers → ℕ → Option ℕ → Database → Option Bool
unfolding check_port_conflict output_port_rows
port_conflict answers listen_port exclude_output_id db =
    if answers count_ports
    then some (check_port_conflict (output_port_rows db.outputs) listen_port exclude_output_id)
    else none

-- `get_input_by_id` and `get_output_by_id`; the outer `none` is an error.
unfoldable pub get_input_by_id : Answers → ℕ → Database → Option (Option InputRow)
unfolding lookup
get_input_by_id answers id db = if answers select_input then some (lookup id db.inputs) else none

unfoldable pub get_output_by_id : Answers → ℕ → Database → Option (Option OutputRow)
unfolding lookup
get_output_by_id answers id db = if answers select_output then some (lookup id db.outputs) else none

-- `get_all_inputs` and `get_all_outputs`; `none` is an error.
unfoldable pub get_all_inputs : Answers → Database → Option (Map InputRow)
get_all_inputs answers db = if answers select_inputs then some db.inputs else none

unfoldable pub get_all_outputs : Answers → Database → Option (Map OutputRow)
get_all_outputs answers db = if answers select_outputs then some db.outputs else none

-- `get_input_id_for_output`; a missing row is an error too.
unfoldable pub get_input_id_for_output : Answers → ℕ → Database → Option ℕ
unfolding lookup
get_input_id_for_output answers output_id db =
    if answers select_input_id
    then elim (lookup output_id db.outputs) [ none ↦ none | some row ↦ some row.input_id ]
    else none

-- `UPDATE ... WHERE id = ?`
unfoldable pub update_row {ℓ} : {R : Type ℓ} → ℕ → (R → R) → Map R → Map R
unfolding lookup insert
update_row id change rows = elim (lookup id rows) [
  | none ↦ rows
  | some row ↦ insert id (change row) rows
]

unfoldable pub update_input_status_in_db : Answers → ℕ → Text → Database → Database × Bool
unfolding update_row
update_input_status_in_db answers id status db =
    if answers update_input_status
    then (
      record db {
        inputs = update_row id (λ (row : InputRow). record row { status = status }) db.inputs;
      },
      true,
    )
    else (db, false)

unfoldable pub update_output_status_in_db : Answers → ℕ → Text → Database → Database × Bool
unfolding update_row
update_output_status_in_db answers id status db =
    if answers update_output_status
    then (
      record db {
        outputs = update_row id (λ (row : OutputRow). record row { status = status }) db.outputs;
      },
      true,
    )
    else (db, false)

unfoldable pub update_input_in_db : Answers → ℕ → Option Text → Text → Database → Database × Bool
unfolding update_row
update_input_in_db answers id name config_json db =
    if answers update_input
    then (
      record db {
        inputs =
            update_row id
              (λ (row : InputRow). record row { name = name; config_json = config_json }) db.inputs;
      },
      true,
    )
    else (db, false)

unfoldable pub update_output_in_db :
    Answers → ℕ → Option Text → Text → Option Text → Option ℕ → Database → Database × Bool
unfolding update_row
update_output_in_db answers id name destination config_json listen_port db =
    if answers update_output
    then (
      record db {
        outputs =
            update_row id
              (λ (row : OutputRow). record row {
                name = name;
                destination = some destination;
                config_json = config_json;
                listen_port = listen_port;
              })
              db.outputs;
      },
      true,
    )
    else (db, false)

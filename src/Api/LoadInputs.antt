-- ===== src/Api/LoadInputs.antt =====
-- `load_from_db` of src/api.rs, the inputs: what each row of the table becomes. A failed `?` ends the
-- load. The configuration that serde_json finds in a row, and the addresses that the standard library
-- parses, are the argument `Readers`.
use stream_gateway.Common.{ℕ, Bool, ◌||◌, Option, none, some, [], ◌∷◌, ◌++◌, if◌then◌else◌}
use stream_gateway.Common.Texts.{Text, codes, text_eq, print_nat}
use stream_gateway.Common.Maps.{Map, insert, contains_key}
use stream_gateway.Models.Requests.{
  SrtCommonConfig, SrtInputConfig, CreateInputRequest, SrtOutputConfig,
}
use stream_gateway.Models.Status.{StreamStatus}
use stream_gateway.Streams.State.{InputInfo, World, draw}
use stream_gateway.Database.Tables.{InputRow}
use stream_gateway.Api.Gateway.{spawned, refused, spawn_input}

-- `serde_json::from_str` at each type of a stored configuration, `none` for its error, and whether
-- `parse::<SocketAddr>` succeeds.
pub record Readers : Type 0 where
  pub parse_input : Text → Option CreateInputRequest
  pub parse_srt_input : Text → Option SrtInputConfig
  pub parse_srt_output : Text → Option SrtOutputConfig
  pub parse_srt_common : Text → Option SrtCommonConfig
  pub is_socket_addr : Text → Bool

-- `create_req` of a row; `unknown_kind` is the `continue`, `bad_config` the error of `?`.
pub data RowRequest : Type 0 where
  known : CreateInputRequest → RowRequest
  unknown_kind bad_config : RowRequest

unfoldable pub whole_request : Readers → InputRow → RowRequest
whole_request readers row = elim (readers.parse_input row.config_json) [
  | none ↦ bad_config
  | some req ↦ known req
]

unfoldable pub srt_request : Readers → Option Text → InputRow → RowRequest
srt_request readers name row = elim (readers.parse_srt_input row.config_json) [
  | none ↦ bad_config
  | some config ↦ known (CreateInputRequest.srt name config)
]

unfoldable pub is_srt : Text → Bool
unfolding text_eq
is_srt kind = text_eq kind (codes "srt_listener") || text_eq kind (codes "srt_caller")

unfoldable pub stopped_request : Readers → InputRow → RowRequest
unfolding text_eq whole_request srt_request is_srt
stopped_request readers row =
    if text_eq row.kind (codes "udp")
    then whole_request readers row
    else if is_srt row.kind
    then srt_request readers row.name row
    else if text_eq row.kind (codes "spts")
    then whole_request readers row
    else unknown_kind

unfoldable pub active_request : Readers → InputRow → RowRequest
unfolding text_eq whole_request srt_request is_srt
active_request readers row =
    if text_eq row.kind (codes "udp")
    then whole_request readers row
    else if is_srt row.kind
    then srt_request readers none row
    else unknown_kind

-- The entry of a row whose input does not run; its channel is new, and nothing writes to it.
unfoldable pub idle_input_info :
    World → ℕ → InputRow → CreateInputRequest → StreamStatus → Option Text → InputInfo
idle_input_info w id row req status error = record {
  id = id;
  name = row.name;
  status = status;
  packet_tx = w.next;
  task_handle = none;
  config = req;
  output_tasks = [];
  stopped_outputs = [];
  analysis_tasks = [];
  paused_analysis = [];
  started_at = none;
  connected_at = none;
  source_address = none;
  error_message = error;
}

-- What a row gives.
pub data LoadedRow : Type 0 where
  loaded : InputInfo → LoadedRow
  skipped row_error : LoadedRow

unfoldable pub is_stopped_row : InputRow → Bool
unfolding text_eq
is_stopped_row row = text_eq row.status (codes "stopped")

unfoldable pub idle_row :
    World → ℕ → InputRow → CreateInputRequest → StreamStatus → Option Text → World × LoadedRow
unfolding idle_input_info
idle_row w id row req status error = (draw w, loaded (idle_input_info w id row req status error))

-- `spawn_input` on a row, and the entry in error state when it is refused.
unfoldable pub spawn_row : World → ℕ → InputRow → CreateInputRequest → Text → World × LoadedRow
unfolding spawn_input idle_row
spawn_row w id row req failure =
    let (v, made) = spawn_input w req id row.name in
    elim made [
      | spawned info ↦ (v, loaded info)
      | refused error ↦ idle_row v id row req StreamStatus.error (some (failure ++ error))
    ]

-- The body of the loop of phase 1.
unfoldable pub base_row : Readers → World → ℕ → InputRow → World × LoadedRow
unfolding is_stopped_row stopped_request active_request idle_row spawn_row
base_row readers w id row =
    if is_stopped_row row
    then elim (stopped_request readers row) [
      | known req ↦ idle_row w id row req StreamStatus.stopped none
      | unknown_kind ↦ (w, skipped)
      | bad_config ↦ (w, row_error)
    ]
    else elim (active_request readers row) [
      | known req ↦ spawn_row w id row req (codes "Failed to recreate input: ")
      | unknown_kind ↦ (w, skipped)
      | bad_config ↦ (w, row_error)
    ]

-- `source_input_id` of an SPTS request whose source is not in the shared state.
unfoldable pub missing_source : World → CreateInputRequest → Option ℕ
unfolding contains_key
missing_source w (CreateInputRequest.spts c) =
    if contains_key c.source_input_id w.streams then none else some c.source_input_id
missing_source w (CreateInputRequest.udp c) = none
missing_source w (CreateInputRequest.srt name config) = none

-- An SPTS row that is not stopped, with its request.
unfoldable pub active_spts_row : World → ℕ → InputRow → CreateInputRequest → World × LoadedRow
unfolding missing_source idle_row spawn_row
active_spts_row w id row req = elim (missing_source w req) [
  | some source_id ↦
      idle_row w id row req StreamStatus.stopped
        (some (codes "Source input " ++ (print_nat source_id ++ codes " not found")))
  | none ↦ spawn_row w id row req (codes "Failed to recreate SPTS input: ")
]

-- The body of the loop of phase 2.
unfoldable pub spts_row : Readers → World → ℕ → InputRow → World × LoadedRow
unfolding is_stopped_row whole_request idle_row active_spts_row
spts_row readers w id row = elim (readers.parse_input row.config_json) [
  | none ↦ (w, row_error)
  | some req ↦
      if is_stopped_row row
      then idle_row w id row req StreamStatus.stopped none
      else active_spts_row w id row req
]

-- The loop of a phase: its map of entries, `none` where a row ended the load.
unfoldable pub load_rows :
    (World → ℕ → InputRow → World × LoadedRow)
    → World
    → Map InputRow
    → Map InputInfo
    → World × Option (Map InputInfo)
unfolding insert
load_rows body w [] inputs = (w, some inputs)
load_rows body w ((id, row) ∷ rows) inputs =
    let (v, result) = body w id row in
    elim result [
      | loaded info ↦ load_rows body v rows (insert id info inputs)
      | skipped ↦ load_rows body v rows inputs
      | row_error ↦ (v, none)
    ]

-- `base_inputs` and `spts_inputs`
unfoldable pub is_spts_row : InputRow → Bool
unfolding text_eq
is_spts_row row = text_eq row.kind (codes "spts")

unfoldable pub rows_with : (InputRow → Bool) → Map InputRow → Map InputRow
rows_with test [] = []
rows_with test ((id, row) ∷ rows) =
    let rest = rows_with test rows in if test row then (id, row) ∷ rest else rest

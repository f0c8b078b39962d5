-- ===== src/Api/LoadOutputs.antt =====
-- `load_from_db` of src/api.rs, the outputs, and the whole load. `outputs_by_input` is a `HashMap`,
-- whose order is not specified; its groups are taken in the order of their first rows.
use stream_gateway.Common.{
  ℕ, Bool, true, false, not, Option, none, some, [], ◌∷◌, ◌++◌, if◌then◌else◌, unwrap_or,
}
use stream_gateway.Common.Texts.{Text, codes, text_eq}
use stream_gateway.Common.Maps.{Map, lookup, insert, extend}
use stream_gateway.Models.Requests.{SrtCommonConfig, SrtOutputConfig, CreateOutputRequest}
use stream_gateway.Streams.State.{OutputInfo, InputInfo, World}
use stream_gateway.Streams.Spawn.{create_udp_output, create_srt_output}
use stream_gateway.Control.Outputs.{store}
use stream_gateway.Database.Tables.{InputRow, OutputRow, Database, get_all_inputs, get_all_outputs}
use stream_gateway.Api.Gateway.{Gateway, Site}
use stream_gateway.Api.LoadInputs.{Readers, base_row, spts_row, load_rows, is_spts_row, rows_with}

-- `SrtCommonConfig::default()`
abbrev default_common : SrtCommonConfig
default_common = record {
  latency_ms = none;
  stream_id = none;
  passphrase = none;
  expected_bitrate_kbps = none;
  fec = none;
}

-- An SRT configuration of which only the address of the older format is known.
abbrev pub legacy_caller : Text → SrtCommonConfig → SrtOutputConfig
legacy_caller destination common = SrtOutputConfig.caller (record {
  remote_host = none;
  remote_port = none;
  common = common;
  bind_host = none;
  destination_addr = some destination;
})

abbrev pub legacy_listener : ℕ → SrtCommonConfig → SrtOutputConfig
legacy_listener port common = SrtOutputConfig.listener (record {
  bind_host = none;
  bind_port = none;
  automatic_port = none;
  common = common;
  listen_port = some port;
})

-- `destination`
unfoldable pub row_destination : OutputRow → Text
row_destination row = unwrap_or row.destination []

unfoldable pub stored_config : Readers → OutputRow → SrtOutputConfig → SrtOutputConfig
stored_config readers row fallback =
    unwrap_or (readers.parse_srt_output (unwrap_or row.config_json [])) fallback

-- `output_config` of a stopped row; `none` for an unknown kind.
unfoldable pub stopped_config : Readers → ℕ → OutputRow → Option CreateOutputRequest
unfolding text_eq row_destination stored_config
stopped_config readers input_id row =
    if text_eq row.kind (codes "udp")
    then some (
        CreateOutputRequest.udp (record {
          input_id = input_id;
          remote_host = none;
          remote_port = none;
          automatic_port = none;
          name = row.name;
          bind_host = none;
          multicast_ttl = none;
          multicast_interface = none;
          destination_addr = some (row_destination row);
        }))
    else if text_eq row.kind (codes "srt_caller")
    then some (
        CreateOutputRequest.srt input_id row.name
          (stored_config readers row (legacy_caller (row_destination row) default_common)))
    else if text_eq row.kind (codes "srt_listener")
    then some (
        CreateOutputRequest.srt input_id row.name (
          stored_config readers row
            (legacy_listener (unwrap_or row.listen_port 8000) default_common)))
    else none

-- What becomes of a row: the entry of its input, and `false` where the load ends with an error.
abbrev pub Restored : Type 0
Restored = World × (InputInfo × Bool)

unfoldable pub add_task : InputInfo → ℕ → World × Option OutputInfo → Restored
unfolding insert
add_task input id (w, none) = (w, (input, true))
add_task input id (w, some info) =
    (w, (record input { output_tasks = insert id info input.output_tasks }, true))

unfoldable pub restore_udp : Readers → Site → World → InputInfo → ℕ → OutputRow → Restored
unfolding row_destination create_udp_output add_task
restore_udp readers site w input id row =
    if readers.is_socket_addr (row_destination row)
    then add_task input id (
        create_udp_output site.platform.resolve w (row_destination row) input id row.name none none)
    else (w, (input, true))

-- `create_srt_output` with the configuration, if the row gives one.
unfoldable pub restore_srt :
    World → ℕ → InputInfo → ℕ → OutputRow → Option SrtOutputConfig → Restored
unfolding create_srt_output add_task
restore_srt w input_id input id row none = (w, (input, false))
restore_srt w input_id input id row (some config) =
    let (v, info) = create_srt_output w input_id config input id row.name in
    add_task input id (v, some info)

-- `output_config` of a row that is not stopped; `none` is an error of the load.
unfoldable pub caller_config : Readers → OutputRow → Option SrtOutputConfig
unfolding row_destination
caller_config readers row =
    elim (readers.parse_srt_common (unwrap_or row.config_json (codes "{}"))) [
      | none ↦ none
      | some common ↦ some (legacy_caller (row_destination row) common)
    ]

unfoldable pub listener_config : Readers → OutputRow → Option SrtOutputConfig
listener_config readers row =
    elim (readers.parse_srt_common (unwrap_or row.config_json (codes "{}"))) [
      | none ↦ none
      | some common ↦ elim row.listen_port [
        | none ↦ none
        | some port ↦ some (legacy_listener port common)
      ]
    ]

unfoldable pub active_output : Readers → Site → World → ℕ → InputInfo → ℕ → OutputRow → Restored
unfolding text_eq restore_udp restore_srt caller_config listener_config
active_output readers site w input_id input id row =
    if text_eq row.kind (codes "udp")
    then restore_udp readers site w input id row
    else if text_eq row.kind (codes "srt_caller")
    then restore_srt w input_id input id row (caller_config readers row)
    else if text_eq row.kind (codes "srt_listener")
    then restore_srt w input_id input id row (listener_config readers row)
    else (w, (input, true))

unfoldable pub stopped_output : Readers → ℕ → InputInfo → ℕ → OutputRow → InputInfo
unfolding stopped_config insert
stopped_output readers input_id input id row = elim (stopped_config readers input_id row) [
  | none ↦ input
  | some config ↦ record input { stopped_outputs = insert id config input.stopped_outputs }
]

-- The body of the loop over the rows of an input.
unfoldable pub restore_output : Readers → Site → World → ℕ → InputInfo → ℕ → OutputRow → Restored
unfolding text_eq stopped_output active_output
restore_output readers site w input_id input id row =
    if text_eq row.status (codes "stopped")
    then (w, (stopped_output readers input_id input id row, true))
    else active_output readers site w input_id input id row

unfoldable pub restore_outputs : Readers → Site → World → ℕ → InputInfo → Map OutputRow → Restored
unfolding restore_output
restore_outputs readers site w input_id input [] = (w, (input, true))
restore_outputs readers site w input_id input ((id, row) ∷ rows) =
    let restored = restore_output readers site w input_id input id row in
    elim restored.1.1 [
      | true ↦ restore_outputs readers site restored.0 input_id restored.1.0 rows
      | false ↦ restored
    ]

-- `outputs_by_input`
unfoldable pub group_rows : Map OutputRow → Map (Map OutputRow) → Map (Map OutputRow)
unfolding lookup insert
group_rows [] groups = groups
group_rows ((id, row) ∷ rows) groups =
    group_rows rows
      (insert row.input_id (unwrap_or (lookup row.input_id groups) [] ++ (id, row) ∷ []) groups)

-- The loop over the groups; the entry of an input is written in place, on an error too.
unfoldable pub load_outputs : Readers → Site → World → Map (Map OutputRow) → World × Bool
unfolding lookup restore_outputs
load_outputs readers site w [] = (w, true)
load_outputs readers site w ((input_id, outputs) ∷ groups) = elim (lookup input_id w.streams) [
  | none ↦ load_outputs readers site w groups
  | some input ↦
      let restored = restore_outputs readers site w input_id input outputs in
      elim restored.1.1 [
        | true ↦ load_outputs readers site (store input_id restored.1.0 restored.0) groups
        | false ↦ (store input_id restored.1.0 restored.0, false)
      ]
]

-- `inputs.insert` of each entry of a phase.
unfoldable pub insert_inputs : World → Map InputInfo → World
unfolding extend
insert_inputs w inputs = record w { streams = extend w.streams inputs }

-- From phase 2 on; the SPTS inputs are inserted once the outputs are read.
unfoldable pub load_spts : Readers → Site → World → Map InputRow → Database → World × Bool
unfolding load_rows spts_row is_spts_row rows_with get_all_outputs insert_inputs load_outputs
    group_rows
load_spts readers site w rows db =
    let (v, result) = load_rows (spts_row readers) w (rows_with is_spts_row rows) [] in
    elim result [
      | none ↦ (v, false)
      | some inputs ↦ elim (get_all_outputs site.answers db) [
        | none ↦ (v, false)
        | some outputs ↦ load_outputs readers site (insert_inputs v inputs) (group_rows outputs [])
      ]
    ]

unfoldable pub is_base : InputRow → Bool
unfolding is_spts_row
is_base row = not (is_spts_row row)

-- From phase 1 on.
unfoldable pub load_inputs : Readers → Site → World → Map InputRow → Database → World × Bool
unfolding load_rows base_row is_base rows_with insert_inputs load_spts
load_inputs readers site w rows db =
    let (v, result) = load_rows (base_row readers) w (rows_with is_base rows) [] in
    elim result [
      | none ↦ (v, false)
      | some inputs ↦ load_spts readers site (insert_inputs v inputs) rows db
    ]

-- `load_from_db`; `false` is its error.
unfoldable pub load_from_db : Readers → Site → Gateway → World × Bool
unfolding get_all_inputs load_inputs
load_from_db readers site g = elim (get_all_inputs site.answers g.database) [
  | none ↦ (g.world, false)
  | some rows ↦ load_inputs readers site g.world rows g.database
]

-- ===== src/Api/LoadReads.antt =====
-- `load_from_db` of src/api.rs, the loops over the inputs: which rows end the load.
use stream_gateway.Common.{
  ℕ, ◌≡◌, ◌≢◌, refl, Bool, true, false, ◌&&◌, ◌||◌, some, [], ◌∷◌, inl, inr, Bool-cases,
  Option-cases, arith, if◌then◌else◌, is_some, unwrap_or,
}
use stream_gateway.Common.Texts.{Text, codes, text_eq}
use stream_gateway.Common.Maps.{Map, insert}
use stream_gateway.Models.Requests.{CreateInputRequest}
use stream_gateway.Streams.State.{InputInfo, World}
use stream_gateway.Database.Tables.{InputRow, OutputRow}
use stream_gateway.Api.Gateway.{Spawned, spawned, refused, spawn_input}
use stream_gateway.Api.LoadInputs.{
  Readers, RowRequest, known, unknown_kind, bad_config, whole_request, srt_request, is_srt,
  stopped_request, active_request, is_stopped_row, idle_row, spawn_row, base_row, active_spts_row,
  spts_row, missing_source, LoadedRow, loaded, skipped, row_error, load_rows, is_spts_row,
  rows_with,
}
use stream_gateway.Api.LoadOutputs.{is_base}

-- The configuration of the row is read, as its kind asks.
abbrev pub input_reads : Readers → InputRow → Bool
input_reads readers row =
    if is_spts_row row || text_eq row.kind (codes "udp")
    then is_some (readers.parse_input row.config_json)
    else if is_srt row.kind
    then is_some (readers.parse_srt_input row.config_json)
    else true

-- So is that of an SRT output that is not stopped, and a listener has its port.
abbrev pub output_reads : Readers → OutputRow → Bool
output_reads readers row =
    let common = is_some (readers.parse_srt_common (unwrap_or row.config_json (codes "{}"))) in
    if text_eq row.status (codes "stopped") || text_eq row.kind (codes "udp")
    then true
    else if text_eq row.kind (codes "srt_caller")
    then common
    else if text_eq row.kind (codes "srt_listener")
    then common && is_some row.listen_port
    else true

-- The test holds of every row.
unfoldable pub every {ℓ} : {R : Type ℓ} → (R → Bool) → Map R → Bool
every test [] = true
every test ((id, row) ∷ rows) = test row && every test rows

spawn_row-reads :
    (w : World) (id : ℕ) (row : InputRow) (req : CreateInputRequest) (failure : Text)
    → (spawn_row w id row req failure).1 ≢ row_error
unfolding spawn_row idle_row
spawn_row-reads w id row req failure = go (spawn_input w req id row.name).1 refl
  where
    go :
        (made : Spawned)
        → (spawn_input w req id row.name).1 ≡ made
        → (spawn_row w id row req failure).1 ≢ row_error
    go (spawned info) e = rw (e, spawn_row) (λ h. ground (arith, h))
    go (refused error) e = rw (e, spawn_row) (λ h. ground (arith, h))

stopped_request-reads :
    (readers : Readers) (row : InputRow)
    → (is_base row && input_reads readers row) ≡ true
    → stopped_request readers row ≢ bad_config
unfolding stopped_request whole_request srt_request is_base is_spts_row
stopped_request-reads readers row reads h = ground (arith, reads, h)

active_request-reads :
    (readers : Readers) (row : InputRow)
    → (is_base row && input_reads readers row) ≡ true
    → active_request readers row ≢ bad_config
unfolding active_request whole_request srt_request is_base is_spts_row
active_request-reads readers row reads h = ground (arith, reads, h)

pub base_row-reads :
    (readers : Readers) (w : World) (id : ℕ) (row : InputRow)
    → (is_base row && input_reads readers row) ≡ true
    → (base_row readers w id row).1 ≢ row_error
unfolding base_row idle_row
base_row-reads readers w id row reads = elim (Bool-cases (is_stopped_row row)) [
  | inl stopped ↦ when_stopped stopped (stopped_request readers row) refl
  | inr running ↦ when_active running (active_request readers row) refl
]
  where
    when_stopped :
        is_stopped_row row ≡ true
        → (request : RowRequest) → stopped_request readers row ≡ request
        → (base_row readers w id row).1 ≢ row_error
    when_stopped s (known req) e = rw (s, e, base_row) (λ h. ground (arith, h))
    when_stopped s unknown_kind e = rw (s, e, base_row) (λ h. ground (arith, h))
    when_stopped s bad_config e = absurd (stopped_request-reads readers row reads e)

    when_active :
        is_stopped_row row ≡ false
        → (request : RowRequest) → active_request readers row ≡ request
        → (base_row readers w id row).1 ≢ row_error
    when_active s (known req) e =
        rw (s, e, base_row) (spawn_row-reads w id row req (codes "Failed to recreate input: "))
    when_active s unknown_kind e = rw (s, e, base_row) (λ h. ground (arith, h))
    when_active s bad_config e = absurd (active_request-reads readers row reads e)

pub spts_row-reads :
    (readers : Readers) (w : World) (id : ℕ) (row : InputRow)
    → (is_spts_row row && input_reads readers row) ≡ true
    → (spts_row readers w id row).1 ≢ row_error
unfolding spts_row idle_row
spts_row-reads readers w id row reads = elim (Option-cases (readers.parse_input row.config_json)) [
  | inl e ↦ absurd (ground (arith, reads, e))
  | inr (req, e) ↦ elim (Bool-cases (is_stopped_row row)) [
    | inl stopped ↦ rw (e, stopped, spts_row) (λ h. ground (arith, h))
    | inr running ↦ elim (Option-cases (missing_source w req)) [
      | inl there ↦
          rw (e, running, there, spts_row, active_spts_row)
            (spawn_row-reads w id row req (codes "Failed to recreate SPTS input: "))
      | inr (source_id, missing) ↦
          rw (e, running, missing, spts_row, active_spts_row) (λ h. ground (arith, h))
    ]
  ]
]

-- A loop whose body gives no error ends with a map.
pub load_rows-reads :
    (reads : InputRow → Bool) (body : World → ℕ → InputRow → World × LoadedRow)
    → ((w : World) (id : ℕ) (row : InputRow) → reads row ≡ true → (body w id row).1 ≢ row_error)
    → (w : World) (rows : Map InputRow) (inputs : Map InputInfo) → every reads rows ≡ true
    → (m : Map InputInfo) × ((load_rows body w rows inputs).1 ≡ some m)
unfolding load_rows every
load_rows-reads reads body sound w [] inputs h = (inputs, refl)
load_rows-reads reads body sound w ((id, row) ∷ rows) inputs h =
    go (λ v m. load_rows-reads reads body sound v rows m (ground (arith, h))) (body w id row).1 refl
  where
    go :
        ((v : World) (m : Map InputInfo)
          → (k : Map InputInfo) × ((load_rows body v rows m).1 ≡ some k))
        → (result : LoadedRow) → (body w id row).1 ≡ result
        → (k : Map InputInfo) × ((load_rows body w ((id, row) ∷ rows) inputs).1 ≡ some k)
    go rest (loaded info) e = rw (e, load_rows) (rest (body w id row).0 (insert id info inputs))
    go rest skipped e = rw (e, load_rows) (rest (body w id row).0 inputs)
    go rest row_error e = absurd (sound w id row (ground (arith, h)) e)

pub every-rows_with :
    (reads test : InputRow → Bool) (rows : Map InputRow)
    → every reads rows ≡ true
    → every (λ (row : InputRow). test row && reads row) (rows_with test rows) ≡ true
unfolding every rows_with
every-rows_with reads test [] h = refl
every-rows_with reads test ((id, row) ∷ rows) h = ground (arith, h, every-rows_with reads test rows)

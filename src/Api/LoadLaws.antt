-- ===== src/Api/LoadLaws.antt =====
-- The bodies of the two loops of `load_from_db` of src/api.rs over the rows of the inputs: what becomes
-- of a row.
use stream_gateway.Common.{
  ℕ, ◌≡◌, ◌≢◌, refl, Bool, true, false, ◌||◌, Option, none, some, ◌++◌, inl, inr, Bool-cases,
  Option-cases, arith,
}
use stream_gateway.Common.Texts.{Text, codes, text_eq, print_nat}
use stream_gateway.Models.Requests.{CreateInputRequest}
use stream_gateway.Models.Status.{StreamStatus}
use stream_gateway.Streams.State.{InputInfo, World}
use stream_gateway.Database.Tables.{InputRow}
use stream_gateway.Api.Gateway.{Spawned, spawned, refused, spawn_input}
use stream_gateway.Api.StoredCreate.{Bare, spawn_input-Bare}
use stream_gateway.Api.LoadInputs.{
  Readers, RowRequest, known, unknown_kind, bad_config, whole_request, srt_request, is_srt,
  stopped_request, active_request, is_stopped_row, idle_row, idle_input_info, spawn_row, base_row,
  active_spts_row, spts_row, missing_source, LoadedRow, loaded, skipped, row_error,
}

-- The entry has the key of the row, and it is stopped if the row says so.
unfoldable pub Fits : ℕ → InputRow → InputInfo → Type 0
unfolding is_stopped_row
Fits id row info =
    (info.id ≡ id)
    × (is_stopped_row row ≡ true → (info.status ≡ StreamStatus.stopped) × (info.task_handle ≡ none))

-- What a body gives for a row, of those kinds that it loads.
unfoldable pub Right : (InputRow → Bool) → ℕ → InputRow → LoadedRow → Type 0
unfolding Fits
Right has id row (loaded info) = Fits id row info
Right has id row skipped = has row ≡ false
Right has id row row_error = Unit

abbrev pub Body : Type 0
Body = World → ℕ → InputRow → World × LoadedRow

-- A body leaves the shared state alone, and gives the right entry.
unfoldable pub Sound : (InputRow → Bool) → Body → Type 0
unfolding Right
Sound has body =
    (w : World) (id : ℕ) (row : InputRow)
    → ((body w id row).0.streams ≡ w.streams) × Right has id row (body w id row).1

idle_row-Sound :
    (has : InputRow → Bool) (w : World) (id : ℕ) (row : InputRow) (req : CreateInputRequest)
    (status : StreamStatus) (error : Option Text)
    → (is_stopped_row row ≡ true → status ≡ StreamStatus.stopped)
    → ((idle_row w id row req status error).0.streams ≡ w.streams)
      × Right has id row (idle_row w id row req status error).1
unfolding idle_row idle_input_info Right Fits
idle_row-Sound has w id row req status error h = (refl, (refl, λ stopped. (h stopped, refl)))

spawn_row-Sound :
    (has : InputRow → Bool) (w : World) (id : ℕ) (row : InputRow) (req : CreateInputRequest)
    (failure : Text)
    → is_stopped_row row ≡ false
    → ((spawn_row w id row req failure).0.streams ≡ w.streams)
      × Right has id row (spawn_row w id row req failure).1
unfolding spawn_row Right Fits idle_row idle_input_info
spawn_row-Sound has w id row req failure running =
    go (spawn_input w req id row.name).1 refl (spawn_input-Bare w req id row.name).1
  where
    same : (spawn_input w req id row.name).0.streams ≡ w.streams
    same = (spawn_input-Bare w req id row.name).0

    go :
        (made : Spawned)
        → (spawn_input w req id row.name).1 ≡ made
        → Bare id made
        → ((spawn_row w id row req failure).0.streams ≡ w.streams)
          × Right has id row (spawn_row w id row req failure).1
    go (spawned info) e bare =
        rw (e, spawn_row) (same, (bare.0, λ stopped. absurd (ground (arith, stopped, running))))
    go (refused error) e bare =
        rw (e, spawn_row) (same, (refl, λ stopped. absurd (ground (arith, stopped, running))))

-- The kinds that phase 1 loads.
abbrev pub is_base_kind : InputRow → Bool
is_base_kind row = text_eq row.kind (codes "udp") || is_srt row.kind

whole_request-known :
    (readers : Readers) (row : InputRow) → whole_request readers row ≢ unknown_kind
unfolding whole_request
whole_request-known readers row h = ground arith

srt_request-known :
    (readers : Readers) (name : Option Text) (row : InputRow)
    → srt_request readers name row ≢ unknown_kind
unfolding srt_request
srt_request-known readers name row h = ground arith

stopped_request-unknown :
    (readers : Readers) (row : InputRow)
    → stopped_request readers row ≡ unknown_kind
    → is_base_kind row ≡ false
unfolding stopped_request
stopped_request-unknown readers row h =
    ground (arith, whole_request-known readers row, srt_request-known readers row.name row)

active_request-unknown :
    (readers : Readers) (row : InputRow)
    → active_request readers row ≡ unknown_kind
    → is_base_kind row ≡ false
unfolding active_request
active_request-unknown readers row h =
    ground (arith, whole_request-known readers row, srt_request-known readers none row)

pub base_row-Sound : (readers : Readers) → Sound is_base_kind (base_row readers)
unfolding Sound base_row Right
base_row-Sound readers w id row = elim (Bool-cases (is_stopped_row row)) [
  | inl stopped ↦ when_stopped stopped (stopped_request readers row) refl
  | inr running ↦ when_active running (active_request readers row) refl
]
  where
    Goal : Type 0
    Goal =
        ((base_row readers w id row).0.streams ≡ w.streams)
        × Right is_base_kind id row (base_row readers w id row).1

    when_stopped :
        is_stopped_row row ≡ true
        → (request : RowRequest) → stopped_request readers row ≡ request
        → Goal
    when_stopped s (known req) e =
        rw (s, e, base_row)
          (idle_row-Sound is_base_kind w id row req StreamStatus.stopped none (λ t. refl))
    when_stopped s unknown_kind e =
        rw (s, e, base_row) (refl, stopped_request-unknown readers row e)
    when_stopped s bad_config e = rw (s, e, base_row) (refl, tt)

    when_active :
        is_stopped_row row ≡ false
        → (request : RowRequest) → active_request readers row ≡ request
        → Goal
    when_active s (known req) e =
        rw (s, e, base_row)
          (spawn_row-Sound is_base_kind w id row req (codes "Failed to recreate input: ") s)
    when_active s unknown_kind e = rw (s, e, base_row) (refl, active_request-unknown readers row e)
    when_active s bad_config e = rw (s, e, base_row) (refl, tt)

abbrev pub any_row : InputRow → Bool
any_row row = true

pub spts_row-Sound : (readers : Readers) → Sound any_row (spts_row readers)
unfolding Sound spts_row Right
spts_row-Sound readers w id row = elim (Option-cases (readers.parse_input row.config_json)) [
  | inl e ↦ rw (e, spts_row) (refl, tt)
  | inr (req, e) ↦ elim (Bool-cases (is_stopped_row row)) [
    | inl stopped ↦
        rw (e, stopped, spts_row)
          (idle_row-Sound any_row w id row req StreamStatus.stopped none (λ s. refl))
    | inr running ↦ elim (Option-cases (missing_source w req)) [
      | inl there ↦
          rw (e, running, there, spts_row, active_spts_row)
            (spawn_row-Sound any_row w id row req (codes "Failed to recreate SPTS input: ") running)
      | inr (source_id, missing) ↦
          rw (e, running, missing, spts_row, active_spts_row)
            (idle_row-Sound any_row w id row req StreamStatus.stopped
              (some (codes "Source input " ++ (print_nat source_id ++ codes " not found")))
              (λ s. refl))
    ]
  ]
]

-- ===== src/Api/LoadComplete.antt =====
-- `load_from_db` of src/api.rs: every input of the table is in the shared state after it.
use stream_gateway.Common.{
  ℕ, ◌≡◌, ◌⊎◌, ◌∙◌, sym, refl, Bool, true, false, ◌||◌, Option, none, some, [], inl, inr,
  Bool-cases, Option-cases, arith, ap,
}
use stream_gateway.Common.Texts.{text_eq}
use stream_gateway.Common.Maps.{
  Map, lookup, Distinct, extend, lookup-extend-some, lookup-extend-none,
}
use stream_gateway.Models.Status.{StreamStatus}
use stream_gateway.Streams.State.{InputInfo, World}
use stream_gateway.Database.Tables.{
  InputRow, OutputRow, Database, Statement, get_all_inputs, get_all_outputs,
}
use stream_gateway.Api.Gateway.{Gateway, Site}
use stream_gateway.Api.LoadInputs.{
  Readers, is_stopped_row, is_srt, is_spts_row, base_row, spts_row, load_rows, rows_with,
}
use stream_gateway.Api.LoadOutputs.{
  group_rows, load_outputs, insert_inputs, load_spts, is_base, load_inputs, load_from_db,
}
use stream_gateway.Api.LoadLaws.{Fits, is_base_kind, any_row, base_row-Sound, spts_row-Sound}
use stream_gateway.Api.LoadKept.{Holds, load_outputs-Holds}
use stream_gateway.Api.LoadRows.{
  Filled, load_rows-Filled, rows_with-hit, rows_with-miss, rows_with-Distinct,
}

-- The entry of the row that `Fits` describes, with outputs of any kind.
abbrev Loaded : ℕ → InputRow → World → Type 0
Loaded id row w = (info : InputInfo) × (lookup id w.streams ≡ some info) × Fits id row info

Holds-Loaded :
    (id : ℕ) (row : InputRow) (info : InputInfo) (w : World)
    → Fits id row info
    → Holds id info w
    → Loaded id row w
unfolding Fits
Holds-Loaded id row info w (i, stopped) (other, l, (j, t, h)) =
    (other, l, (j ∙ i, λ s. (t ∙ (stopped s).0, h ∙ (stopped s).1)))

module _ (readers : Readers) (site : Site) (w : World) (rows : Map InputRow) (db : Database)
    (id : ℕ) (row : InputRow) (distinct : Distinct rows) (found : lookup id rows ≡ some row) where
  phase_two : World × Option (Map InputInfo)
  phase_two = load_rows (spts_row readers) w (rows_with is_spts_row rows) []

  phase_two-Filled : Filled any_row (rows_with is_spts_row rows) [] w phase_two
  unfolding Distinct phase_two
  phase_two-Filled =
      load_rows-Filled any_row (spts_row readers) (spts_row-Sound readers) w
        (rows_with is_spts_row rows) [] (rows_with-Distinct is_spts_row rows distinct) tt

  after_outputs :
      (m : Map InputInfo) (outputs : Map OutputRow) (info : InputInfo)
      → Fits id row info
      → lookup id (extend phase_two.0.streams m) ≡ some info
      → Loaded id row
          (load_outputs readers site (insert_inputs phase_two.0 m) (group_rows outputs [])).0
  unfolding insert_inputs
  after_outputs m outputs info fits l =
      Holds-Loaded id row info
        (load_outputs readers site (insert_inputs phase_two.0 m) (group_rows outputs [])).0 fits
        (load_outputs-Holds readers site (insert_inputs phase_two.0 m) (group_rows outputs []) id
          info l)

  -- An entry of phase 1 is still there.
  load_spts-keeps :
      (info : InputInfo)
      → (load_spts readers site w rows db).1 ≡ true
      → is_spts_row row ≡ false
      → Fits id row info
      → lookup id w.streams ≡ some info
      → Loaded id row (load_spts readers site w rows db).0
  unfolding load_spts get_all_outputs insert_inputs Filled phase_two
  load_spts-keeps info ok base fits l = go phase_two.1 refl
    where
      kept :
          (m : Map InputInfo)
          → phase_two.1 ≡ some m
          → lookup id (extend phase_two.0.streams m) ≡ some info
      kept m e =
          lookup-extend-none id phase_two.0.streams m (
            (phase_two-Filled.1 m e).1 id
              (rows_with-miss is_spts_row id row rows distinct found base))
          ∙ ap (lookup id) phase_two-Filled.0
          ∙ l

      go :
          (result : Option (Map InputInfo))
          → phase_two.1 ≡ result
          → Loaded id row (load_spts readers site w rows db).0
      go none e = absurd (ground (arith, ok, e))
      go (some m) e = elim (Option-cases (get_all_outputs site.answers db)) [
        | inl failed ↦ absurd (ground (arith, ok, e, failed))
        | inr (outputs, f) ↦ rw (e, f, load_spts) (after_outputs m outputs info fits (kept m e))
      ]

  -- An SPTS row has an entry.
  load_spts-loads :
      (load_spts readers site w rows db).1 ≡ true
      → is_spts_row row ≡ true
      → Loaded id row (load_spts readers site w rows db).0
  unfolding load_spts get_all_outputs insert_inputs Filled phase_two
  load_spts-loads ok spts = go phase_two.1 refl
    where
      go :
          (result : Option (Map InputInfo))
          → phase_two.1 ≡ result
          → Loaded id row (load_spts readers site w rows db).0
      go none e = absurd (ground (arith, ok, e))
      go (some m) e =
          let filled = phase_two-Filled.1 m e in
          let (info, l, fits) =
            filled.2 id row (rows_with-hit is_spts_row id row rows distinct found spts) refl in
          elim (Option-cases (get_all_outputs site.answers db)) [
            | inl failed ↦ absurd (ground (arith, ok, e, failed))
            | inr (outputs, f) ↦
                rw (e, f, load_spts)
                  (after_outputs m outputs info fits
                    (lookup-extend-some id info phase_two.0.streams m filled.0 l))
          ]

-- The kinds that `load_from_db` knows.
unfoldable pub is_known_kind : InputRow → Bool
unfolding text_eq is_srt is_spts_row
is_known_kind row = is_base_kind row || is_spts_row row

module _ (readers : Readers) (site : Site) (w : World) (rows : Map InputRow) (db : Database)
    (id : ℕ) (row : InputRow) (distinct : Distinct rows) (found : lookup id rows ≡ some row) where
  phase_one : World × Option (Map InputInfo)
  phase_one = load_rows (base_row readers) w (rows_with is_base rows) []

  phase_one-Filled : Filled is_base_kind (rows_with is_base rows) [] w phase_one
  unfolding Distinct phase_one
  phase_one-Filled =
      load_rows-Filled is_base_kind (base_row readers) (base_row-Sound readers) w
        (rows_with is_base rows) [] (rows_with-Distinct is_base rows distinct) tt

  after_one :
      (m : Map InputInfo)
      → phase_one.1 ≡ some m
      → load_inputs readers site w rows db
        ≡ load_spts readers site (insert_inputs phase_one.0 m) rows db
  unfolding load_inputs phase_one insert_inputs
  after_one m e = rw (e, load_inputs) refl

  load_inputs-Loaded :
      (load_inputs readers site w rows db).1 ≡ true
      → is_known_kind row ≡ true
      → Loaded id row (load_inputs readers site w rows db).0
  unfolding load_inputs insert_inputs Filled phase_one is_known_kind is_base
  load_inputs-Loaded ok known = go phase_one.1 refl
    where
      success :
          (m : Map InputInfo)
          → phase_one.1 ≡ some m
          → (load_spts readers site (insert_inputs phase_one.0 m) rows db).1 ≡ true
      success m e = sym (ap (λ (r : World × Bool). r.1) (after_one m e)) ∙ ok

      go :
          (result : Option (Map InputInfo))
          → phase_one.1 ≡ result
          → Loaded id row (load_inputs readers site w rows db).0
      go none e = absurd (ground (arith, ok, e))
      go (some m) e =
          rw (e, load_inputs)
            (elim (Bool-cases (is_spts_row row)) [
              | inl spts ↦
                  load_spts-loads readers site (insert_inputs phase_one.0 m) rows db id row distinct
                    found (success m e) spts
              | inr base ↦
                  let filled = phase_one-Filled.1 m e in
                  let (info, l, fits) =
                    filled.2 id row
                      (rows_with-hit is_base id row rows distinct found (ground (arith, base)))
                      (ground (arith, base, known)) in
                  load_spts-keeps readers site (insert_inputs phase_one.0 m) rows db id row distinct
                    found info (success m e) base fits
                    (lookup-extend-some id info phase_one.0.streams m filled.0 l)
            ])

after_read :
    (readers : Readers) (site : Site) (g : Gateway)
    → site.answers Statement.select_inputs ≡ true
    → load_from_db readers site g ≡ load_inputs readers site g.world g.database.inputs g.database
unfolding load_from_db get_all_inputs
after_read readers site g read = rw (read, load_from_db) refl

-- If no key is twice in the table of inputs and the load ends without an error, every input of the
-- table of a kind that the load knows is in the shared state, under its key and with its id, whether or
-- not it could be started; if its row says that it was stopped, the entry is stopped and has no task.
pub load_from_db-loads :
    (readers : Readers) (site : Site) (g : Gateway) (id : ℕ) (row : InputRow)
    → Distinct g.database.inputs
    → (load_from_db readers site g).1 ≡ true
    → lookup id g.database.inputs ≡ some row
    → is_known_kind row ≡ true
    → (info : InputInfo) × (lookup id (load_from_db readers site g).0.streams ≡ some info)
      × (info.id ≡ id)
      × ((is_stopped_row row ≡ false)
          ⊎ ((info.status ≡ StreamStatus.stopped) × (info.task_handle ≡ none)))
unfolding load_from_db get_all_inputs Fits
load_from_db-loads readers site g id row distinct ok found known =
    elim (Bool-cases (site.answers Statement.select_inputs)) [
      | inl read ↦ rw (read, load_from_db) (described (success read))
      | inr failed ↦ absurd (ground (arith, ok, failed))
    ]
  where
    v : World × Bool
    v = load_inputs readers site g.world g.database.inputs g.database

    success : site.answers Statement.select_inputs ≡ true → v.1 ≡ true
    success read = sym (ap (λ (r : World × Bool). r.1) (after_read readers site g read)) ∙ ok

    described :
        v.1 ≡ true
        → (info : InputInfo) × (lookup id v.0.streams ≡ some info)
          × (info.id ≡ id)
          × ((is_stopped_row row ≡ false)
              ⊎ ((info.status ≡ StreamStatus.stopped) × (info.task_handle ≡ none)))
    described done =
        let (info, l, (same, stopped)) =
          load_inputs-Loaded readers site g.world g.database.inputs g.database id row distinct found
            done known in
        (
          info,
          l,
          same,
          elim (Bool-cases (is_stopped_row row)) [ inl s ↦ inr (stopped s) | inr s ↦ inl s ],
        )

-- ===== src/Api/LoadRows.antt =====
-- The loops of `load_from_db` of src/api.rs over the rows of the inputs: what the map of entries holds
-- after them.
use stream_gateway.Common.{
  ℕ, ◌≡◌, ◌∙◌, sym, refl, Bool, true, false, Option, none, some, [], ◌∷◌, ◌==◌, inl, inr,
  Bool-cases, arith, subst, ap, if◌then◌else◌, some-injective,
}
use stream_gateway.Common.Maps.{
  Map, lookup, insert, Distinct, insert-Distinct, lookup-insert, lookup-insert_self,
}
use stream_gateway.Streams.State.{InputInfo, World}
use stream_gateway.Database.Tables.{InputRow}
use stream_gateway.Api.LoadInputs.{LoadedRow, loaded, skipped, row_error, load_rows, rows_with}
use stream_gateway.Api.LoadLaws.{Fits, Right, Body, Sound}

module _ (test : InputRow → Bool) where
  pub lookup-rows_with-none :
      (id : ℕ) (rows : Map InputRow)
      → lookup id rows ≡ none
      → lookup id (rows_with test rows) ≡ none
  unfolding lookup rows_with
  lookup-rows_with-none id [] h = refl
  lookup-rows_with-none id ((j, row) ∷ rows) h = ground (arith, lookup-rows_with-none id rows)

  lookup-rows_with :
      (id : ℕ) (row : InputRow) (rows : Map InputRow)
      → Distinct rows
      → lookup id rows ≡ some row
      → lookup id (rows_with test rows) ≡ (if test row then some row else none)
  unfolding lookup rows_with Distinct
  lookup-rows_with id row [] d h = absurd (ground arith)
  lookup-rows_with id row ((j, other) ∷ rows) (fresh, d) h =
      ground (arith, lookup-rows_with id row rows d, lookup-rows_with-none id rows)

  pub rows_with-hit :
      (id : ℕ) (row : InputRow) (rows : Map InputRow)
      → Distinct rows
      → lookup id rows ≡ some row
      → test row ≡ true
      → lookup id (rows_with test rows) ≡ some row
  rows_with-hit id row rows d h passes = ground (arith, passes, lookup-rows_with id row rows d h)

  pub rows_with-miss :
      (id : ℕ) (row : InputRow) (rows : Map InputRow)
      → Distinct rows
      → lookup id rows ≡ some row
      → test row ≡ false
      → lookup id (rows_with test rows) ≡ none
  rows_with-miss id row rows d h fails = ground (arith, fails, lookup-rows_with id row rows d h)

  pub rows_with-Distinct : (rows : Map InputRow) → Distinct rows → Distinct (rows_with test rows)
  unfolding rows_with Distinct
  rows_with-Distinct [] d = tt
  rows_with-Distinct ((j, row) ∷ rows) (fresh, d) = elim (Bool-cases (test row)) [
    | inl e ↦ rw e (lookup-rows_with-none j rows fresh, rows_with-Distinct rows d)
    | inr e ↦ rw e (rows_with-Distinct rows d)
  ]

-- What the loop makes of `inputs`: it leaves the shared state alone, keeps the keys apart and what other
-- keys hold, and has an entry of every row of the kinds `has`.
unfoldable pub Filled :
    (InputRow → Bool)
    → Map InputRow
    → Map InputInfo
    → World
    → World × Option (Map InputInfo)
    → Type 0
Filled has rows inputs w result =
    (result.0.streams ≡ w.streams)
    × ((m : Map InputInfo)
        → result.1 ≡ some m
        → Distinct m
          × ((id : ℕ) → lookup id rows ≡ none → lookup id m ≡ lookup id inputs)
          × ((id : ℕ) (row : InputRow)
              → lookup id rows ≡ some row
              → has row ≡ true
              → (info : InputInfo) × (lookup id m ≡ some info) × Fits id row info))

module _ (has : InputRow → Bool) (id : ℕ) (row : InputRow) (rows : Map InputRow)
    (inputs : Map InputInfo) (w v : World) (result : World × Option (Map InputInfo)) where
  -- The row at the head was loaded.
  loaded-Filled :
      (info : InputInfo)
      → v.streams ≡ w.streams
      → lookup id rows ≡ none
      → Fits id row info
      → Filled has rows (insert id info inputs) v result
      → Filled has ((id, row) ∷ rows) inputs w result
  unfolding Filled lookup
  loaded-Filled info same fresh fits filled = (
    filled.0 ∙ same,
    λ m e.
        let kept = (filled.1 m e).1 in
        (
          (filled.1 m e).0,
          (λ j h. others j m h (kept j)),
          λ j other l known. elim (Bool-cases (id == j)) [
            | inl hit ↦
                subst (λ (key : ℕ). (i : InputInfo) × (lookup key m ≡ some i) × Fits key other i)
                  (ground arith)
                  (
                    info,
                    kept id fresh ∙ lookup-insert_self id info inputs,
                    subst (λ (r : InputRow). Fits id r info) (head j other l hit) fits,
                  )
            | inr miss ↦ (filled.1 m e).2 j other (tail j l miss) known
          ],
        ),
  )
    where
      others :
          (j : ℕ) (m : Map InputInfo)
          → lookup j ((id, row) ∷ rows) ≡ none
          → (lookup j rows ≡ none → lookup j m ≡ lookup j (insert id info inputs))
          → lookup j m ≡ lookup j inputs
      others j m h kept = ground (arith, h, kept, lookup-insert id j info inputs)

      head :
          (j : ℕ) (other : InputRow)
          → lookup j ((id, row) ∷ rows) ≡ some other
          → (id == j) ≡ true
          → row ≡ other
      head j other l hit = ground (arith, l, hit)

      tail :
          (j : ℕ) {other : InputRow}
          → lookup j ((id, row) ∷ rows) ≡ some other
          → (id == j) ≡ false
          → lookup j rows ≡ some other
      tail j l miss = ground (arith, l, miss)

  -- The row at the head is of another kind.
  skipped-Filled :
      v.streams ≡ w.streams
      → has row ≡ false
      → Filled has rows inputs v result
      → Filled has ((id, row) ∷ rows) inputs w result
  unfolding Filled lookup
  skipped-Filled same other_kind filled = (
    filled.0 ∙ same,
    λ m e. (
      (filled.1 m e).0,
      (λ j h. (filled.1 m e).1 j (ground (arith, h))),
      λ j other l known. (filled.1 m e).2 j other (tail j other l known) known,
    ),
  )
    where
      head :
          (j : ℕ) (other : InputRow)
          → lookup j ((id, row) ∷ rows) ≡ some other
          → (id == j) ≡ true
          → row ≡ other
      head j other l hit = ground (arith, l, hit)

      tail :
          (j : ℕ) (other : InputRow)
          → lookup j ((id, row) ∷ rows) ≡ some other
          → has other ≡ true
          → lookup j rows ≡ some other
      tail j other l known = elim (Bool-cases (id == j)) [
        | inl hit ↦ absurd (ground (arith, known, other_kind, ap has (head j other l hit)))
        | inr miss ↦ ground (arith, l, miss)
      ]

module _ (has : InputRow → Bool) (body : Body) (sound : Sound has body) where
  step-loaded :
      (w : World) (id : ℕ) (row : InputRow) (rows : Map InputRow) (inputs : Map InputInfo)
      (info : InputInfo)
      → (body w id row).1 ≡ loaded info
      → load_rows body w ((id, row) ∷ rows) inputs
        ≡ load_rows body (body w id row).0 rows (insert id info inputs)
  unfolding load_rows
  step-loaded w id row rows inputs info e = rw (e, load_rows) refl

  step-skipped :
      (w : World) (id : ℕ) (row : InputRow) (rows : Map InputRow) (inputs : Map InputInfo)
      → (body w id row).1 ≡ skipped
      → load_rows body w ((id, row) ∷ rows) inputs ≡ load_rows body (body w id row).0 rows inputs
  unfolding load_rows
  step-skipped w id row rows inputs e = rw (e, load_rows) refl

  step-error :
      (w : World) (id : ℕ) (row : InputRow) (rows : Map InputRow) (inputs : Map InputInfo)
      → (body w id row).1 ≡ row_error
      → load_rows body w ((id, row) ∷ rows) inputs ≡ ((body w id row).0, none)
  unfolding load_rows
  step-error w id row rows inputs e = rw (e, load_rows) refl

  pub load_rows-Filled :
      (w : World) (rows : Map InputRow) (inputs : Map InputInfo)
      → Distinct rows
      → Distinct inputs
      → Filled has rows inputs w (load_rows body w rows inputs)
  unfolding load_rows Distinct Filled Sound
  load_rows-Filled w [] inputs d apart = (
    refl,
    λ m e. (
      subst (λ (o : Map InputInfo). Distinct o) (some-injective e) apart,
      (λ id h. ap (lookup id) (sym (some-injective e))),
      λ id row l known. absurd (ground arith),
    ),
  )
  load_rows-Filled w ((id, row) ∷ rows) inputs (fresh, d) apart =
      go (λ v inputs. load_rows-Filled v rows inputs d) (body w id row).1 refl (sound w id row).1
    where
      v : World
      v = (body w id row).0

      go :
          ((v : World) (inputs : Map InputInfo)
            → Distinct inputs
            → Filled has rows inputs v (load_rows body v rows inputs))
          → (result : LoadedRow) → (body w id row).1 ≡ result
          → Right has id row result
          → Filled has ((id, row) ∷ rows) inputs w (load_rows body w ((id, row) ∷ rows) inputs)
      go rest (loaded info) e fits =
          subst (Filled has ((id, row) ∷ rows) inputs w)
            (sym (step-loaded w id row rows inputs info e))
            (loaded-Filled has id row rows inputs w v
              (load_rows body v rows (insert id info inputs)) info (sound w id row).0 fresh fits
              (rest v (insert id info inputs) (insert-Distinct id info inputs apart)))
      go rest skipped e other_kind =
          subst (Filled has ((id, row) ∷ rows) inputs w) (sym (step-skipped w id row rows inputs e))
            (skipped-Filled has id row rows inputs w v (load_rows body v rows inputs)
              (sound w id row).0 other_kind (rest v inputs apart))
      go rest row_error e u =
          subst (Filled has ((id, row) ∷ rows) inputs w) (sym (step-error w id row rows inputs e))
            ((sound w id row).0, λ m none_some. absurd (ground (arith, none_some)))

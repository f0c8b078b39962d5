-- ===== src/Database/Laws.antt =====
-- What the statements of src/database.rs do to the rows.
use stream_gateway.Common.{
  ℕ, ◌≤◌, ◌≡◌, ◌≢◌, refl, sym, ◌∙◌, ◌&&◌, ◌==◌, true, false, Option, none, some, [], ◌∷◌, inl, inr,
  if◌then◌else◌, Bool-cases, Option-cases, arith,
}
use stream_gateway.Common.Texts.{Text}
use stream_gateway.Common.Maps.{Map, lookup, insert, contains_key, lookup-insert}
use stream_gateway.Models.Requests.{CreateInputRequest}
use stream_gateway.Database.Tables.{
  InputRow, OutputRow, Database, Json, Answers, insert_input, insert_output, update_input_status,
  update_output_status, update_input, update_output, new_input_row, save_input_to_db, without_input,
  save_output_to_db, update_row, update_input_status_in_db, update_output_status_in_db,
  update_input_in_db, update_output_in_db,
}

pub without_input-kept :
    (id key : ℕ) (row : OutputRow) (rows : Map OutputRow)
    → lookup key rows ≡ some row
    → row.input_id ≢ id
    → lookup key (without_input id rows) ≡ some row
unfolding without_input lookup
without_input-kept id key row [] l n = absurd (ground arith)
without_input-kept id key row ((other, held) ∷ rows) l n = elim (Bool-cases (other == key)) [
  | inl same ↦ ground (arith, same, l, n)
  | inr miss ↦ ground (arith, miss, l, n, without_input-kept id key row rows)
]

pub without_input-gone :
    (id key : ℕ) (row : OutputRow) (rows : Map OutputRow)
    → lookup key (without_input id rows) ≡ some row
    → row.input_id ≢ id
unfolding without_input lookup
without_input-gone id key row [] l = absurd (ground arith)
without_input-gone id key row ((other, held) ∷ rows) l =
    ground (arith, l, without_input-gone id key row rows)

pub without_input-none :
    (id key : ℕ) (rows : Map OutputRow)
    → lookup key rows ≡ none
    → lookup key (without_input id rows) ≡ none
unfolding without_input lookup
without_input-none id key [] l = l
without_input-none id key ((other, held) ∷ rows) l =
    ground (arith, l, without_input-none id key rows)

-- `f` of the row, where there is one.
abbrev pub changed {ℓ} : {R : Type ℓ} → (R → R) → Option R → Option R
changed f none = none
changed f (some row) = some (f row)

pub lookup-update_row {ℓ} :
    {R : Type ℓ} (id key : ℕ) (f : R → R) (rows : Map R)
    → lookup key (update_row id f rows)
      ≡ (if id == key then changed f (lookup key rows) else lookup key rows)
unfolding update_row
lookup-update_row id key f rows = elim (Option-cases (lookup id rows)) [
  | inl e ↦ rw (e, update_row) (ground (arith, e))
  | inr (row, e) ↦ rw (e, update_row) (ground (arith, e, lookup-insert id key (f row) rows))
]

-- The output has a row, and it is one of the input.
unfoldable pub Row : Database → ℕ → ℕ → Type 0
unfolding lookup
Row db input_id id =
    (row : OutputRow) × (lookup id db.outputs ≡ some row) × (row.input_id ≡ input_id)

-- The keys that were not given out have no row.
unfoldable pub Fresh : Database → Type 0
unfolding lookup
Fresh db = (id : ℕ) → db.next_output ≤ id → lookup id db.outputs ≡ none

-- No row of the tables goes, and no output changes its input.
unfoldable pub Keeps : Database → Database → Type 0
unfolding Row Fresh contains_key
Keeps db after =
    (Fresh db → Fresh after)
    × ((id : ℕ) → contains_key id db.inputs ≡ true → contains_key id after.inputs ≡ true)
    × ((input_id id : ℕ) → Fresh db → Row db input_id id → Row after input_id id)

pub Keeps-refl : (db : Database) → Keeps db db
unfolding Keeps
Keeps-refl db = (λ f. f, λ id h. h, λ input_id id f r. r)

pub Keeps-trans : (a b c : Database) → Keeps a b → Keeps b c → Keeps a c
unfolding Keeps
Keeps-trans a b c (f, i, o) (f', i', o') = (
  λ x. f' (f x),
  λ id h. i' id (i id h),
  λ input_id id x r. o' input_id id (f x) (o input_id id x r),
)

pub save_input-Keeps :
    (answers : Answers) (json : Json) (name : Option Text) (request : CreateInputRequest)
    (db : Database)
    → Keeps db (save_input_to_db answers json name request db).0
unfolding Keeps Row Fresh save_input_to_db contains_key
save_input-Keeps answers json name request db = elim (Bool-cases (answers insert_input)) [
  | inl e ↦
      rw (e, save_input_to_db)
        (
          λ f. f,
          λ id h. ground (
            arith,
            h,
            lookup-insert db.next_input id (new_input_row json name request) db.inputs,
          ),
          λ input_id id f r. r,
        )
  | inr e ↦ rw (e, save_input_to_db) (Keeps-refl db)
]

update_inputs-Keeps :
    (db : Database) (id : ℕ) (f : InputRow → InputRow)
    → Keeps db (record db { inputs = update_row id f db.inputs })
unfolding Keeps Row Fresh contains_key
update_inputs-Keeps db id f = (
  λ fresh. fresh,
  λ key h. ground (arith, h, lookup-update_row id key f db.inputs),
  λ input_id key fresh r. r,
)

update_outputs-Keeps :
    (db : Database) (id : ℕ) (f : OutputRow → OutputRow)
    → ((row : OutputRow) → (f row).input_id ≡ row.input_id)
    → Keeps db (record db { outputs = update_row id f db.outputs })
unfolding Keeps Row Fresh contains_key
update_outputs-Keeps db id f same = (
  λ fresh key h. ground (arith, fresh key h, lookup-update_row id key f db.outputs),
  λ key h. h,
  λ input_id key fresh (row, l, e). elim (Bool-cases (id == key)) [
    | inl hit ↦ (f row, ground (arith, hit, l, lookup-update_row id key f db.outputs), same row ∙ e)
    | inr miss ↦ (row, ground (arith, miss, l, lookup-update_row id key f db.outputs), e)
  ],
)

pub save_output-Keeps :
    (answers : Answers) (row : OutputRow) (db : Database)
    → Keeps db (save_output_to_db answers row db).0
unfolding Keeps Row Fresh save_output_to_db
save_output-Keeps answers row db =
    elim (Bool-cases (answers insert_output && contains_key row.input_id db.inputs)) [
      | inl e ↦
          rw (e, save_output_to_db)
            (
              λ fresh key h.
                  ground (arith, h, fresh key, lookup-insert db.next_output key row db.outputs),
              λ key h. h,
              λ input_id key fresh (held, l, e). (
                held,
                ground (
                  arith,
                  l,
                  fresh db.next_output,
                  lookup-insert db.next_output key row db.outputs,
                ),
                e,
              ),
            )
      | inr e ↦ rw (e, save_output_to_db) (Keeps-refl db)
    ]

pub input_status-Keeps :
    (answers : Answers) (id : ℕ) (status : Text) (db : Database)
    → Keeps db (update_input_status_in_db answers id status db).0
unfolding update_input_status_in_db
input_status-Keeps answers id status db = elim (Bool-cases (answers update_input_status)) [
  | inl e ↦ rw (e, update_input_status_in_db) (update_inputs-Keeps db id _)
  | inr e ↦ rw (e, update_input_status_in_db) (Keeps-refl db)
]

pub output_status-Keeps :
    (answers : Answers) (id : ℕ) (status : Text) (db : Database)
    → Keeps db (update_output_status_in_db answers id status db).0
unfolding update_output_status_in_db
output_status-Keeps answers id status db = elim (Bool-cases (answers update_output_status)) [
  | inl e ↦ rw (e, update_output_status_in_db) (update_outputs-Keeps db id _ (λ row. refl))
  | inr e ↦ rw (e, update_output_status_in_db) (Keeps-refl db)
]

pub update_input-Keeps :
    (answers : Answers) (id : ℕ) (name : Option Text) (config_json : Text) (db : Database)
    → Keeps db (update_input_in_db answers id name config_json db).0
unfolding update_input_in_db
update_input-Keeps answers id name config_json db = elim (Bool-cases (answers update_input)) [
  | inl e ↦ rw (e, update_input_in_db) (update_inputs-Keeps db id _)
  | inr e ↦ rw (e, update_input_in_db) (Keeps-refl db)
]

pub update_output-Keeps :
    (answers : Answers) (id : ℕ) (name : Option Text) (destination : Text)
    (config_json : Option Text) (listen_port : Option ℕ) (db : Database)
    → Keeps db (update_output_in_db answers id name destination config_json listen_port db).0
unfolding update_output_in_db
update_output-Keeps answers id name destination config_json listen_port db =
    elim (Bool-cases (answers update_output)) [
      | inl e ↦ rw (e, update_output_in_db) (update_outputs-Keeps db id _ (λ row. refl))
      | inr e ↦ rw (e, update_output_in_db) (Keeps-refl db)
    ]

-- A key that was given out has a row.
pub save_input-known :
    (answers : Answers) (json : Json) (name : Option Text) (request : CreateInputRequest)
    (db : Database) (id : ℕ)
    → (save_input_to_db answers json name request db).1 ≡ some id
    → contains_key id (save_input_to_db answers json name request db).0.inputs ≡ true
unfolding save_input_to_db contains_key
save_input-known answers json name request db id e = elim (Bool-cases (answers insert_input)) [
  | inl h ↦
      rw (h, save_input_to_db)
        (ground (
          arith,
          sym (given h) ∙ e,
          lookup-insert db.next_input id (new_input_row json name request) db.inputs,
        ))
  | inr h ↦ absurd (ground (arith, sym (denied h) ∙ e))
]
  where
    given :
        answers insert_input ≡ true
        → (save_input_to_db answers json name request db).1 ≡ some db.next_input
    given h = rw (h, save_input_to_db) refl

    denied : answers insert_input ≡ false → (save_input_to_db answers json name request db).1 ≡ none
    denied h = rw (h, save_input_to_db) refl

-- So has that of an output: the row that was saved, under the next key.
pub save_output-known :
    (answers : Answers) (row : OutputRow) (db : Database) (id : ℕ)
    → (save_output_to_db answers row db).1 ≡ some id
    → (id ≡ db.next_output)
      × ((save_output_to_db answers row db).0.outputs ≡ insert db.next_output row db.outputs)
unfolding save_output_to_db
save_output-known answers row db id e =
    elim (Bool-cases (answers insert_output && contains_key row.input_id db.inputs)) [
      | inl h ↦ (ground (arith, sym (given h) ∙ e), rw (h, save_output_to_db) refl)
      | inr h ↦ absurd (ground (arith, sym (denied h) ∙ e))
    ]
  where
    given :
        (answers insert_output && contains_key row.input_id db.inputs) ≡ true
        → (save_output_to_db answers row db).1 ≡ some db.next_output
    given h = rw (h, save_output_to_db) refl

    denied :
        (answers insert_output && contains_key row.input_id db.inputs) ≡ false
        → (save_output_to_db answers row db).1 ≡ none
    denied h = rw (h, save_output_to_db) refl

pub save_output-unknown :
    (answers : Answers) (row : OutputRow) (db : Database)
    → (save_output_to_db answers row db).1 ≡ none
    → (save_output_to_db answers row db).0 ≡ db
unfolding save_output_to_db
save_output-unknown answers row db e =
    elim (Bool-cases (answers insert_output && contains_key row.input_id db.inputs)) [
      | inl h ↦ absurd (ground (arith, sym (given h) ∙ e))
      | inr h ↦ rw (h, save_output_to_db) refl
    ]
  where
    given :
        (answers insert_output && contains_key row.input_id db.inputs) ≡ true
        → (save_output_to_db answers row db).1 ≡ some db.next_output
    given h = rw (h, save_output_to_db) refl

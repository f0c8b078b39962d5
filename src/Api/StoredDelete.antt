-- ===== src/Api/StoredDelete.antt =====
-- `delete_input` and `delete_output` of src/api.rs: the tables hold what is left of the shared state.
use stream_gateway.Common.{
  ℕ, ◌≡◌, ◌≢◌, refl, sym, ap, ◌∙◌, ◌==◌, true, false, none, some, [], ◌∷◌, is_some, inl, inr,
  Bool-cases, Option-cases, arith, subst,
}
use stream_gateway.Common.Maps.{Map, lookup, remove, contains_key, lookup-insert, lookup-remove}
use stream_gateway.Models.Requests.{CreateOutputRequest}
use stream_gateway.Streams.State.{OutputInfo, InputInfo, World, perform, active_outputs_down}
use stream_gateway.Control.Outputs.{store, abort_handle}
use stream_gateway.Control.OutputLaws.{Apart}
use stream_gateway.Control.StopLaws.{abort_handle_streams, abort_analysis_tasks_streams}
use stream_gateway.Control.Moves.{Held, Move, Move-leave, Move-drop}
use stream_gateway.Database.Tables.{
  Database, OutputRow, delete_outputs_of, delete_input, delete_output, delete_input_from_db,
  delete_output_from_db,
}
use stream_gateway.Database.Laws.{Row, Fresh, without_input-kept, without_input-none}
use stream_gateway.Api.Gateway.{Gateway, Site}
use stream_gateway.Api.Delete
use stream_gateway.Api.Stored.{Entry, Stored}

abort_all_outputs_streams :
    (tasks : Map OutputInfo) (w : World) → (Delete.abort_all_outputs w tasks).streams ≡ w.streams
unfolding Delete.abort_all_outputs
abort_all_outputs_streams [] w = refl
abort_all_outputs_streams ((id, o) ∷ tasks) w =
    abort_all_outputs_streams tasks (abort_handle o.abort_handle w)
    ∙ abort_handle_streams o.abort_handle w

outputs_down_streams :
    (tasks : Map OutputInfo) (w : World) → (Delete.outputs_down w tasks).streams ≡ w.streams
unfolding Delete.outputs_down
outputs_down_streams [] w = refl
outputs_down_streams (entry ∷ tasks) w = outputs_down_streams tasks (perform active_outputs_down w)

pub close_input_streams :
    (info : InputInfo) (w : World) → (Delete.close_input info w).streams ≡ w.streams
unfolding Delete.close_input
close_input_streams info w =
    abort_analysis_tasks_streams info.analysis_tasks _
    ∙ (outputs_down_streams info.output_tasks _
        ∙ (abort_all_outputs_streams info.output_tasks _ ∙ abort_handle_streams info.task_handle w))

-- The rows of the other inputs, and of their outputs, stay.
delete_input_from_db-Entry :
    (site : Site) (id : ℕ) (db : Database)
    → (Fresh db → Fresh (delete_input_from_db site.answers id db).0)
      × ((input_id : ℕ) (tasks : Map OutputInfo) (stopped : Map CreateOutputRequest)
          → input_id ≢ id
          → Entry db input_id tasks stopped
          → Entry (delete_input_from_db site.answers id db).0 input_id tasks stopped)
unfolding delete_input_from_db Fresh Entry Row contains_key
delete_input_from_db-Entry site id db = elim (Bool-cases (site.answers delete_outputs_of)) [
  | inl e ↦ elim (Bool-cases (site.answers delete_input)) [
    | inl f ↦
        rw (e, delete_input_from_db)
          (rw f (
            (λ fresh key h. without_input-none id key db.outputs (fresh key h)),
            λ input_id tasks stopped n entry. (
              ground (arith, entry.0, n, lookup-remove id input_id db.inputs),
              (λ key held.
                  let (row, l, same) = entry.1 key held in
                  (
                    row,
                    without_input-kept id key row db.outputs l
                        (subst (λ (i : ℕ). i ≢ id) (sym same) n),
                    same,
                  )),
              entry.2,
            ),
          ))
    | inr f ↦
        rw (e, delete_input_from_db)
          (rw f (
            (λ fresh key h. without_input-none id key db.outputs (fresh key h)),
            λ input_id tasks stopped n entry. (
              entry.0,
              (λ key held.
                  let (row, l, same) = entry.1 key held in
                  (
                    row,
                    without_input-kept id key row db.outputs l
                        (subst (λ (i : ℕ). i ≢ id) (sym same) n),
                    same,
                  )),
              entry.2,
            ),
          ))
  ]
  | inr e ↦ rw (e, delete_input_from_db) ((λ fresh. fresh), λ input_id tasks stopped n entry. entry)
]

pub delete_input-Stored :
    (site : Site) (g : Gateway) (input_id : ℕ)
    → Stored g
    → Stored (Delete.delete_input site g input_id).0
unfolding Delete.delete_input Stored
delete_input-Stored site g input_id stored = elim (Option-cases (lookup input_id g.world.streams)) [
  | inl e ↦ rw (e, Delete.delete_input) stored
  | inr (info, e) ↦
      rw (e, Delete.delete_input)
        (
          (delete_input_from_db-Entry site input_id g.database).0 stored.0,
          λ j other l.
              (delete_input_from_db-Entry site input_id g.database).1 j other.output_tasks
                other.stopped_outputs (differs info j other l)
                (stored.1 j other (kept info j other l)),
        )
]
  where
    left : InputInfo → World
    left info =
        Delete.close_input info (record g.world { streams = remove input_id g.world.streams })

    there :
        (info : InputInfo) (j : ℕ) (other : InputInfo)
        → lookup j (left info).streams ≡ some other
        → lookup j (remove input_id g.world.streams) ≡ some other
    there info j other l = ap (λ m. lookup j m) (sym (close_input_streams info _)) ∙ l

    differs :
        (info : InputInfo) (j : ℕ) (other : InputInfo)
        → lookup j (left info).streams ≡ some other
        → j ≢ input_id
    differs info j other l =
        ground (arith, there info j other l, lookup-remove input_id j g.world.streams)

    kept :
        (info : InputInfo) (j : ℕ) (other : InputInfo)
        → lookup j (left info).streams ≡ some other
        → lookup j g.world.streams ≡ some other
    kept info j other l =
        ground (arith, there info j other l, lookup-remove input_id j g.world.streams)

-- The rows that `delete_output` leaves: those of the outputs that are left.
delete_output_from_db-Entry :
    (site : Site) (id : ℕ) (db : Database)
    → (Fresh db → Fresh (delete_output_from_db site.answers id db).0)
      × ((input_id : ℕ) (tasks : Map OutputInfo) (stopped : Map CreateOutputRequest)
          → ¬ Held tasks stopped id
          → Entry db input_id tasks stopped
          → Entry (delete_output_from_db site.answers id db).0 input_id tasks stopped)
unfolding delete_output_from_db Fresh Entry Row contains_key
delete_output_from_db-Entry site id db = elim (Bool-cases (site.answers delete_output)) [
  | inl e ↦
      rw (e, delete_output_from_db)
        (
          (λ fresh key h. ground (arith, fresh key h, lookup-remove id key db.outputs)),
          λ input_id tasks stopped n entry. (
            entry.0,
            (λ key held.
                let (row, l, same) = entry.1 key held in
                (row, other input_id tasks stopped n key held l, same)),
            entry.2,
          ),
        )
  | inr e ↦
      rw (e, delete_output_from_db) ((λ fresh. fresh), λ input_id tasks stopped n entry. entry)
]
  where
    other :
        (input_id : ℕ) (tasks : Map OutputInfo) (stopped : Map CreateOutputRequest)
        → ¬ Held tasks stopped id
        → (key : ℕ) → Held tasks stopped key
        → {row : OutputRow} → lookup key db.outputs ≡ some row
        → lookup key (remove id db.outputs) ≡ some row
    other input_id tasks stopped n key held l = elim (Bool-cases (id == key)) [
      | inl hit ↦ absurd (n (subst (λ (k : ℕ). Held tasks stopped k) (ground arith) held))
      | inr miss ↦ ground (arith, l, miss, lookup-remove id key db.outputs)
    ]

-- An entry without the output is written, and the row is deleted.
store-Stored :
    (site : Site) (w v : World) (db : Database) (input_id id : ℕ) (info after : InputInfo)
    → lookup input_id w.streams ≡ some info
    → v.streams ≡ (store input_id after w).streams
    → Held info.output_tasks info.stopped_outputs id
    → ¬ Held after.output_tasks after.stopped_outputs id
    → ((key : ℕ)
        → Held after.output_tasks after.stopped_outputs key
        → Held info.output_tasks info.stopped_outputs key)
    → Apart after.output_tasks after.stopped_outputs
    → Stored (record { world = w; database = db })
    → Stored (record { world = v; database = (delete_output_from_db site.answers id db).0 })
unfolding Stored Entry Row
store-Stored site w v db input_id id info after found same held gone fewer apart stored = (
  (delete_output_from_db-Entry site id db).0 stored.0,
  λ j other l. elim (Bool-cases (input_id == j)) [
    | inl hit ↦
        subst (λ (key : ℕ). Entry deleted key other.output_tasks other.stopped_outputs)
          (ground arith)
          (subst (λ (i : InputInfo). Entry deleted input_id i.output_tasks i.stopped_outputs)
            (taken j other l hit)
            ((delete_output_from_db-Entry site id db).1 input_id after.output_tasks
              after.stopped_outputs gone
              (
                (stored.1 input_id info found).0,
                (λ key h. (stored.1 input_id info found).1 key (fewer key h)),
                apart,
              )))
    | inr miss ↦
        (delete_output_from_db-Entry site id db).1 j other.output_tasks other.stopped_outputs
          (absent j other l miss) (stored.1 j other (kept j other l miss))
  ],
)
  where
    deleted : Database
    deleted = (delete_output_from_db site.answers id db).0

    taken :
        (j : ℕ) (other : InputInfo)
        → lookup j v.streams ≡ some other
        → (input_id == j) ≡ true
        → after ≡ other
    taken j other l hit = ground (arith, hit, l, same, lookup-insert input_id j after w.streams)

    kept :
        (j : ℕ) (other : InputInfo)
        → lookup j v.streams ≡ some other
        → (input_id == j) ≡ false
        → lookup j w.streams ≡ some other
    kept j other l miss = ground (arith, miss, l, same, lookup-insert input_id j after w.streams)

    absent :
        (j : ℕ) (other : InputInfo)
        → lookup j v.streams ≡ some other
        → (input_id == j) ≡ false
        → ¬ Held other.output_tasks other.stopped_outputs id
    absent j other l miss h =
        let (mine, there, e) = (stored.1 input_id info found).1 id held in
        let (theirs, here, f) = (stored.1 j other (kept j other l miss)).1 id h in
        ground (arith, miss, there, here, e, f)

pub delete_output-Stored :
    (site : Site) (g : Gateway) (input_id output_id : ℕ)
    → Stored g
    → Stored (Delete.delete_output site g input_id output_id).0
unfolding Delete.delete_output Delete.delete_output_of Stored Move Entry Held Apart contains_key
delete_output-Stored site g input_id output_id stored =
    elim (Option-cases (lookup input_id g.world.streams)) [
      | inl e ↦ rw (e, Delete.delete_output) stored
      | inr (info, e) ↦ elim (Option-cases (lookup output_id info.output_tasks)) [
        | inr (o, f) ↦
            rw (e, Delete.delete_output)
              (rw (f, Delete.delete_output_of)
                (store-Stored site g.world
                  (perform active_outputs_down (abort_handle o.abort_handle (unran info)))
                  g.database input_id output_id info
                  (record info { output_tasks = remove output_id info.output_tasks }) e
                  (abort_handle_streams o.abort_handle (unran info)) (ground (arith, f))
                  (ran info o e f) (Move-leave output_id info.output_tasks info.stopped_outputs).0
                  ((Move-leave output_id info.output_tasks info.stopped_outputs).1 (apart info e))
                  stored))
        | inl f ↦ elim (Bool-cases (is_some (lookup output_id info.stopped_outputs))) [
          | inl s ↦
              rw (e, Delete.delete_output)
                (rw (f, Delete.delete_output_of)
                  (rw s (
                    store-Stored site g.world (unwaited info) g.database input_id output_id info
                      (record info { stopped_outputs = remove output_id info.stopped_outputs }) e
                      refl (ground (arith, s)) (waited info f)
                      (Move-drop output_id info.output_tasks info.stopped_outputs).0
                      ((Move-drop output_id info.output_tasks info.stopped_outputs).1
                        (apart info e))
                      stored)))
          | inr s ↦ rw (e, Delete.delete_output) (rw (f, Delete.delete_output_of) (rw s stored))
        ]
      ]
    ]
  where
    unran : InputInfo → World
    unran info =
        store input_id (record info { output_tasks = remove output_id info.output_tasks }) g.world

    unwaited : InputInfo → World
    unwaited info =
        store input_id (record info { stopped_outputs = remove output_id info.stopped_outputs })
          g.world

    apart :
        (info : InputInfo)
        → lookup input_id g.world.streams ≡ some info
        → Apart info.output_tasks info.stopped_outputs
    apart info e = (stored.1 input_id info e).2

    ran :
        (info : InputInfo) (o : OutputInfo)
        → lookup input_id g.world.streams ≡ some info
        → lookup output_id info.output_tasks ≡ some o
        → ¬ Held (remove output_id info.output_tasks) info.stopped_outputs output_id
    ran info o e f h =
        ground
          (arith, h, f, apart info e output_id, lookup-remove output_id output_id info.output_tasks)

    waited :
        (info : InputInfo)
        → lookup output_id info.output_tasks ≡ none
        → ¬ Held info.output_tasks (remove output_id info.stopped_outputs) output_id
    waited info f h = ground (arith, h, f, lookup-remove output_id output_id info.stopped_outputs)

-- ===== src/Control/Moves.antt =====
-- The outputs of an input before and after an operation of src/stream_control.rs or src/analysis.rs:
-- none is new, and running and stopped ones stay apart.
use stream_gateway.Common.{
  ℕ, Option, ◌≡◌, inl, inr, refl, sym, ap, subst, ◌∙◌, ◌==◌, true, false, ◌||◌, some, none, [], ◌∷◌,
  Bool-cases, Option-cases, arith,
}
use stream_gateway.Common.Maps.{
  Map, lookup, insert, remove, extend, contains_key, lookup-insert, lookup-remove,
}
use stream_gateway.Models.Requests.{CreateOutputRequest}
use stream_gateway.Streams.State.{OutputInfo, InputInfo, World}
use stream_gateway.Control.Outcome.{Platform}
use stream_gateway.Control.Outputs.{store, recreate_output, start_output_internal}
use stream_gateway.Control.Inputs.{start_outputs, outputs_to_stop, stopped_entry}
use stream_gateway.Control.OutputLaws.{Apart, Apart-nil, Apart-none}
use stream_gateway.Control.Restart.{start_outputs_frame}

-- The output is among the tasks or among the stopped outputs.
unfoldable pub Held : Map OutputInfo → Map CreateOutputRequest → ℕ → Type 0
unfolding contains_key
Held tasks stopped id = (contains_key id tasks || contains_key id stopped) ≡ true

-- From the outputs of an entry to those of another.
unfoldable pub Move :
    Map OutputInfo → Map CreateOutputRequest → Map OutputInfo → Map CreateOutputRequest → Type 0
unfolding Held Apart
Move tasks stopped tasks' stopped' =
    ((id : ℕ) → Held tasks' stopped' id → Held tasks stopped id)
    × (Apart tasks stopped → Apart tasks' stopped')

pub Move-refl :
    (tasks : Map OutputInfo) (stopped : Map CreateOutputRequest) → Move tasks stopped tasks stopped
unfolding Move
Move-refl tasks stopped = (λ id h. h, λ a. a)

-- Every entry comes from one under the same key.
unfoldable pub Moves : World → World → Type 0
unfolding Move
Moves w v =
    (input_id : ℕ) (after : InputInfo)
    → lookup input_id v.streams ≡ some after
    → (before : InputInfo) × (lookup input_id w.streams ≡ some before)
      × Move before.output_tasks before.stopped_outputs after.output_tasks after.stopped_outputs

pub Moves-refl : (w : World) → Moves w w
unfolding Moves
Moves-refl w input_id after e = (after, e, Move-refl after.output_tasks after.stopped_outputs)

pub Moves-same : (w v : World) → v.streams ≡ w.streams → Moves w v
unfolding Moves
Moves-same w v same input_id after e = (
  after,
  ap (λ m. lookup input_id m) (sym same) ∙ e,
  Move-refl after.output_tasks after.stopped_outputs,
)

pub Moves-trans : (u v w : World) → Moves u v → Moves v w → Moves u w
unfolding Moves Move
Moves-trans u v w first second input_id after e =
    let (middle, f, late) = second input_id after e in
    let (before, g, early) = first input_id middle f in
    (before, g, (λ id h. early.0 id (late.0 id h), λ apart. late.1 (early.1 apart)))

pub Moves-store :
    (w v : World) (input_id : ℕ) (before after : InputInfo)
    → lookup input_id w.streams ≡ some before
    → v.streams ≡ w.streams
    → Move before.output_tasks before.stopped_outputs after.output_tasks after.stopped_outputs
    → Moves w (store input_id after v)
unfolding Moves
Moves-store w v input_id before after found same move j other l =
    elim (Bool-cases (input_id == j)) [
      | inl hit ↦ (
        before,
        ground (arith, hit, found),
        subst
            (λ (i : InputInfo).
              Move before.output_tasks before.stopped_outputs i.output_tasks i.stopped_outputs)
            (taken hit) move,
      )
      | inr miss ↦ (other, kept miss, Move-refl other.output_tasks other.stopped_outputs)
    ]
  where
    taken : (input_id == j) ≡ true → after ≡ other
    taken hit = ground (arith, hit, l, lookup-insert input_id j after v.streams)

    kept : (input_id == j) ≡ false → lookup j w.streams ≡ some other
    kept miss = ground (arith, miss, l, same, lookup-insert input_id j after v.streams)

pub Move-stop :
    (id : ℕ) (o : OutputInfo) (tasks : Map OutputInfo) (stopped : Map CreateOutputRequest)
    → lookup id tasks ≡ some o
    → Move tasks stopped (remove id tasks) (insert id o.config stopped)
unfolding Move Held Apart contains_key
Move-stop id o tasks stopped l = (
  λ j h. ground (arith, h, l, lookup-remove id j tasks, lookup-insert id j o.config stopped),
  λ apart j. ground (arith, apart j, lookup-remove id j tasks, lookup-insert id j o.config stopped),
)

pub Move-drop :
    (id : ℕ) (tasks : Map OutputInfo) (stopped : Map CreateOutputRequest)
    → Move tasks stopped tasks (remove id stopped)
unfolding Move Held Apart contains_key
Move-drop id tasks stopped = (
  λ j h. ground (arith, h, lookup-remove id j stopped),
  λ apart j. ground (arith, apart j, lookup-remove id j stopped),
)

pub Move-leave :
    (id : ℕ) (tasks : Map OutputInfo) (stopped : Map CreateOutputRequest)
    → Move tasks stopped (remove id tasks) stopped
unfolding Move Held Apart contains_key
Move-leave id tasks stopped = (
  λ j h. ground (arith, h, lookup-remove id j tasks),
  λ apart j. ground (arith, apart j, lookup-remove id j tasks),
)

pub Move-start :
    (id : ℕ) (o : OutputInfo) (config : CreateOutputRequest) (tasks : Map OutputInfo)
    (stopped : Map CreateOutputRequest)
    → lookup id stopped ≡ some config
    → Move tasks stopped (insert id o tasks) (remove id stopped)
unfolding Move Held Apart contains_key
Move-start id o config tasks stopped l = (
  λ j h. ground (arith, h, l, lookup-insert id j o tasks, lookup-remove id j stopped),
  λ apart j. ground (arith, apart j, lookup-insert id j o tasks, lookup-remove id j stopped),
)

-- An output that is started out of the stopped ones.
pub start_output_internal-Move :
    (p : Platform) (w : World) (info : InputInfo) (id : ℕ) (config : CreateOutputRequest)
    → lookup id info.stopped_outputs ≡ some config
    → Move info.output_tasks info.stopped_outputs
        (start_output_internal p w
          (record info { stopped_outputs = remove id info.stopped_outputs })
          id
          config).1.output_tasks
        (start_output_internal p w
          (record info { stopped_outputs = remove id info.stopped_outputs })
          id
          config).1.stopped_outputs
unfolding start_output_internal
start_output_internal-Move p w info id config l =
    let left = record info { stopped_outputs = remove id info.stopped_outputs } in
    elim (Option-cases (recreate_output p w left id config).1) [
      | inl e ↦ rw (e, start_output_internal) (Move-drop id info.output_tasks info.stopped_outputs)
      | inr (o, e) ↦
          rw (e, start_output_internal)
            (Move-start id o config info.output_tasks info.stopped_outputs l)
    ]

start_output_internal-Held :
    (p : Platform) (w : World) (info : InputInfo) (key : ℕ) (config : CreateOutputRequest) (id : ℕ)
    → Held (start_output_internal p w info key config).1.output_tasks [] id
    → (contains_key id info.output_tasks || key == id) ≡ true
unfolding start_output_internal Held contains_key lookup
start_output_internal-Held p w info key config id h =
    go (recreate_output p w info key config).1 refl
  where
    unmade :
        (recreate_output p w info key config).1 ≡ none
        → (start_output_internal p w info key config).1 ≡ info
    unmade e = rw (e, start_output_internal) refl

    made :
        (o : OutputInfo)
        → (recreate_output p w info key config).1 ≡ some o
        → (start_output_internal p w info key config).1
          ≡ record info { output_tasks = insert key o info.output_tasks }
    made o e = rw (e, start_output_internal) refl

    go :
        (made : Option OutputInfo)
        → (recreate_output p w info key config).1 ≡ made
        → (contains_key id info.output_tasks || key == id) ≡ true
    go none e = ground (arith, subst (λ (i : InputInfo). Held i.output_tasks [] id) (unmade e) h)
    go (some o) e = ground (
      arith,
      subst (λ (i : InputInfo). Held i.output_tasks [] id) (made o e) h,
      lookup-insert key id o info.output_tasks,
    )

-- The tasks after outputs were started: those from before, and the outputs.
start_outputs-Held :
    (p : Platform) (outputs : Map CreateOutputRequest) (w : World) (info : InputInfo) (id : ℕ)
    → Held (start_outputs p w info outputs).1.output_tasks [] id
    → Held info.output_tasks outputs id
unfolding start_outputs Held contains_key lookup
start_outputs-Held p [] w info id h = h
start_outputs-Held p ((key, config) ∷ outputs) w info id h =
    let (v, next, ok) = start_output_internal p w info key config in
    ground (
      arith,
      start_outputs-Held p outputs v next id h,
      start_output_internal-Held p w info key config id,
    )

-- The stopped outputs are drained and started.
pub start_outputs-Move :
    (p : Platform) (w : World) (info : InputInfo)
    → Move info.output_tasks info.stopped_outputs
        (start_outputs p w
          (record info { stopped_outputs = [] })
          info.stopped_outputs).1.output_tasks
        (start_outputs p w
          (record info { stopped_outputs = [] })
          info.stopped_outputs).1.stopped_outputs
unfolding Move
start_outputs-Move p w info =
    let drained = record info { stopped_outputs = [] } in
    subst
      (λ (s : Map CreateOutputRequest).
        Move info.output_tasks info.stopped_outputs
          (start_outputs p w drained info.stopped_outputs).1.output_tasks s)
      (sym (
        ap (λ (i : InputInfo). i.stopped_outputs)
          (start_outputs_frame p info.stopped_outputs w drained)))
      (start_outputs-Held p info.stopped_outputs w drained, λ apart. Apart-nil _)

-- The entry that `stop_input` leaves: its stopped outputs are those from before and tasks.
outputs_to_stop-Held :
    (id : ℕ) (tasks : Map OutputInfo)
    → contains_key id (outputs_to_stop tasks) ≡ true
    → contains_key id tasks ≡ true
unfolding outputs_to_stop contains_key lookup
outputs_to_stop-Held id [] h = h
outputs_to_stop-Held id ((key, o) ∷ tasks) h =
    ground (
      arith,
      h,
      outputs_to_stop-Held id tasks,
      lookup-insert key id o.config (outputs_to_stop tasks),
    )

extend-Held :
    (id : ℕ) (m n : Map CreateOutputRequest)
    → contains_key id (extend m n) ≡ true
    → (contains_key id m || contains_key id n) ≡ true
unfolding extend contains_key lookup
extend-Held id m [] h = ground (arith, h)
extend-Held id m ((key, config) ∷ n) h =
    ground (arith, extend-Held id (insert key config m) n h, lookup-insert key id config m)

pub stopped_entry-Move :
    (info : InputInfo)
    → Move info.output_tasks info.stopped_outputs
        (stopped_entry info).output_tasks
        (stopped_entry info).stopped_outputs
unfolding Move Held contains_key lookup stopped_entry
stopped_entry-Move info = (
  λ id h. ground (
    arith,
    extend-Held id info.stopped_outputs (outputs_to_stop info.output_tasks) h,
    outputs_to_stop-Held id info.output_tasks,
  ),
  λ apart. Apart-none _,
)

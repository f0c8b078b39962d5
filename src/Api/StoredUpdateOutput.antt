-- ===== src/Api/StoredUpdateOutput.antt =====
-- `update_output` of src/api.rs, when no other task acts in between: the tables hold what it leaves of
-- the shared state.
use stream_gateway.Common.{
  ℕ, ◌≡◌, refl, sym, ap, ◌∙◌, ◌==◌, Bool, true, false, none, some, is_some, inl, inr, Bool-cases,
  Option-cases, some-injective, arith, subst,
}
use stream_gateway.Common.Texts.{codes}
use stream_gateway.Common.Maps.{
  lookup, insert, contains_key, lookup-insert, lookup-insert_self, lookup-remove_self,
}
use stream_gateway.Models.Requests.{CreateOutputRequest}
use stream_gateway.Models.Updates.{UpdateOutputRequest}
use stream_gateway.Streams.State.{OutputInfo, InputInfo, World}
use stream_gateway.Control.Outcome.{done, Platform}
use stream_gateway.Control.Outputs.{stop_output}
use stream_gateway.Control.OutputLaws.{Apart}
use stream_gateway.Control.Destination.{stop_output_lem}
use stream_gateway.Control.Moves.{Held, Moves, Moves-refl}
use stream_gateway.Control.Atomic.{start_output-Moves, stop_output-Moves}
use stream_gateway.Control.Restart.{alone}
use stream_gateway.Database.Tables.{
  Database, OutputRow, select_output, get_output_by_id, update_output_in_db,
}
use stream_gateway.Database.Laws.{Row, Keeps, Keeps-refl, update_output-Keeps}
use stream_gateway.Api.Gateway.{Gateway, Site}
use stream_gateway.Api.CreateOutput.{validate_output}
use stream_gateway.Api.Merge
use stream_gateway.Api.Validate
use stream_gateway.Api.UpdateOutput
use stream_gateway.Api.StoredUpdate.{record_output-Stored}
use stream_gateway.Api.Stored.{Entry, Stored, Stored-store, Stored-Moves}

-- No entry of the input has the output among its tasks.
abbrev NotRunning : ℕ → ℕ → World → Type 0
NotRunning input_id id w =
    (info : InputInfo) → lookup input_id w.streams ≡ some info → lookup id info.output_tasks ≡ none

set_stopped-Stored :
    (w : World) (db : Database) (input_id id : ℕ) (config : CreateOutputRequest)
    → Row db input_id id
    → NotRunning input_id id w
    → Stored (record { world = w; database = db })
    → Stored (record { world = UpdateOutput.set_stopped input_id id config w; database = db })
unfolding UpdateOutput.set_stopped Stored Entry Held Apart contains_key
set_stopped-Stored w db input_id id config row idle stored =
    elim (Option-cases (lookup input_id w.streams)) [
      | inl e ↦ rw (e, UpdateOutput.set_stopped) stored
      | inr (info, e) ↦
          rw (e, UpdateOutput.set_stopped)
            (Stored-store w w db db input_id
              (record info { stopped_outputs = insert id config info.stopped_outputs }) refl
              (Keeps-refl db)
              (
                (stored.1 input_id info e).0,
                (λ key h. elim (Bool-cases (id == key)) [
                  | inl hit ↦ subst (λ (k : ℕ). Row db input_id k) (ground arith) row
                  | inr miss ↦
                      (stored.1 input_id info e).1 key
                        (ground (arith, h, miss, lookup-insert id key config info.stopped_outputs))
                ]),
                λ key. ground (
                  arith,
                  (stored.1 input_id info e).2 key,
                  idle info e,
                  lookup-insert id key config info.stopped_outputs,
                ),
              )
              stored)
    ]

-- An output that was stopped does not run.
stop_output-NotRunning :
    (w : World) (input_id id : ℕ) (info : InputInfo) (o : OutputInfo)
    → lookup input_id w.streams ≡ some info
    → lookup id info.output_tasks ≡ some o
    → ((stop_output w input_id id).1 ≡ done tt)
      × NotRunning input_id id (stop_output w input_id id).0
stop_output-NotRunning w input_id id info o e f = rw (stop_output_lem w input_id id info o e f) (
  refl,
  λ other l.
      subst (λ (i : InputInfo). lookup id i.output_tasks ≡ none)
        (some-injective (sym (lookup-insert_self input_id _ _) ∙ l))
        (lookup-remove_self id info.output_tasks),
)

-- The restart comes to a start in a world whose outputs all have rows.
restart_output-Stored :
    (p : Platform) (w : World) (db : Database) (input_id id : ℕ) (active : Bool)
    (config : CreateOutputRequest)
    → UpdateOutput.output_active w input_id id ≡ some active
    → Row db input_id id
    → Stored (record { world = w; database = db })
    → (ready : World) × Stored (record { world = ready; database = db })
      × Moves ready (UpdateOutput.restart_output alone p w input_id id active config).0
unfolding UpdateOutput.restart_output UpdateOutput.output_active contains_key
restart_output-Stored p w db input_id id active config e row stored =
    elim (Option-cases (lookup input_id w.streams)) [
      | inl f ↦ absurd (ground (arith, sym (missing f) ∙ e))
      | inr (info, f) ↦ elim (Option-cases (lookup id info.output_tasks)) [
        | inl g ↦ rw (idle info f g) (
          UpdateOutput.set_stopped input_id id config w,
          set_stopped-Stored w db input_id id config row (not_running info f g) stored,
          start_output-Moves p (UpdateOutput.set_stopped input_id id config w) input_id id,
        )
        | inr (o, g) ↦
            let (over, gone) = stop_output-NotRunning w input_id id info o f g in
            rw (running info o f g) (
              rw (over, UpdateOutput.restart_output)
                (
                  ready,
                  set_stopped-Stored stopped db input_id id config row gone (
                      Stored-Moves w stopped db db (stop_output-Moves w input_id id) (Keeps-refl db)
                        stored),
                  start_output-Moves p ready input_id id,
                ))
      ]
    ]
  where
    stopped : World
    stopped = (stop_output w input_id id).0

    ready : World
    ready = UpdateOutput.set_stopped input_id id config stopped

    missing : lookup input_id w.streams ≡ none → UpdateOutput.output_active w input_id id ≡ none
    missing f = rw (f, UpdateOutput.output_active) refl

    found :
        (info : InputInfo)
        → lookup input_id w.streams ≡ some info
        → UpdateOutput.output_active w input_id id ≡ some (is_some (lookup id info.output_tasks))
    found info f = rw (f, UpdateOutput.output_active) refl

    idle :
        (info : InputInfo)
        → lookup input_id w.streams ≡ some info
        → lookup id info.output_tasks ≡ none
        → active ≡ false
    idle info f g = some-injective (sym e ∙ (found info f ∙ ap (λ x. some (is_some x)) g))

    running :
        (info : InputInfo) (o : OutputInfo)
        → lookup input_id w.streams ≡ some info
        → lookup id info.output_tasks ≡ some o
        → active ≡ true
    running info o f g = some-injective (sym e ∙ (found info f ∙ ap (λ x. some (is_some x)) g))

    not_running :
        (info : InputInfo)
        → lookup input_id w.streams ≡ some info
        → lookup id info.output_tasks ≡ none
        → NotRunning input_id id w
    not_running info f g other l =
        subst (λ (i : InputInfo). lookup id i.output_tasks ≡ none) (some-injective (sym f ∙ l)) g

apply_output_update-Stored :
    (site : Site) (g : Gateway) (input_id id : ℕ) (config : CreateOutputRequest)
    → Row g.database input_id id
    → Stored g
    → Stored (UpdateOutput.apply_output_update alone site g input_id id config).0
unfolding UpdateOutput.apply_output_update Keeps Stored
apply_output_update-Stored site g input_id id config row stored = elim (Bool-cases written.1) [
  | inr e ↦ rw (e, UpdateOutput.apply_output_update) kept
  | inl e ↦ elim (Option-cases (UpdateOutput.output_active g.world input_id id)) [
    | inl f ↦ rw (e, UpdateOutput.apply_output_update) (rw f kept)
    | inr (active, f) ↦
        let (ready, safe, moves) =
          restart_output-Stored site.platform g.world written.0 input_id id active config f
            (keeps.2 input_id id stored.0 row) kept in
        rw (e, UpdateOutput.apply_output_update)
          (rw f (
            record_output-Stored site g.world ready written.0 id (codes "connecting") _
              (UpdateOutput.restart_output alone site.platform g.world input_id id active config)
              moves safe))
  ]
]
  where
    written : Database × Bool
    written =
        update_output_in_db site.answers id (UpdateOutput.name_of_output config)
          (UpdateOutput.updated_destination config).0 (some (site.json.print_output config))
          (UpdateOutput.updated_destination config).1 g.database

    keeps : Keeps g.database written.0
    keeps =
        update_output-Keeps site.answers id (UpdateOutput.name_of_output config)
          (UpdateOutput.updated_destination config).0 (some (site.json.print_output config))
          (UpdateOutput.updated_destination config).1 g.database

    kept : Stored (record { world = g.world; database = written.0 })
    kept = Stored-Moves g.world g.world g.database written.0 (Moves-refl g.world) keeps stored

update_output_row-Stored :
    (site : Site) (g : Gateway) (id : ℕ) (req : UpdateOutputRequest) (row : OutputRow)
    → lookup id g.database.outputs ≡ some row
    → Stored g
    → Stored (UpdateOutput.update_output_row alone site g id req row).0
unfolding UpdateOutput.update_output_row Row
update_output_row-Stored site g id req row l stored =
    elim (Option-cases (UpdateOutput.stored_output site row)) [
      | inl e ↦ rw (e, UpdateOutput.update_output_row) stored
      | inr (current, e) ↦ merged current e (Merge.merge_output_config current req) refl
    ]
  where
    checked :
        (current config : CreateOutputRequest)
        → UpdateOutput.stored_output site row ≡ some current
        → Merge.merge_output_config current req ≡ Merge.ok config
        → (c : Validate.Checked) → validate_output site config ≡ c
        → Stored (UpdateOutput.update_output_row alone site g id req row).0
    checked current config e f (Validate.err x) h =
        rw (e, UpdateOutput.update_output_row) (rw f (rw h stored))
    checked current config e f Validate.ok h =
        rw (e, UpdateOutput.update_output_row)
          (rw f
            (rw h (apply_output_update-Stored site g row.input_id id config (row, l, refl) stored)))

    merged :
        (current : CreateOutputRequest)
        → UpdateOutput.stored_output site row ≡ some current
        → (m : Merge.Merged CreateOutputRequest) → Merge.merge_output_config current req ≡ m
        → Stored (UpdateOutput.update_output_row alone site g id req row).0
    merged current e (Merge.err x) f = rw (e, UpdateOutput.update_output_row) (rw f stored)
    merged current e (Merge.ok config) f =
        checked current config e f (validate_output site config) refl

pub update_output-Stored :
    (site : Site) (g : Gateway) (id : ℕ) (req : UpdateOutputRequest)
    → Stored g
    → Stored (UpdateOutput.update_output alone site g id req).0
unfolding UpdateOutput.update_output get_output_by_id
update_output-Stored site g id req stored = elim (Bool-cases (site.answers select_output)) [
  | inr e ↦ rw (e, UpdateOutput.update_output) stored
  | inl e ↦ elim (Option-cases (lookup id g.database.outputs)) [
    | inl f ↦ rw (e, UpdateOutput.update_output) (rw f stored)
    | inr (row, f) ↦
        rw (e, UpdateOutput.update_output)
          (rw f (update_output_row-Stored site g id req row f stored))
  ]
]

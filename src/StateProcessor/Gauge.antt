-- ===== src/StateProcessor/Gauge.antt =====
-- The gauge of active connections that src/state_processor.rs keeps, against the statuses.
use stream_gateway.Common.{
  ℕ, ◌+◌, ◌≡◌, refl, ◌∙◌, subst, Bool, true, false, not, ◌&&◌, Option, none, some, List, [], ◌∷◌,
  ◌++◌, ◌==◌, if◌then◌else◌, inl, inr, Bool-cases, Option-cases, arith,
}
use stream_gateway.Common.Texts.{Text}
use stream_gateway.Common.Maps.{lookup, insert, lookup-insert, lookup-insert_self}
use stream_gateway.Models.Status.{StreamStatus, is_connected}
use stream_gateway.Streams.State.{OutputInfo, InputInfo, World}
use stream_gateway.StateProcessor.Handlers.{
  StreamType, get_input_stream_type, get_output_stream_type, Direction, Metric,
  record_connection_event, update_active_connections, record_connection_duration_event,
  transition_metrics, duration_event, handle_input_state_change, handle_output_state_change,
  StateChange, process, process_all,
}

-- What the metrics of a turn add to the gauge of an input, and what they take off it.
unfoldable pub gauge : Bool → ℕ → List Metric → ℕ
gauge up id [] = 0
gauge up id (update_active_connections j t Direction.input connected ∷ ms) =
    let rest = gauge up id ms in if (j == id) && same up connected then 1 + rest else rest
  where
    same : Bool → Bool → Bool
    same true b = b
    same false b = not b
gauge up id (m ∷ ms) = gauge up id ms

abbrev pub bit : StreamStatus → ℕ
bit s = if is_connected s then 1 else 0

duration_event-gauge :
    (up : Bool) (id now j : ℕ) (t : StreamType) (d : Direction) (at : Option ℕ)
    → gauge up id (duration_event now j t d at) ≡ 0
unfolding gauge duration_event
duration_event-gauge up id now j t d none = refl
duration_event-gauge up id now j t d (some time) = ground arith

transition_balance :
    (now id : ℕ) (t : StreamType) (old new : StreamStatus) (at : Option ℕ)
    → gauge true id (transition_metrics now id t Direction.input old new at) + bit old
      ≡ gauge false id (transition_metrics now id t Direction.input old new at) + bit new
unfolding transition_metrics gauge
transition_balance now id t old new at = ground (
  arith,
  duration_event-gauge true id now id t Direction.input at,
  duration_event-gauge false id now id t Direction.input at,
)

transition_other :
    (up : Bool) (now j id : ℕ) (t : StreamType) (old new : StreamStatus) (at : Option ℕ)
    → (j == id) ≡ false
    → gauge up id (transition_metrics now j t Direction.input old new at) ≡ 0
unfolding transition_metrics gauge
transition_other up now j id t old new at h =
    ground (arith, duration_event-gauge up id now j t Direction.input at)

transition_output :
    (up : Bool) (now j id : ℕ) (t : StreamType) (old new : StreamStatus) (at : Option ℕ)
    → gauge up id (transition_metrics now j t Direction.output old new at) ≡ 0
unfolding transition_metrics gauge
transition_output up now j id t old new at =
    ground (arith, duration_event-gauge up id now j t Direction.output at)

-- The entry after a turn, and the balance of the gauge with its status.
abbrev Balanced : ℕ → InputInfo → World × List Metric → Type 0
Balanced id info turn =
    (after : InputInfo) × (lookup id turn.0.streams ≡ some after)
    × (gauge true id turn.1 + bit info.status ≡ gauge false id turn.1 + bit after.status)

other_entry :
    (w : World) (j id : ℕ) (entry info : InputInfo)
    → (j == id) ≡ false
    → lookup id w.streams ≡ some info
    → lookup id (insert j entry w.streams) ≡ some info
other_entry w j id entry info h l = lookup-insert j id entry w.streams ∙ ground (arith, h, l)

input-Balanced :
    (w : World) (j id : ℕ) (new : StreamStatus) (at : Option ℕ) (address : Option Text)
    (info : InputInfo)
    → lookup id w.streams ≡ some info
    → Balanced id info (handle_input_state_change w j new at address)
unfolding handle_input_state_change gauge
input-Balanced w j id new at address info l = elim (Option-cases (lookup j w.streams)) [
  | inl e ↦ rw (e, handle_input_state_change) (info, l, refl)
  | inr (old, e) ↦ elim (Bool-cases (j == id)) [
    | inr other ↦
        rw (e, handle_input_state_change)
          (
            info,
            other_entry w j id _ info other l,
            ground (
              arith,
              transition_other true w.now j id (get_input_stream_type old.config) old.status new at
                  other,
              transition_other false w.now j id (get_input_stream_type old.config) old.status new at
                  other,
            ),
          )
    | inl same ↦
        subst (λ (k : ℕ). Balanced id info (handle_input_state_change w k new at address))
          (ground (arith, same)) self
  ]
]
  where
    self : Balanced id info (handle_input_state_change w id new at address)
    self =
        rw (l, handle_input_state_change)
          (
            _,
            lookup-insert_self id _ w.streams,
            transition_balance w.now id (get_input_stream_type info.config) info.status new at,
          )

output-Balanced :
    (w : World) (j o id : ℕ) (new : StreamStatus) (at : Option ℕ) (address : Option Text)
    (info : InputInfo)
    → lookup id w.streams ≡ some info
    → Balanced id info (handle_output_state_change w j o new at address)
unfolding handle_output_state_change gauge
output-Balanced w j o id new at address info l = elim (Option-cases (lookup j w.streams)) [
  | inl e ↦ rw (e, handle_output_state_change) (info, l, refl)
  | inr (old, e) ↦ elim (Option-cases (lookup o old.output_tasks)) [
    | inl f ↦
        rw (e, handle_output_state_change) (rw (f, handle_output_state_change) (info, l, refl))
    | inr (task, f) ↦ elim (Bool-cases (j == id)) [
      | inr other ↦
          rw (e, handle_output_state_change)
            (rw (f, handle_output_state_change)
              (info, other_entry w j id _ info other l, quiet task))
      | inl same ↦
          subst (λ (k : ℕ). Balanced id info (handle_output_state_change w k o new at address))
            (ground (arith, same))
            (self task
              (subst (λ (i : InputInfo). lookup o i.output_tasks ≡ some task) (found old e same) f))
    ]
  ]
]
  where
    found : (old : InputInfo) → lookup j w.streams ≡ some old → (j == id) ≡ true → old ≡ info
    found old e same = ground (arith, same, e, l)

    quiet :
        (task : OutputInfo)
        → gauge true id (
              transition_metrics w.now o
                (get_output_stream_type task.config)
                Direction.output
                task.status
                new
                at)
            + bit info.status
          ≡ gauge false id (
              transition_metrics w.now o
                (get_output_stream_type task.config)
                Direction.output
                task.status
                new
                at)
            + bit info.status
    quiet task = omega (
      arith,
      transition_output true w.now o id (get_output_stream_type task.config) task.status new at,
      transition_output false w.now o id (get_output_stream_type task.config) task.status new at,
    )

    self :
        (task : OutputInfo)
        → lookup o info.output_tasks ≡ some task
        → Balanced id info (handle_output_state_change w id o new at address)
    self task f =
        rw (l, handle_output_state_change)
          (rw (f, handle_output_state_change) (_, lookup-insert_self id _ w.streams, quiet task))

process-Balanced :
    (w : World) (change : StateChange) (id : ℕ) (info : InputInfo)
    → lookup id w.streams ≡ some info
    → Balanced id info (process w change)
unfolding process
process-Balanced w (StateChange.input_state_changed j new at address) id info l =
    input-Balanced w j id new at address info l
process-Balanced w (StateChange.output_state_changed j o new at address) id info l =
    output-Balanced w j o id new at address info l

gauge-append :
    (up : Bool) (id : ℕ) (ms ns : List Metric)
    → gauge up id (ms ++ ns) ≡ gauge up id ms + gauge up id ns
unfolding gauge
gauge-append up id [] ns = omega arith
gauge-append up id (update_active_connections j t Direction.input connected ∷ ms) ns =
    ground (arith, gauge-append up id ms ns)
gauge-append up id (update_active_connections j t Direction.output connected ∷ ms) ns =
    gauge-append up id ms ns
gauge-append up id (record_connection_event j t d connected ∷ ms) ns = gauge-append up id ms ns
gauge-append up id (record_connection_duration_event j t d duration ∷ ms) ns =
    gauge-append up id ms ns

-- The state processor never removes an input, and over any changes what the active-connections gauge
-- of an input goes up, less what it goes down, is one if the input became connected, less one if it
-- ceased to be.
pub process_all-balance :
    (changes : List StateChange) (w : World) (id : ℕ) (info : InputInfo)
    → lookup id w.streams ≡ some info
    → (after : InputInfo) × (lookup id (process_all w changes).0.streams ≡ some after)
      × (gauge true id (process_all w changes).1 + bit info.status
          ≡ gauge false id (process_all w changes).1 + bit after.status)
unfolding process_all gauge
process_all-balance [] w id info l = (info, l, refl)
process_all-balance (change ∷ changes) w id info l =
    let (v, metrics) = process w change in
    let (middle, stored, first) = process-Balanced w change id info l in
    let (after, at_end, rest) = process_all-balance changes v id middle stored in
    let later = (process_all v changes).1 in
    (
      after,
      at_end,
      omega (
        arith,
        first,
        rest,
        gauge-append true id metrics later,
        gauge-append false id metrics later,
      ),
    )

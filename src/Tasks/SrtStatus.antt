-- ===== src/Tasks/SrtStatus.antt =====
-- The status of an SRT input whose task has given up: the messages of the task of src/srt_stream.rs
-- through the loop of src/state_processor.rs.
use mathlib.Core.List.{append_assoc}
use stream_gateway.Common.{
  ℕ, suc, ◌≡◌, refl, sym, ap, ◌∙◌, ◌==◌, true, Option, none, some, List, [], ◌∷◌, ◌++◌, inl, inr,
  leb, Bool-cases, Option-cases, arith,
}
use stream_gateway.Common.Texts.{Text}
use stream_gateway.Common.Maps.{lookup, insert, lookup-insert, lookup-insert_self}
use stream_gateway.Models.Requests.{SrtInputConfig}
use stream_gateway.Models.Status.{StreamStatus, is_connected, is_active}
use stream_gateway.Streams.State.{InputInfo, World}
use stream_gateway.Control.Inputs.{initial_status}
use stream_gateway.StateProcessor.Handlers.{
  metadata, handle_input_state_change, handle_output_state_change, StateChange, process,
  process_all,
}
use stream_gateway.Tasks.Messages.{Message, change, changes, changes-append}
use stream_gateway.Tasks.SrtLaws.{ending-success, ending-failure, gave_up-success}
use stream_gateway.Tasks.Srt.{
  Turn, failure, success, cancel, Read, Inner, Ending, max_retries, socket_messages, reconnect_loop,
  read_loop, source_address, input_task,
}

-- The list ends in the change.
abbrev EndsIn : StateChange → List StateChange → Type 0
EndsIn c cs = (front : List StateChange) × (cs ≡ front ++ c ∷ [])

EndsIn-append : (c : StateChange) (a b : List StateChange) → EndsIn c b → EndsIn c (a ++ b)
EndsIn-append c a b (front, e) =
    (a ++ front, ap (λ t. a ++ t) e ∙ sym (append_assoc a front (c ∷ [])))

module _ {ℓ} {E : Type ℓ} (inner : List E → List Message × Inner)
    (notify : StreamStatus → Option ℕ → Option Text → StateChange) (initial : StreamStatus)
    (address : Text → Text) where
  run : ℕ → List (Turn E) → List Message × Ending
  run = reconnect_loop inner notify initial address

  -- The last change of a task that gave up is to the error state.
  gives_up-EndsIn :
      (turns : List (Turn E)) (k : ℕ)
      → (run k turns).1 ≡ Ending.gave_up
      → EndsIn (notify StreamStatus.error none none) (changes (run k turns).0)
  unfolding run reconnect_loop
  gives_up-EndsIn [] k e = absurd (cc)
  gives_up-EndsIn (failure ∷ turns) k e = elim (Bool-cases (leb max_retries (suc k))) [
    | inl h ↦ rw (h, reconnect_loop) (notify initial none none ∷ [], refl)
    | inr h ↦
        rw (h, reconnect_loop)
          (EndsIn-append (notify StreamStatus.error none none)
            (notify initial none none ∷ notify StreamStatus.reconnecting none none ∷ [])
            (changes (run (suc k) turns).0)
            (gives_up-EndsIn turns (suc k)
              (sym (ending-failure inner notify initial address k turns h) ∙ e)))
  ]
  gives_up-EndsIn (success peer now events ∷ turns) k e =
      let (h, later) =
        gave_up-success inner notify initial address (run 0 turns).1 (inner events).1
          (sym (ending-success inner notify initial address k peer now events turns) ∙ e) in
      rw (h, reconnect_loop)
        (rw
          (changes-append opened
            (sent ++ change (notify StreamStatus.reconnecting none none) ∷ (run 0 turns).0))
          (rw
            (changes-append sent
              (change (notify StreamStatus.reconnecting none none) ∷ (run 0 turns).0))
            (EndsIn-append error (changes opened)
              (changes sent ++ (reconnecting ++ changes (run 0 turns).0))
              (EndsIn-append error (changes sent) (reconnecting ++ changes (run 0 turns).0) (
                EndsIn-append error reconnecting (changes (run 0 turns).0)
                  (gives_up-EndsIn turns 0 later))))))
    where
      error : StateChange
      error = notify StreamStatus.error none none

      reconnecting : List StateChange
      reconnecting = notify StreamStatus.reconnecting none none ∷ []

      sent : List Message
      sent = (inner events).0

      opened : List Message
      opened = socket_messages inner notify initial address peer now
  gives_up-EndsIn (cancel begun ∷ turns) k e = absurd (cc)

-- An entry that is replaced by one with the same task handle.
replaced :
    (w : World) (key id : ℕ) (old new info : InputInfo)
    → lookup key w.streams ≡ some old
    → new.task_handle ≡ old.task_handle
    → lookup id w.streams ≡ some info
    → (after : InputInfo) × (lookup id (insert key new w.streams) ≡ some after)
      × (after.task_handle ≡ info.task_handle)
replaced w key id old new info f same l = elim (Bool-cases (key == id)) [
  | inl hit ↦ (
    new,
    ground (arith, hit, lookup-insert key id new w.streams),
    same ∙ ap (λ (i : InputInfo). i.task_handle) (taken hit),
  )
  | inr miss ↦ (info, ground (arith, miss, l, lookup-insert key id new w.streams), refl)
]
  where
    taken : (key == id) ≡ true → old ≡ info
    taken hit = ground (arith, hit, f, l)

-- A change leaves an entry where there was one, with its task handle.
process-entry :
    (w : World) (c : StateChange) (id : ℕ) (info : InputInfo)
    → lookup id w.streams ≡ some info
    → (after : InputInfo) × (lookup id (process w c).0.streams ≡ some after)
      × (after.task_handle ≡ info.task_handle)
unfolding process handle_input_state_change handle_output_state_change
process-entry w (StateChange.input_state_changed key status at addr) id info l =
    elim (Option-cases (lookup key w.streams)) [
      | inl e ↦ rw (e, handle_input_state_change) (info, l, refl)
      | inr (old, e) ↦
          rw (e, handle_input_state_change)
            (replaced w key id old
              (record old {
                status = status;
                connected_at = metadata status at old.connected_at;
                source_address = metadata status addr old.source_address;
              })
              info e refl l)
    ]
process-entry w (StateChange.output_state_changed key output status at addr) id info l =
    elim (Option-cases (lookup key w.streams)) [
      | inl e ↦ rw (e, handle_output_state_change) (info, l, refl)
      | inr (old, e) ↦ elim (Option-cases (lookup output old.output_tasks)) [
        | inl f ↦ rw (e, handle_output_state_change) (rw f (info, l, refl))
        | inr (o, f) ↦
            rw (e, handle_output_state_change)
              (rw f (
                replaced w key id old
                  (record old {
                    output_tasks =
                        insert output
                          (record o {
                            status = status;
                            connected_at = metadata status at o.connected_at;
                            peer_address = metadata status addr o.peer_address;
                          })
                          old.output_tasks;
                  })
                  info e refl l))
      ]
    ]

process_all-entry :
    (cs : List StateChange) (w : World) (id : ℕ) (info : InputInfo)
    → lookup id w.streams ≡ some info
    → (after : InputInfo) × (lookup id (process_all w cs).0.streams ≡ some after)
      × (after.task_handle ≡ info.task_handle)
unfolding process_all
process_all-entry [] w id info l = (info, l, refl)
process_all-entry (c ∷ cs) w id info l =
    let (middle, e, same) = process-entry w c id info l in
    let (after, f, still) = process_all-entry cs (process w c).0 id middle e in
    (after, f, still ∙ same)

process_all-append :
    (a b : List StateChange) (w : World)
    → (process_all w (a ++ b)).0 ≡ (process_all (process_all w a).0 b).0
unfolding process_all
process_all-append [] b w = refl
process_all-append (c ∷ a) b w = process_all-append a b (process w c).0

-- The entry of an input after a last change to the error state.
error-entry :
    (v : World) (id : ℕ) (middle : InputInfo)
    → lookup id v.streams ≡ some middle
    → (entry : InputInfo) × (lookup id
          (process_all v
            (StateChange.input_state_changed id StreamStatus.error none none ∷ [])).0.streams
        ≡ some entry)
      × (entry.status ≡ StreamStatus.error)
      × (entry.connected_at ≡ none)
      × (entry.task_handle ≡ middle.task_handle)
unfolding process_all process handle_input_state_change metadata is_connected is_active
error-entry v id middle e =
    rw (e, handle_input_state_change)
      (ended, lookup-insert_self id ended v.streams, refl, refl, refl)
  where
    ended : InputInfo
    ended = record middle {
      status = StreamStatus.error;
      connected_at = none;
      source_address = none;
    }

-- When the task of an SRT input gives up and all its state changes are handled, the entry of the
-- input, if there was one before, is in the error state and without a time of connection; its task
-- handle is as it was.
pub input_task-process :
    (config : SrtInputConfig) (w : World) (id : ℕ) (info : InputInfo) (turns : List (Turn Read))
    → lookup id w.streams ≡ some info
    → (input_task config id turns).1 ≡ Ending.gave_up
    → (entry : InputInfo) × (lookup id
          (process_all w (changes (input_task config id turns).0)).0.streams
        ≡ some entry)
      × (entry.status ≡ StreamStatus.error)
      × (entry.connected_at ≡ none)
      × (entry.task_handle ≡ info.task_handle)
unfolding input_task run
input_task-process config w id info turns l e =
    let (front, last) =
      gives_up-EndsIn read_loop (StateChange.input_state_changed id) (initial_status config)
        (source_address config) turns 0 e in
    let (middle, f, same) = process_all-entry front w id info l in
    let (entry, g, status, at, handle) = error-entry (process_all w front).0 id middle f in
    rw last (
      rw
        (process_all-append front
          (StateChange.input_state_changed id StreamStatus.error none none ∷ []) w)
        (entry, g, status, at, handle ∙ same))

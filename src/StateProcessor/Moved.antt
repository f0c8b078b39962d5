-- ===== src/StateProcessor/Moved.antt =====
-- The outputs of inputs after a state change of src/state_processor.rs.
use stream_gateway.Common.{ℕ, ◌≡◌, refl, some, inl, inr, Option-cases, arith}
use stream_gateway.Common.Maps.{Map, lookup, insert, contains_key, lookup-insert}
use stream_gateway.Models.Requests.{CreateOutputRequest}
use stream_gateway.Streams.State.{OutputInfo, World}
use stream_gateway.Control.OutputLaws.{Apart}
use stream_gateway.Control.Moves.{Held, Move, Move-refl, Moves, Moves-refl, Moves-store}
use stream_gateway.StateProcessor.Handlers.{
  metadata, handle_input_state_change, handle_output_state_change, StateChange, process,
}

-- The entry of an output is replaced.
Move-replace :
    (id : ℕ) (old new : OutputInfo) (tasks : Map OutputInfo) (stopped : Map CreateOutputRequest)
    → lookup id tasks ≡ some old
    → Move tasks stopped (insert id new tasks) stopped
unfolding Move Held Apart contains_key
Move-replace id old new tasks stopped l = (
  λ j h. ground (arith, h, l, lookup-insert id j new tasks),
  λ apart j. ground (arith, apart j, l, lookup-insert id j new tasks),
)

pub process-Moves : (w : World) (change : StateChange) → Moves w (process w change).0
unfolding process handle_input_state_change handle_output_state_change
process-Moves w (StateChange.input_state_changed input_id status at address) =
    elim (Option-cases (lookup input_id w.streams)) [
      | inl e ↦ rw (e, handle_input_state_change) (Moves-refl w)
      | inr (info, e) ↦
          rw (e, handle_input_state_change)
            (Moves-store w w input_id info
              (record info {
                status = status;
                connected_at = metadata status at info.connected_at;
                source_address = metadata status address info.source_address;
              })
              e refl (Move-refl info.output_tasks info.stopped_outputs))
    ]
process-Moves w (StateChange.output_state_changed input_id id status at address) =
    elim (Option-cases (lookup input_id w.streams)) [
      | inl e ↦ rw (e, handle_output_state_change) (Moves-refl w)
      | inr (info, e) ↦ elim (Option-cases (lookup id info.output_tasks)) [
        | inl f ↦ rw (e, handle_output_state_change) (rw f (Moves-refl w))
        | inr (o, f) ↦
            rw (e, handle_output_state_change)
              (rw f (
                Moves-store w w input_id info
                  (record info { output_tasks = insert id (next o) info.output_tasks }) e refl
                  (Move-replace id o (next o) info.output_tasks info.stopped_outputs f)))
      ]
    ]
  where
    next : OutputInfo → OutputInfo
    next o = record o {
      status = status;
      connected_at = metadata status at o.connected_at;
      peer_address = metadata status address o.peer_address;
    }

-- ===== src/Control/Steps.antt =====
-- The starts and stops of src/stream_control.rs and of src/analysis.rs as steps, interleaved with those of
-- other tasks. The handlers of src/api.rs that create, update or delete are not among them, and neither
-- are the state changes of src/state_processor.rs.
use stream_gateway.Common.{ℕ, Bool, Option}
use stream_gateway.Models.Analysis.{AnalysisType}
use stream_gateway.Streams.State.{World}
use stream_gateway.Control.Outcome.{Platform}
use stream_gateway.Control.Analysis.{start_analysis, stop_analysis}
use stream_gateway.Control.Outputs.{start_output, stop_output}
use stream_gateway.Control.Inputs.{start_input, stop_input}
use stream_gateway.Control.Moves.{Moves, Moves-refl, Moves-trans}
use stream_gateway.Control.Atomic.{
  stop_output-Moves, start_output-Moves, stop_input-Moves, stop_analysis-Moves,
}
use stream_gateway.Control.Interleaved.{start_input-Moves, start_analysis-Moves}

-- The worlds that these six operations lead to; what other tasks do in between are steps too.
pub data Steps (p : Platform) : World → World → Type 0 where
  none_yet : (w : World) → Steps p w w
  output_stopped :
      {v w : World} (input_id id : ℕ) → Steps p v w → Steps p v (stop_output w input_id id).0
  output_started :
      {v w : World} (input_id id : ℕ) → Steps p v w → Steps p v (start_output p w input_id id).0
  input_stopped : {v w : World} (input_id : ℕ) → Steps p v w → Steps p v (stop_input w input_id).0
  input_started :
      {v w : World} (meanwhile : World → World) (input_id : ℕ)
      → ((u : World) → Steps p u (meanwhile u))
      → Steps p v w
      → Steps p v (start_input meanwhile p w input_id).0
  analysis_stopped :
      {v w : World} (input_id : ℕ) (analysis_type : AnalysisType)
      → Steps p v w
      → Steps p v (stop_analysis w input_id analysis_type).0
  analysis_started :
      {v w : World} (meanwhile : World → World) (held : Bool) (input_id : ℕ)
      (analysis_type : AnalysisType) (timeout_minutes : Option ℕ)
      → ((u : World) → Steps p u (meanwhile u))
      → Steps p v w
      → Steps p v (start_analysis meanwhile held w input_id analysis_type timeout_minutes).0

-- The outputs after any steps were there before.
pub Steps-Moves : {p : Platform} {v w : World} → Steps p v w → Moves v w
Steps-Moves (none_yet w) = Moves-refl w
Steps-Moves (output_stopped input_id id s) =
    Moves-trans _ _ _ (Steps-Moves s) (stop_output-Moves _ input_id id)
Steps-Moves {p = p} (output_started input_id id s) =
    Moves-trans _ _ _ (Steps-Moves s) (start_output-Moves p _ input_id id)
Steps-Moves (input_stopped input_id s) =
    Moves-trans _ _ _ (Steps-Moves s) (stop_input-Moves _ input_id)
Steps-Moves {p = p} (input_started meanwhile input_id others s) =
    Moves-trans _ _ _ (Steps-Moves s)
      (start_input-Moves meanwhile (λ u. Steps-Moves (others u)) p _ input_id)
Steps-Moves (analysis_stopped input_id analysis_type s) =
    Moves-trans _ _ _ (Steps-Moves s) (stop_analysis-Moves _ input_id analysis_type)
Steps-Moves (analysis_started meanwhile held input_id analysis_type timeout_minutes others s) =
    Moves-trans _ _ _ (Steps-Moves s) (
      start_analysis-Moves meanwhile (λ u. Steps-Moves (others u)) held _ input_id analysis_type
        timeout_minutes)

-- ===== src/Control/Atomic.antt =====
-- The outputs of inputs after each operation of src/stream_control.rs and src/analysis.rs that holds
-- the guard throughout.
use stream_gateway.Common.{ℕ, inl, inr, refl, Bool-cases, Option-cases}
use stream_gateway.Common.Maps.{lookup, insert, remove}
use stream_gateway.Models.Analysis.{AnalysisType}
use stream_gateway.Streams.State.{InputInfo, AnalysisInfo, World}
use stream_gateway.Control.Outcome.{Platform}
use stream_gateway.Control.Analysis.{find_analysis, add_analysis, stop_analysis}
use stream_gateway.Control.Outputs.{
  start_output_internal, start_output_of, start_output, stop_output, is_stopped, abort_handle,
}
use stream_gateway.Control.Inputs.{stop_input, stopped_entry, abort_tasks}
use stream_gateway.Control.StopLaws.{stop_input_lem, abort_tasks_streams, abort_handle_streams}
use stream_gateway.Control.Destination.{stop_output_lem}
use stream_gateway.Control.OutputLaws.{start_output_internal_streams}
use stream_gateway.Control.Moves.{
  Move-refl, Moves, Moves-refl, Moves-store, Move-stop, start_output_internal-Move,
  stopped_entry-Move,
}

pub stop_output-Moves : (w : World) (input_id id : ℕ) → Moves w (stop_output w input_id id).0
unfolding stop_output
stop_output-Moves w input_id id = elim (Option-cases (lookup input_id w.streams)) [
  | inl e ↦ rw (e, stop_output) (Moves-refl w)
  | inr (info, e) ↦ elim (Option-cases (lookup id info.output_tasks)) [
    | inl f ↦ rw (e, stop_output) (rw f (Moves-refl w))
    | inr (o, f) ↦ rw (stop_output_lem w input_id id info o e f) (
        Moves-store w (abort_handle o.abort_handle w) input_id info
          (record info {
            output_tasks = remove id info.output_tasks;
            stopped_outputs = insert id o.config info.stopped_outputs;
          })
          e (abort_handle_streams o.abort_handle w)
          (Move-stop id o info.output_tasks info.stopped_outputs f))
  ]
]

pub start_output-Moves :
    (p : Platform) (w : World) (input_id id : ℕ) → Moves w (start_output p w input_id id).0
unfolding start_output start_output_of
start_output-Moves p w input_id id = elim (Option-cases (lookup input_id w.streams)) [
  | inl e ↦ rw (e, start_output) (Moves-refl w)
  | inr (info, e) ↦ elim (Bool-cases (is_stopped info.status)) [
    | inl f ↦ rw (e, start_output) (rw f (Moves-refl w))
    | inr f ↦ elim (Option-cases (lookup id info.stopped_outputs)) [
      | inl g ↦ rw (e, start_output) (rw (f, start_output) (rw (g, start_output_of) (Moves-refl w)))
      | inr (config, g) ↦
          rw (e, start_output)
            (rw (f, start_output)
              (rw (g, start_output_of)
                (Moves-store w (start_output_internal p w (left info) id config).0 input_id info
                  (start_output_internal p w (left info) id config).1 e
                  (start_output_internal_streams p w (left info) id config)
                  (start_output_internal-Move p w info id config g))))
    ]
  ]
]
  where
    left : InputInfo → InputInfo
    left info = record info { stopped_outputs = remove id info.stopped_outputs }

pub stop_input-Moves : (w : World) (input_id : ℕ) → Moves w (stop_input w input_id).0
unfolding stop_input stopped_entry
stop_input-Moves w input_id = elim (Option-cases (lookup input_id w.streams)) [
  | inl e ↦ rw (e, stop_input) (Moves-refl w)
  | inr (info, e) ↦ elim (Bool-cases (is_stopped info.status)) [
    | inl f ↦ rw (e, stop_input) (rw f (Moves-refl w))
    | inr f ↦ rw (stop_input_lem w input_id info e f) (
        Moves-store w (abort_tasks info w) input_id info (stopped_entry info) e
          (abort_tasks_streams info w) (stopped_entry-Move info))
  ]
]

pub add_analysis-Moves :
    (w : World) (input_id : ℕ) (a : AnalysisInfo) → Moves w (add_analysis w input_id a).0
unfolding add_analysis
add_analysis-Moves w input_id a = elim (Option-cases (lookup input_id w.streams)) [
  | inl e ↦ rw (e, add_analysis) (Moves-refl w)
  | inr (info, e) ↦
      rw (e, add_analysis)
        (Moves-store w w input_id info
          (record info { analysis_tasks = insert a.id a info.analysis_tasks }) e refl
          (Move-refl info.output_tasks info.stopped_outputs))
]

pub stop_analysis-Moves :
    (w : World) (input_id : ℕ) (analysis_type : AnalysisType)
    → Moves w (stop_analysis w input_id analysis_type).0
unfolding stop_analysis Moves
stop_analysis-Moves w input_id analysis_type = elim (Option-cases (lookup input_id w.streams)) [
  | inl e ↦ rw (e, stop_analysis) (Moves-refl w)
  | inr (info, e) ↦ elim (Option-cases (find_analysis analysis_type info.analysis_tasks)) [
    | inl f ↦ rw (e, stop_analysis) (rw f (Moves-refl w))
    | inr (id, f) ↦ elim (Option-cases (lookup id info.analysis_tasks)) [
      | inl g ↦ rw (e, stop_analysis) (rw f (rw g (Moves-refl w)))
      | inr (a, g) ↦
          rw (e, stop_analysis)
            (rw f (
              rw g (
                Moves-store w w input_id info
                  (record info { analysis_tasks = remove id info.analysis_tasks }) e refl
                  (Move-refl info.output_tasks info.stopped_outputs))))
    ]
  ]
]

-- ===== src/Control/Interleaved.antt =====
-- The outputs of inputs after the operations of src/stream_control.rs and src/analysis.rs that
-- give the guard up, with what other tasks do in between.
use stream_gateway.Common.{
  ℕ, suc, ◌≡◌, inl, inr, refl, sym, ◌∙◌, Bool, true, false, Option, none, some, List, [], ◌∷◌,
  Bool-cases, Option-cases, unwrap_or,
}
use stream_gateway.Common.Maps.{lookup}
use stream_gateway.Models.Requests.{CreateInputRequest, SptsInput}
use stream_gateway.Models.Status.{StreamStatus, is_active}
use stream_gateway.Models.Analysis.{AnalysisType}
use stream_gateway.Streams.State.{InputInfo, AnalysisInfo, World, perform, draw, analysis_task}
use stream_gateway.Common.Texts.{Text}
use stream_gateway.Control.Outcome.{Platform}
use stream_gateway.Streams.Spawn.{spawn_spts_input}
use stream_gateway.Control.Analysis.{
  find_analysis, expiry, add_analysis, new_analysis, start_analysis,
}
use stream_gateway.Control.Inputs.{
  start_outputs, started, restart_guarded, finish_guarded, restart_analyses, finish_spts,
  start_spts, source_exists, resume_input, start_input,
}
use stream_gateway.Control.Restart.{is_spts, resume_input_lem}
use stream_gateway.Control.OutputLaws.{start_outputs_streams}
use stream_gateway.Control.Outputs.{store}
use stream_gateway.Control.Moves.{
  Move, Moves, Moves-refl, Moves-trans, Moves-store, start_outputs-Move,
}
use stream_gateway.Control.Atomic.{add_analysis-Moves}

-- The entry after its stopped outputs were drained and started.
ready : Platform → World → InputInfo → InputInfo
ready p w info = (start_outputs p w (record info { stopped_outputs = [] }) info.stopped_outputs).1

-- What other tasks do in between only moves outputs, too.
module _ (meanwhile : World → World) (keeps : (u : World) → Moves u (meanwhile u)) where
  pub start_analysis-Moves :
      (held : Bool) (w : World) (input_id : ℕ) (analysis_type : AnalysisType)
      (timeout_minutes : Option ℕ)
      → Moves w (start_analysis meanwhile held w input_id analysis_type timeout_minutes).0
  unfolding start_analysis Moves
  start_analysis-Moves true w input_id analysis_type timeout_minutes = Moves-refl w
  start_analysis-Moves false w input_id analysis_type timeout_minutes =
      elim (Option-cases (lookup input_id w.streams)) [
        | inl e ↦ rw (e, start_analysis) (Moves-refl w)
        | inr (info, e) ↦ elim (Option-cases (find_analysis analysis_type info.analysis_tasks)) [
          | inl f ↦ elim (Option-cases (expiry w.now timeout_minutes)) [
            | inl late ↦ rw (e, start_analysis) (rw (f, late) (Moves-refl w))
            | inr (expires_at, held) ↦
                rw (e, start_analysis)
                  (rw (f, held)
                    (Moves-trans w (meanwhile (begun info)) (added info expires_at)
                      (keeps (begun info))
                      (add_analysis-Moves (meanwhile (begun info)) input_id (fresh expires_at))))
          ]
          | inr (id, f) ↦ rw (e, start_analysis) (rw f (Moves-refl w))
        ]
      ]
    where
      begun : InputInfo → World
      begun info = perform (analysis_task (suc w.next) info.packet_tx) (draw (draw w))

      fresh : Option ℕ → AnalysisInfo
      fresh expires_at = new_analysis w input_id analysis_type timeout_minutes expires_at

      added : InputInfo → Option ℕ → World
      added info expires_at = (add_analysis (meanwhile (begun info)) input_id (fresh expires_at)).0

  restart_analyses-Moves :
      (analyses : List AnalysisType) (w : World) (input_id : ℕ)
      → Moves w (restart_analyses meanwhile w input_id analyses)
  unfolding restart_analyses
  restart_analyses-Moves [] w input_id = Moves-refl w
  restart_analyses-Moves (analysis_type ∷ others) w input_id =
      let v = (start_analysis meanwhile false w input_id analysis_type none).0 in
      Moves-trans w v (restart_analyses meanwhile v input_id others)
        (start_analysis-Moves false w input_id analysis_type none)
        (restart_analyses-Moves others v input_id)

  -- The lock is never got, so nothing happens after the first.
  restart_guarded-Moves :
      (analyses : List AnalysisType) (w : World) (input_id : ℕ)
      → Moves w (restart_guarded meanwhile w input_id analyses).0
  unfolding restart_guarded start_analysis
  restart_guarded-Moves [] w input_id = Moves-refl w
  restart_guarded-Moves (analysis_type ∷ others) w input_id = Moves-refl w

  finish_guarded-Moves :
      (p : Platform) (w v : World) (input_id : ℕ) (first info : InputInfo)
      → lookup input_id w.streams ≡ some first
      → info.output_tasks ≡ first.output_tasks
      → info.stopped_outputs ≡ first.stopped_outputs
      → v.streams ≡ w.streams
      → Moves w (finish_guarded meanwhile p v input_id info).0
  unfolding finish_guarded ready
  finish_guarded-Moves p w v input_id first info found tasks stopped same =
      Moves-trans w stored (finish_guarded meanwhile p v input_id info).0
        (Moves-store w after input_id first (record (ready p v info) { paused_analysis = [] }) found
          unchanged move)
        (restart_guarded-Moves (ready p v info).paused_analysis stored input_id)
    where
      after : World
      after = (start_outputs p v (record info { stopped_outputs = [] }) info.stopped_outputs).0

      stored : World
      stored = store input_id (record (ready p v info) { paused_analysis = [] }) after

      unchanged : after.streams ≡ w.streams
      unchanged =
          start_outputs_streams p info.stopped_outputs v (record info { stopped_outputs = [] })
          ∙ same

      move :
          Move first.output_tasks first.stopped_outputs
            (ready p v info).output_tasks
            (ready p v info).stopped_outputs
      move = rw (sym tasks, sym stopped) (start_outputs-Move p v info)

  finish_spts-Moves :
      (p : Platform) (w : World) (input_id : ℕ) (new_input_info : InputInfo)
      → Moves w (finish_spts meanwhile p w input_id new_input_info).0
  unfolding finish_spts ready started
  finish_spts-Moves p w input_id new_input_info = elim (Option-cases (lookup input_id w.streams)) [
    | inl e ↦ rw (e, finish_spts) (Moves-refl w)
    | inr (info, e) ↦
        rw (e, finish_spts)
          (Moves-trans w (stored info) _
            (Moves-store w (after info) input_id info
              (record (ready p w (fresh info)) { paused_analysis = [] }) e
              (start_outputs_streams p info.stopped_outputs w
                (record (fresh info) { stopped_outputs = [] }))
              (start_outputs-Move p w (fresh info)))
            (Moves-trans (stored info) (meanwhile (stored info)) _ (keeps (stored info)) (
              restart_analyses-Moves (ready p w (fresh info)).paused_analysis
                (meanwhile (stored info)) input_id)))
  ]
    where
      fresh : InputInfo → InputInfo
      fresh info =
          started info w new_input_info.task_handle new_input_info.packet_tx StreamStatus.listening

      after : InputInfo → World
      after info =
          (start_outputs p w (record (fresh info) { stopped_outputs = [] }) info.stopped_outputs).0

      stored : InputInfo → World
      stored info =
          store input_id (record (ready p w (fresh info)) { paused_analysis = [] }) (after info)

  start_spts-Moves :
      (p : Platform) (w : World) (input_id : ℕ) (name : Option Text) (c : SptsInput)
      → Moves w (start_spts meanwhile p w input_id name c).0
  unfolding start_spts spawn_spts_input Moves
  start_spts-Moves p w input_id name c = elim (Bool-cases (source_exists w c.source_input_id)) [
    | inl e ↦
        rw (e, start_spts)
          (elim (Option-cases (lookup c.source_input_id (meanwhile w).streams)) [
            | inl f ↦ rw f (keeps w)
            | inr (source, f) ↦ rw f (
                Moves-trans w (meanwhile (begun source)) (finished source)
                  (Moves-trans w (meanwhile w) (meanwhile (begun source)) (keeps w)
                    (keeps (begun source)))
                  (finish_spts-Moves p (meanwhile (begun source)) input_id (made source)))
          ])
    | inr e ↦ rw (e, start_spts) (Moves-refl w)
  ]
    where
      begun : InputInfo → World
      begun source =
          (spawn_spts_input (meanwhile w) source input_id c.program_number
            (unwrap_or c.fill_with_nulls false) name).0

      made : InputInfo → InputInfo
      made source =
          (spawn_spts_input (meanwhile w) source input_id c.program_number
            (unwrap_or c.fill_with_nulls false) name).1

      finished : InputInfo → World
      finished source =
          (finish_spts meanwhile p (meanwhile (begun source)) input_id (made source)).0

  guarded-Moves :
      (p : Platform) (w : World) (input_id : ℕ) (name : Option Text) (info : InputInfo)
      (config : CreateInputRequest)
      → is_spts config ≡ false
      → lookup input_id w.streams ≡ some info
      → Moves w (resume_input meanwhile p w input_id name info config).0
  unfolding started
  guarded-Moves p w input_id name info config h found =
      let (v, handle, tx, status, active, same, e) =
        resume_input_lem meanwhile p w input_id name info config h in
      rw e (
        finish_guarded-Moves p w v input_id info (started info v handle tx status) found refl refl
          same)

  resume_input-Moves :
      (p : Platform) (w : World) (input_id : ℕ) (name : Option Text) (info : InputInfo)
      (config : CreateInputRequest)
      → lookup input_id w.streams ≡ some info
      → Moves w (resume_input meanwhile p w input_id name info config).0
  unfolding resume_input
  resume_input-Moves p w input_id name info (CreateInputRequest.spts c) found =
      Moves-trans w (meanwhile w) _ (keeps w) (start_spts-Moves p (meanwhile w) input_id name c)
  resume_input-Moves p w input_id name info (CreateInputRequest.udp c) found =
      guarded-Moves p w input_id name info (CreateInputRequest.udp c) refl found
  resume_input-Moves p w input_id name info (CreateInputRequest.srt n c) found =
      guarded-Moves p w input_id name info (CreateInputRequest.srt n c) refl found

  pub start_input-Moves :
      (p : Platform) (w : World) (input_id : ℕ) → Moves w (start_input meanwhile p w input_id).0
  unfolding start_input
  start_input-Moves p w input_id = elim (Option-cases (lookup input_id w.streams)) [
    | inl e ↦ rw (e, start_input) (Moves-refl w)
    | inr (first, e) ↦ elim (Bool-cases (is_active first.status)) [
      | inl f ↦ rw (e, start_input) (rw f (Moves-refl w))
      | inr f ↦
          rw (e, start_input)
            (rw f (elim (Option-cases (lookup first.id (meanwhile w).streams)) [
              | inl g ↦ rw g (keeps w)
              | inr (info, g) ↦ rw g (
                  Moves-trans w (meanwhile w) _ (keeps w)
                    (resume_input-Moves p (meanwhile w) first.id first.name info first.config g))
            ]))
    ]
  ]

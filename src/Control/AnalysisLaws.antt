-- ===== src/Control/AnalysisLaws.antt =====
-- `start_analysis` of src/analysis.rs: the check that an analysis of the type is running.
use stream_gateway.Common.{
  ℕ, suc, ◌≡◌, inl, inr, refl, ◌==◌, true, false, Option, none, some, [], ◌∷◌, Bool-cases,
}
use stream_gateway.Common.Maps.{Map, lookup, insert, lookup-insert_self}
use stream_gateway.Models.Analysis.{AnalysisType, same_type}
use stream_gateway.Streams.State.{InputInfo, AnalysisInfo, World, perform, draw, analysis_task}
use stream_gateway.Control.Outputs.{store}
use stream_gateway.Control.Outcome.{done, failed, analysis_running}
use stream_gateway.Control.Analysis.{
  find_analysis, expiry, new_analysis, add_analysis, start_analysis,
}
use stream_gateway.Control.Restart.{alone}

same_type_refl : (t : AnalysisType) → same_type t t ≡ true
unfolding same_type
same_type_refl AnalysisType.mux = refl
same_type_refl AnalysisType.tr101 = refl

find_analysis-insert :
    (id : ℕ) (a : AnalysisInfo) (tasks : Map AnalysisInfo)
    → (found : ℕ) × (find_analysis a.analysis_type (insert id a tasks) ≡ some found)
unfolding find_analysis insert
find_analysis-insert id a [] = (id, rw (same_type_refl a.analysis_type, find_analysis) refl)
find_analysis-insert id a ((k, b) ∷ tasks) =
    let (found, e) = find_analysis-insert id a tasks in
    elim (Bool-cases (k == id)) [
      | inl same ↦ rw same (id, rw (same_type_refl a.analysis_type, find_analysis) refl)
      | inr other ↦ rw other (elim (Bool-cases (same_type b.analysis_type a.analysis_type)) [
        | inl taken ↦ (k, rw (taken, find_analysis) refl)
        | inr skipped ↦ (found, rw (skipped, find_analysis) e)
      ])
    ]

-- The world after a start that succeeds.
added : World → ℕ → InputInfo → AnalysisInfo → World
added w input_id info a =
    store input_id (record info { analysis_tasks = insert a.id a info.analysis_tasks })
      (perform (analysis_task (suc w.next) info.packet_tx) (draw (draw w)))

start_analysis_lem :
    (w : World) (input_id : ℕ) (info : InputInfo) (analysis_type : AnalysisType)
    (timeout_minutes expires_at : Option ℕ)
    → lookup input_id w.streams ≡ some info
    → find_analysis analysis_type info.analysis_tasks ≡ none
    → expiry w.now timeout_minutes ≡ some expires_at
    → start_analysis alone false w input_id analysis_type timeout_minutes ≡ (
      added w input_id info (new_analysis w input_id analysis_type timeout_minutes expires_at),
      done w.next,
    )
unfolding start_analysis add_analysis new_analysis added
start_analysis_lem w input_id info analysis_type timeout_minutes expires_at l f h =
    rw (l, start_analysis) (rw (f, h, start_analysis) (rw (l, add_analysis) refl))

-- An analysis is started of an input that has none of its type, no other task acts in between, and
-- either no timeout is given or the time at which it ends can be held by a `SystemTime`: it succeeds,
-- and a second start of that type fails and changes nothing.
pub start_analysis_twice :
    (w : World) (input_id : ℕ) (info : InputInfo) (analysis_type : AnalysisType)
    (timeout_minutes expires_at again : Option ℕ)
    → lookup input_id w.streams ≡ some info
    → find_analysis analysis_type info.analysis_tasks ≡ none
    → expiry w.now timeout_minutes ≡ some expires_at
    → ((start_analysis alone false w input_id analysis_type timeout_minutes).1 ≡ done w.next)
      × (start_analysis alone false
            (start_analysis alone false w input_id analysis_type timeout_minutes).0
            input_id
            analysis_type
            again
          ≡ (
            (start_analysis alone false w input_id analysis_type timeout_minutes).0,
            failed analysis_running,
          ))
unfolding start_analysis new_analysis added
start_analysis_twice w input_id info analysis_type timeout_minutes expires_at again l f h =
    let a = new_analysis w input_id analysis_type timeout_minutes expires_at in
    let grown = record info { analysis_tasks = insert a.id a info.analysis_tasks } in
    let (found, e) = find_analysis-insert a.id a info.analysis_tasks in
    rw (start_analysis_lem w input_id info analysis_type timeout_minutes expires_at l f h) (
      refl,
      rw (lookup-insert_self input_id grown w.streams, start_analysis)
          (rw (e, start_analysis) refl),
    )

-- ===== src/Control/Analysis.antt =====
-- `start_analysis`, `stop_analysis`, `stop_all_analysis` and `get_active_analyses` of
-- src/analysis.rs, and `spawn_mux_analysis` and `spawn_tr101_analysis` as far as they start a task.
use stream_gateway.Common.{
  ℕ, suc, ◌+◌, ◌*◌, ◌%◌, Bool, true, false, Option, none, some, List, [], ◌∷◌, if◌then◌else◌, leb,
}
use stream_gateway.Common.Maps.{Map, lookup, insert, remove}
use stream_gateway.Models.Analysis.{AnalysisType, same_type}
use stream_gateway.Streams.State.{AnalysisInfo, World, perform, draw, analysis_task, aborted}
use stream_gateway.Control.Outcome.{
  input_not_found, input_gone, analysis_running, analysis_not_found, Outcome, done, failed,
  deadlocked, panicked,
}

-- `analysis_tasks.iter().find(|…| analysis.analysis_type == analysis_type)`: the key of the first.
unfoldable pub find_analysis : AnalysisType → Map AnalysisInfo → Option ℕ
unfolding same_type
find_analysis analysis_type [] = none
find_analysis analysis_type ((id, info) ∷ tasks) =
    if same_type info.analysis_type analysis_type
    then some id
    else find_analysis analysis_type tasks

-- The last second that a `SystemTime` of Unix can hold.
abbrev pub latest_time : ℕ
latest_time = 9223372036854775807

-- `SystemTime::now() + Duration::from_secs(minutes * 60)`, in seconds and the product in 64 bits;
-- the outer `none` is the panic of a sum that is too late.
unfoldable pub expiry : ℕ → Option ℕ → Option (Option ℕ)
expiry now none = some none
expiry now (some minutes) =
    let expires = now + minutes * 60 % 18446744073709551616 in
    if leb expires latest_time then some (some expires) else none

unfoldable pub new_analysis : World → ℕ → AnalysisType → Option ℕ → Option ℕ → AnalysisInfo
new_analysis w input_id analysis_type timeout_minutes expires_at = record {
  id = w.next;
  analysis_type = analysis_type;
  input_id = input_id;
  task_handle = suc w.next;
  created_at = w.now;
  timeout_minutes = timeout_minutes;
  expires_at = expires_at;
}

-- The second access: the new analysis is put into the input's map, if there still is one.
unfoldable pub add_analysis : World → ℕ → AnalysisInfo → World × Outcome ℕ
unfolding insert lookup
add_analysis w input_id info = elim (lookup input_id w.streams) [
  | none ↦ (w, failed input_gone)
  | some input_info ↦ (
    record w {
      streams =
          insert input_id
            (record input_info { analysis_tasks = insert info.id info input_info.analysis_tasks })
            w.streams;
    },
    done info.id,
  )
]

-- `start_analysis`, called by a task that holds the guard of `ACTIVE_STREAMS` (`true`) or that does
-- not. It begins by waiting for the read lock, and never gets it in the first case.
unfoldable pub start_analysis :
    (World → World) → Bool → World → ℕ → AnalysisType → Option ℕ → World × Outcome ℕ
unfolding find_analysis expiry new_analysis add_analysis lookup
start_analysis meanwhile true w input_id analysis_type timeout_minutes = (w, deadlocked)
start_analysis meanwhile false w input_id analysis_type timeout_minutes =
    elim (lookup input_id w.streams) [
      | none ↦ (w, failed input_not_found)
      | some input_info ↦ elim (find_analysis analysis_type input_info.analysis_tasks) [
        | some existing ↦ (w, failed analysis_running)
        | none ↦ elim (expiry w.now timeout_minutes) [
          | none ↦ (w, panicked)
          | some expires_at ↦
              add_analysis
                (meanwhile
                  (perform (analysis_task (suc w.next) input_info.packet_tx) (draw (draw w))))
                input_id (new_analysis w input_id analysis_type timeout_minutes expires_at)
        ]
      ]
    ]

-- `stop_analysis`
unfoldable pub stop_analysis : World → ℕ → AnalysisType → World × Outcome (Unit {0})
unfolding find_analysis lookup insert remove
stop_analysis w input_id analysis_type = elim (lookup input_id w.streams) [
  | none ↦ (w, failed input_not_found)
  | some input_info ↦ elim (find_analysis analysis_type input_info.analysis_tasks) [
    | none ↦ (w, failed analysis_not_found)
    | some analysis_id ↦ elim (lookup analysis_id input_info.analysis_tasks) [
      | none ↦ (w, done tt)
      | some analysis_info ↦ (
        perform (aborted analysis_info.task_handle) (record w {
          streams =
              insert input_id
                (record input_info {
                  analysis_tasks = remove analysis_id input_info.analysis_tasks;
                })
                w.streams;
        }),
        done tt,
      )
    ]
  ]
]

-- The tasks of all analyses are aborted.
unfoldable pub abort_analyses : World → Map AnalysisInfo → World
abort_analyses w [] = w
abort_analyses w ((id, info) ∷ tasks) = abort_analyses (perform (aborted info.task_handle) w) tasks

-- `stop_all_analysis`
unfoldable pub stop_all_analysis : World → ℕ → World × Outcome (Unit {0})
unfolding abort_analyses lookup insert
stop_all_analysis w input_id = elim (lookup input_id w.streams) [
  | none ↦ (w, failed input_not_found)
  | some input_info ↦ (
    abort_analyses
        (record w {
          streams = insert input_id (record input_info { analysis_tasks = [] }) w.streams;
        })
        input_info.analysis_tasks,
    done tt,
  )
]

-- The tuple of `get_active_analyses`.
pub record ActiveAnalysis : Type 0 where
  pub id : ℕ
  pub analysis_type : AnalysisType
  pub created_at : ℕ
  pub timeout_minutes : Option ℕ
  pub expires_at : Option ℕ

unfoldable pub active_analyses : Map AnalysisInfo → List ActiveAnalysis
active_analyses [] = []
active_analyses ((id, info) ∷ tasks) =
    record {
      id = id;
      analysis_type = info.analysis_type;
      created_at = info.created_at;
      timeout_minutes = info.timeout_minutes;
      expires_at = info.expires_at;
    }
    ∷ active_analyses tasks

-- `get_active_analyses`
unfoldable pub get_active_analyses : World → ℕ → Outcome (List ActiveAnalysis)
unfolding active_analyses lookup
get_active_analyses w input_id = elim (lookup input_id w.streams) [
  | none ↦ failed input_not_found
  | some input_info ↦ done (active_analyses input_info.analysis_tasks)
]

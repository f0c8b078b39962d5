-- ===== src/Control/Inputs.antt =====
-- `start_input` and `stop_input` of src/stream_control.rs.
use stream_gateway.Common.{
  ℕ, Bool, true, false, not, Option, none, some, List, [], ◌∷◌, ◌++◌, if◌then◌else◌, unwrap_or,
}
use stream_gateway.Common.Texts.{Text, text_eq}
use stream_gateway.Common.Maps.{Map, lookup, insert, extend}
use stream_gateway.Models.Requests.{
  SrtInputConfig, SptsInput, CreateInputRequest, CreateOutputRequest,
}
use stream_gateway.Models.Addresses.{any_host}
use stream_gateway.Models.Inputs.{get_bind_port, get_bind_host}
use stream_gateway.Models.Status.{StreamStatus, is_active}
use stream_gateway.Models.Analysis.{AnalysisType}
use stream_gateway.Streams.State.{OutputInfo, AnalysisInfo, InputInfo, World, perform, aborted}
use stream_gateway.Streams.Spawn.{spawn_udp_input_with_stats, spawn_with_stats, spawn_spts_input}
use stream_gateway.Control.Outcome.{
  input_not_found, input_gone, already_running, already_stopped, source_not_active, Outcome, done,
  failed, deadlocked, panicked, Platform,
}
use stream_gateway.Control.Analysis.{start_analysis}
use stream_gateway.Control.Outputs.{start_output_internal, store, is_stopped, abort_handle}

-- `Some(config.get_bind_host()).filter(|h| h != "0.0.0.0")`
unfoldable pub specific_host : Text → Option Text
unfolding text_eq
specific_host host = if text_eq host any_host then none else some host

unfoldable pub initial_status : SrtInputConfig → StreamStatus
initial_status (SrtInputConfig.listener c) = StreamStatus.listening
initial_status (SrtInputConfig.caller c) = StreamStatus.connecting

-- The fields that a start writes into the entry.
unfoldable pub started : InputInfo → World → Option ℕ → ℕ → StreamStatus → InputInfo
started input_info w task_handle packet_tx status = record input_info {
  task_handle = task_handle;
  packet_tx = packet_tx;
  status = status;
  started_at = some w.now;
}

-- The outputs of `stopped_outputs.drain()`, each started; one that fails is only logged.
unfoldable pub start_outputs :
    Platform → World → InputInfo → Map CreateOutputRequest → World × InputInfo
unfolding start_output_internal
start_outputs p w input_info [] = (w, input_info)
start_outputs p w input_info ((output_id, output_config) ∷ outputs) =
    let (v, next, ok) = start_output_internal p w input_info output_id output_config in
    start_outputs p v next outputs

-- An analysis that could not be restarted is paused again.
unfoldable pub pause_again : World → ℕ → AnalysisType → World
unfolding lookup
pause_again w input_id analysis_type = elim (lookup input_id w.streams) [
  | none ↦ w
  | some info ↦
      store input_id (record info { paused_analysis = info.paused_analysis ++ analysis_type ∷ [] })
        w
]

-- The loop that restarts the paused analyses of a UDP or SRT input, whose caller holds the write guard.
-- A call that never gets the lock never comes back.
unfoldable pub restart_guarded :
    (World → World) → World → ℕ → List AnalysisType → World × Outcome (Unit {0})
unfolding start_analysis pause_again
restart_guarded meanwhile w input_id [] = (w, done tt)
restart_guarded meanwhile w input_id (analysis_type ∷ others) =
    let (v, outcome) = start_analysis meanwhile true w input_id analysis_type none in
    elim outcome [
      | deadlocked ↦ (v, deadlocked)
      | panicked ↦ (v, panicked)
      | done id ↦ restart_guarded meanwhile v input_id others
      | failed e ↦ restart_guarded meanwhile (pause_again v input_id analysis_type) input_id others
    ]

-- The end of `start_input` for UDP and SRT inputs, which holds the guard to its end.
unfoldable pub finish_guarded :
    (World → World) → Platform → World → ℕ → InputInfo → World × Outcome (Unit {0})
unfolding start_outputs restart_guarded
finish_guarded meanwhile p w input_id input_info =
    let (v, ready) =
      start_outputs p w (record input_info { stopped_outputs = [] }) input_info.stopped_outputs in
    restart_guarded meanwhile (store input_id (record ready { paused_analysis = [] }) v) input_id
      ready.paused_analysis

-- The analyses of an SPTS input are restarted without the guard; one that fails is only logged.
unfoldable pub restart_analyses : (World → World) → World → ℕ → List AnalysisType → World
unfolding start_analysis
restart_analyses meanwhile w input_id [] = w
restart_analyses meanwhile w input_id (analysis_type ∷ others) =
    restart_analyses meanwhile (start_analysis meanwhile false w input_id analysis_type none).0
      input_id others

-- The third access of the SPTS arm, with the entry that `spawn_spts_input` made.
unfoldable pub finish_spts :
    (World → World) → Platform → World → ℕ → InputInfo → World × Outcome (Unit {0})
unfolding started start_outputs restart_analyses lookup
finish_spts meanwhile p w input_id new_input_info = elim (lookup input_id w.streams) [
  | none ↦ (w, failed input_gone)
  | some input_info ↦
      let fresh =
        started input_info w new_input_info.task_handle new_input_info.packet_tx
          StreamStatus.listening in
      let (v, ready) =
        start_outputs p w (record fresh { stopped_outputs = [] }) fresh.stopped_outputs in
      (
        restart_analyses meanwhile
            (meanwhile (store input_id (record ready { paused_analysis = [] }) v)) input_id
            ready.paused_analysis,
        done tt,
      )
]

-- `streams.get(source_input_id).map(|src| src.status.is_active()).unwrap_or(false)`
unfoldable pub source_exists : World → ℕ → Bool
unfolding lookup is_active
source_exists w source_input_id = elim (lookup source_input_id w.streams) [
  | none ↦ false
  | some source ↦ is_active source.status
]

-- The SPTS arm, from the check of the source on.
unfoldable pub start_spts :
    (World → World) → Platform → World → ℕ → Option Text → SptsInput → World × Outcome (Unit {0})
unfolding source_exists spawn_spts_input finish_spts lookup
start_spts meanwhile p w input_id name c =
    if not (source_exists w c.source_input_id)
    then (w, failed source_not_active)
    else let v = meanwhile w in
      elim (lookup c.source_input_id v.streams) [
        | none ↦ (v, failed input_not_found)
        | some source_input ↦
            let (u, new_input_info) =
              spawn_spts_input v source_input input_id c.program_number
                (unwrap_or c.fill_with_nulls false) name in
            finish_spts meanwhile p (meanwhile u) input_id new_input_info
      ]

-- The second access of `start_input`, with the configuration that the first one read.
unfoldable pub resume_input :
    (World → World)
    → Platform
    → World
    → ℕ
    → Option Text
    → InputInfo
    → CreateInputRequest
    → World × Outcome (Unit {0})
unfolding specific_host initial_status started spawn_udp_input_with_stats spawn_with_stats
    finish_guarded start_spts
resume_input meanwhile p w input_id name input_info (CreateInputRequest.udp c) =
    let (v, new_input_info) =
      spawn_udp_input_with_stats w input_id name (get_bind_port (CreateInputRequest.udp c))
        (specific_host (get_bind_host (CreateInputRequest.udp c))) c.multicast_group
        c.source_specific_multicast in
    finish_guarded meanwhile p v input_id (
      started input_info v new_input_info.task_handle new_input_info.packet_tx
        StreamStatus.listening)
resume_input meanwhile p w input_id name input_info (CreateInputRequest.srt srt_name srt_config) =
    let (v, sender) = spawn_with_stats w in
    finish_guarded meanwhile p v input_id
      (started input_info v (some sender.handle) sender.tx (initial_status srt_config))
resume_input meanwhile p w input_id name input_info (CreateInputRequest.spts c) =
    start_spts meanwhile p (meanwhile w) input_id name c

-- `start_input`
unfoldable pub start_input : (World → World) → Platform → World → ℕ → World × Outcome (Unit {0})
unfolding resume_input lookup is_active
start_input meanwhile p w input_id = elim (lookup input_id w.streams) [
  | none ↦ (w, failed input_not_found)
  | some first ↦
      if is_active first.status
      then (w, failed already_running)
      else let v = meanwhile w in
        elim (lookup first.id v.streams) [
          | none ↦ (v, failed input_gone)
          | some input_info ↦ resume_input meanwhile p v first.id first.name input_info first.config
        ]
]

-- The outputs that `stop_input` keeps to restart them: those that are active.
unfoldable pub outputs_to_stop : Map OutputInfo → Map CreateOutputRequest
unfolding is_active insert
outputs_to_stop [] = []
outputs_to_stop ((output_id, output_info) ∷ outputs) =
    let rest = outputs_to_stop outputs in
    if is_active output_info.status then insert output_id output_info.config rest else rest

-- Their tasks are aborted.
unfoldable pub abort_outputs : World → Map OutputInfo → World
unfolding is_active abort_handle
abort_outputs w [] = w
abort_outputs w ((output_id, output_info) ∷ outputs) =
    abort_outputs
      (if is_active output_info.status then abort_handle output_info.abort_handle w else w) outputs

-- `active_analysis`, which `paused_analysis` grows by.
unfoldable pub analysis_types : Map AnalysisInfo → List AnalysisType
analysis_types [] = []
analysis_types ((id, info) ∷ tasks) = info.analysis_type ∷ analysis_types tasks

unfoldable pub abort_analysis_tasks : World → Map AnalysisInfo → World
abort_analysis_tasks w [] = w
abort_analysis_tasks w ((id, info) ∷ tasks) =
    abort_analysis_tasks (perform (aborted info.task_handle) w) tasks

-- Every task of the input is aborted: its own, those of active outputs and those of analyses.
unfoldable pub abort_tasks : InputInfo → World → World
unfolding abort_handle abort_outputs abort_analysis_tasks
abort_tasks input_info w =
    abort_analysis_tasks
      (abort_outputs (abort_handle input_info.task_handle w) input_info.output_tasks)
      input_info.analysis_tasks

-- The entry as `stop_input` leaves it.
unfoldable pub stopped_entry : InputInfo → InputInfo
unfolding outputs_to_stop analysis_types extend
stopped_entry input_info = record input_info {
  task_handle = none;
  output_tasks = [];
  stopped_outputs = extend input_info.stopped_outputs (outputs_to_stop input_info.output_tasks);
  analysis_tasks = [];
  paused_analysis = input_info.paused_analysis ++ analysis_types input_info.analysis_tasks;
  status = StreamStatus.stopped;
  started_at = none;
}

-- `stop_input`
unfoldable pub stop_input : World → ℕ → World × Outcome (Unit {0})
unfolding is_stopped abort_tasks stopped_entry lookup insert
stop_input w input_id = elim (lookup input_id w.streams) [
  | none ↦ (w, failed input_not_found)
  | some input_info ↦
      if is_stopped input_info.status
      then (w, failed already_stopped)
      else (store input_id (stopped_entry input_info) (abort_tasks input_info w), done tt)
]

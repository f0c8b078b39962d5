-- ===== src/Examples/Control.antt =====
-- The theorems on src/stream_control.rs and src/analysis.rs, applied.
use mathlib.Core.List.{Memᴰ}
use stream_gateway.Common.{
  ℕ, ◌≡◌, ◌≢◌, refl, true, false, none, some, [], ◌∷◌, arith, Option, List, if◌then◌else◌,
}
use stream_gateway.Common.Texts.{codes, Avoids}
use stream_gateway.Common.Maps.{lookup, insert, extend}
use stream_gateway.Models.Requests.{UdpOutput, CreateOutputRequest}
use stream_gateway.Models.Status.{StreamStatus, is_active}
use stream_gateway.Models.Analysis.{AnalysisType}
use stream_gateway.Control.Unresolved.{start_output_forgets}
use stream_gateway.Control.Outcome.{output_not_created, Platform}
use stream_gateway.Examples.Values.{udp_output}
use stream_gateway.Common.Texts.{Text, print_nat, text_eq}
use stream_gateway.Models.Addresses.{host_of, port_of}
use stream_gateway.Models.Outputs.{get_remote_host, get_remote_port}
use stream_gateway.Streams.State.{OutputInfo, InputInfo, AnalysisInfo, World, aborted}
use stream_gateway.Streams.Spawn.{format_addr, udp_output_info}
use stream_gateway.Control.Outcome.{done, failed, deadlocked, already_stopped, analysis_running}
use stream_gateway.Control.Analysis.{find_analysis, expiry, start_analysis}
use stream_gateway.Control.Outputs.{is_stopped, stop_output, start_output}
use stream_gateway.Control.Inputs.{stop_input, start_input, stopped_entry, outputs_to_stop}
use stream_gateway.Control.StopLaws.{stop_input-keeps, stop_input_twice}
use stream_gateway.Control.Aborts.{stop_input-aborts}
use stream_gateway.Control.Restart.{restart_address, Found, Resolves, Runs, alone}
use stream_gateway.Control.Resume.{start_input-resumes, stop_input-start_input}
use stream_gateway.Control.Deadlock.{stop_input-start_input-deadlocks}
use stream_gateway.Control.Destination.{stop_output-start_output}
use stream_gateway.Control.AnalysisLaws.{start_analysis_twice}
use stream_gateway.Examples.Values.{
  platform, bare, live, live_world, sending, empty_world, analysed, analysed_world, measuring,
}

found : lookup 1 live_world.streams ≡ some live
unfolding lookup
found = refl

running : is_stopped live.status ≡ false
unfolding is_stopped
running = refl

resolves : Resolves platform (stopped_entry live).stopped_outputs
unfolding Resolves Found stopped_entry outputs_to_stop extend insert is_active udp_output_info
resolves = ((_, [], refl), tt)

idle-Resolves : Resolves platform ((7, sending.config) ∷ [])
unfolding Resolves Found udp_output_info
idle-Resolves = ((_, [], refl), tt)

stop_input-keeps_example :
    ((stop_input live_world 1).1 ≡ done tt)
    × (entry : InputInfo) × (lookup 1 (stop_input live_world 1).0.streams ≡ some entry)
    × (entry.status ≡ StreamStatus.stopped)
    × (entry.task_handle ≡ none)
    × (entry.output_tasks ≡ [])
    × (entry.analysis_tasks ≡ [])
    × ((output_id : ℕ) (o : OutputInfo)
        → lookup output_id live.output_tasks ≡ some o
        → is_active o.status ≡ true
        → lookup output_id entry.stopped_outputs ≡ some o.config)
    × ((j : ℕ) → 1 ≢ j → lookup j (stop_input live_world 1).0.streams ≡ lookup j live_world.streams)
stop_input-keeps_example = stop_input-keeps live_world 1 live found running

stop_input_twice_example :
    stop_input (stop_input live_world 1).0 1 ≡ ((stop_input live_world 1).0, failed already_stopped)
stop_input_twice_example = stop_input_twice live_world 1 live found running

stop_input-aborts_example :
    ((h : ℕ) → live.task_handle ≡ some h → Memᴰ (aborted h) (stop_input live_world 1).0.effects)
    × ((output_id : ℕ) (o : OutputInfo) (h : ℕ)
        → lookup output_id live.output_tasks ≡ some o
        → is_active o.status ≡ true
        → o.abort_handle ≡ some h
        → Memᴰ (aborted h) (stop_input live_world 1).0.effects)
    × ((analysis_id : ℕ) (a : AnalysisInfo)
        → lookup analysis_id live.analysis_tasks ≡ some a
        → Memᴰ (aborted a.task_handle) (stop_input live_world 1).0.effects)
stop_input-aborts_example = stop_input-aborts live_world 1 live found running

stop_input-start_input_example :
    (entry : InputInfo) × ((start_input alone platform (stop_input live_world 1).0 1).1 ≡ done tt)
    × (lookup 1 (start_input alone platform (stop_input live_world 1).0 1).0.streams ≡ some entry)
    × (is_active entry.status ≡ true)
    × ((output_id : ℕ) (o : OutputInfo)
        → lookup output_id live.output_tasks ≡ some o
        → is_active o.status ≡ true
        → Runs entry.output_tasks output_id)
stop_input-start_input_example =
    stop_input-start_input platform live_world live resolves found running refl refl refl

-- Input 1 stopped, with output 7 among the stopped ones.
abbrev idle : InputInfo
idle = record bare { status = StreamStatus.stopped; stopped_outputs = (7, sending.config) ∷ [] }

abbrev idle_world : World
idle_world = record empty_world { streams = (1, idle) ∷ [] }

found_idle : lookup 1 idle_world.streams ≡ some idle
unfolding lookup
found_idle = refl

inactive : is_active idle.status ≡ false
unfolding is_active
inactive = refl

start_input-resumes_example :
    (entry : InputInfo) × ((start_input alone platform idle_world 1).1 ≡ done tt)
    × (lookup 1 (start_input alone platform idle_world 1).0.streams ≡ some entry)
    × (is_active entry.status ≡ true)
    × (entry.stopped_outputs ≡ [])
    × ((output_id : ℕ) (config : CreateOutputRequest)
        → lookup output_id idle.stopped_outputs ≡ some config
        → Runs entry.output_tasks output_id)
start_input-resumes_example =
    start_input-resumes platform idle_world idle idle-Resolves found_idle inactive refl refl

found_analysed : lookup 1 analysed_world.streams ≡ some analysed
unfolding lookup
found_analysed = refl

stop_input-start_input-deadlocks_example :
    ((stop_input analysed_world 1).1 ≡ done tt)
    × ((start_input alone platform (stop_input analysed_world 1).0 1).1 ≡ deadlocked)
stop_input-start_input-deadlocks_example =
    stop_input-start_input-deadlocks platform analysed_world analysed 4 measuring [] found_analysed
      running refl refl

found_sending :
    lookup 7 live.output_tasks
    ≡ some (udp_output_info empty_world (format_addr (codes "10.0.0.1") 6000) bare 7 none none none)
unfolding lookup
found_sending = refl

no_colon : Avoids b':' (codes "10.0.0.1")
no_colon = ground arith

stop_output-start_output_example :
    ((start_output platform (stop_output live_world 1 7).0 1 7).1 ≡ done tt)
    × (entry : InputInfo) × (lookup 1
          (start_output platform (stop_output live_world 1 7).0 1 7).0.streams
        ≡ some entry)
    × (o : OutputInfo) × (lookup 7 entry.output_tasks ≡ some o)
    × (o.destination ≡ format_addr (codes "10.0.0.1") 6000)
stop_output-start_output_example =
    stop_output-start_output platform live_world empty_world 1 7 6000 (codes "10.0.0.1")
      (format_addr (codes "10.0.0.1") 6000) [] live bare none none none found running found_sending
      no_colon (omega arith) refl

none_of_it : find_analysis AnalysisType.tr101 live.analysis_tasks ≡ none
unfolding find_analysis
none_of_it = refl

in_time : expiry live_world.now (some 5) ≡ some (some 400)
unfolding expiry
in_time = refl

start_analysis_twice_example :
    ((start_analysis alone false live_world 1 AnalysisType.tr101 (some 5)).1 ≡ done 9)
    × (start_analysis alone false
          (start_analysis alone false live_world 1 AnalysisType.tr101 (some 5)).0
          1
          AnalysisType.tr101
          none
        ≡ (
          (start_analysis alone false live_world 1 AnalysisType.tr101 (some 5)).0,
          failed analysis_running,
        ))
start_analysis_twice_example =
    start_analysis_twice live_world 1 live AnalysisType.tr101 (some 5) (some 400) none found
      none_of_it in_time

-- Input 1 running with output 7 stopped, to a host whose name is not found.
abbrev unknown : UdpOutput
unknown = record udp_output {
  remote_host = some (codes "camera.lan");
  remote_port = some 6000;
  destination_addr = none;
}

abbrev waiting : InputInfo
waiting = record bare { stopped_outputs = (7, CreateOutputRequest.udp unknown) ∷ [] }

abbrev waiting_world : World
waiting_world = record empty_world { streams = (1, waiting) ∷ [] }

abbrev lost : Text → Option (List Text)
lost name = if text_eq name (codes "camera.lan:6000") then none else some (name ∷ [])

abbrev offline : Platform
offline = record platform { resolve = lost }

camera_lost : offline.resolve (restart_address unknown) ≡ none
unfolding get_remote_host get_remote_port host_of port_of format_addr print_nat text_eq
camera_lost = refl

found_waiting : lookup 1 waiting_world.streams ≡ some waiting
unfolding lookup
found_waiting = refl

no_output_7 : lookup 7 waiting.output_tasks ≡ none
unfolding lookup
no_output_7 = refl

stopped_7 : lookup 7 waiting.stopped_outputs ≡ some (CreateOutputRequest.udp unknown)
unfolding lookup
stopped_7 = refl

start_output_forgets_example :
    ((start_output offline waiting_world 1 7).1 ≡ failed output_not_created)
    × (entry : InputInfo) × (lookup 1 (start_output offline waiting_world 1 7).0.streams
        ≡ some entry)
    × (lookup 7 entry.output_tasks ≡ none)
    × (lookup 7 entry.stopped_outputs ≡ none)
start_output_forgets_example =
    start_output_forgets offline waiting_world 1 7 waiting unknown camera_lost found_waiting running
      no_output_7 stopped_7

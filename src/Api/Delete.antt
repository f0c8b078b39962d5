-- ===== src/Api/Delete.antt =====
-- `delete_input` and `delete_output` of src/api.rs, which hold the write guard throughout. A statement
-- that fails is only logged.
use stream_gateway.Common.{ℕ, none, some, [], ◌∷◌, is_some, if◌then◌else◌}
use stream_gateway.Common.Maps.{Map, lookup, remove}
use stream_gateway.Streams.State.{
  OutputInfo, InputInfo, World, perform, active_inputs_down, active_outputs_down,
}
use stream_gateway.Control.Outputs.{store, abort_handle}
use stream_gateway.Control.Inputs.{abort_analysis_tasks}
use stream_gateway.Database.Tables.{delete_input_from_db, delete_output_from_db}
use stream_gateway.Api.Gateway.{Gateway, Site, Response, success, not_found}

-- `for (output_id, output_info) in input_info.output_tasks`: the status does not matter here.
unfoldable pub abort_all_outputs : World → Map OutputInfo → World
unfolding abort_handle
abort_all_outputs w [] = w
abort_all_outputs w ((output_id, output_info) ∷ outputs) =
    abort_all_outputs (abort_handle output_info.abort_handle w) outputs

-- `for _ in 0..output_count`
unfoldable pub outputs_down : World → Map OutputInfo → World
outputs_down w [] = w
outputs_down w (entry ∷ outputs) = outputs_down (perform active_outputs_down w) outputs

-- The tasks of an input that is deleted, and the gauges.
unfoldable pub close_input : InputInfo → World → World
unfolding abort_handle abort_all_outputs outputs_down abort_analysis_tasks
close_input input_info w =
    abort_analysis_tasks
      (outputs_down
        (abort_all_outputs (perform active_inputs_down (abort_handle input_info.task_handle w))
          input_info.output_tasks)
        input_info.output_tasks)
      input_info.analysis_tasks

-- `delete_input`
unfoldable pub delete_input : Site → Gateway → ℕ → Gateway × Response
unfolding close_input delete_input_from_db lookup remove
delete_input site g input_id = elim (lookup input_id g.world.streams) [
  | none ↦ (g, not_found)
  | some input_info ↦ (
    record {
      world = close_input input_info (record g.world { streams = remove input_id g.world.streams });
      database = (delete_input_from_db site.answers input_id g.database).0;
    },
    success,
  )
]

-- `delete_output`, on the entry of the input
unfoldable pub delete_output_of : Site → Gateway → ℕ → InputInfo → ℕ → Gateway × Response
unfolding abort_handle delete_output_from_db lookup remove
delete_output_of site g input_id input_info output_id =
    elim (lookup output_id input_info.output_tasks) [
      | some output_info ↦ (
        record {
          world = perform active_outputs_down (
              abort_handle output_info.abort_handle (
                store input_id
                  (record input_info { output_tasks = remove output_id input_info.output_tasks })
                  g.world));
          database = (delete_output_from_db site.answers output_id g.database).0;
        },
        success,
      )
      | none ↦
          if is_some (lookup output_id input_info.stopped_outputs)
          then (
            record {
              world =
                  store input_id
                    (record input_info {
                      stopped_outputs = remove output_id input_info.stopped_outputs;
                    })
                    g.world;
              database = (delete_output_from_db site.answers output_id g.database).0;
            },
            success,
          )
          else (g, not_found)
    ]

-- `delete_output`
unfoldable pub delete_output : Site → Gateway → ℕ → ℕ → Gateway × Response
unfolding delete_output_of lookup
delete_output site g input_id output_id = elim (lookup input_id g.world.streams) [
  | none ↦ (g, not_found)
  | some input_info ↦ delete_output_of site g input_id input_info output_id
]

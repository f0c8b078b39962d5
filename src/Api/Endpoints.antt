-- ===== src/Api/Endpoints.antt =====
-- The endpoints of src/api.rs that start and stop streams. What another task does while an operation
-- gives up the lock is the argument `meanwhile`. A status that cannot be written is only logged.
use stream_gateway.Common.{ℕ, none, some}
use stream_gateway.Common.Texts.{Text, codes}
use stream_gateway.Common.Maps.{lookup}
use stream_gateway.Models.Status.{to_string}
use stream_gateway.Streams.State.{World}
use stream_gateway.Control.Outcome.{Outcome, done, failed, deadlocked, panicked}
use stream_gateway.Control.Inputs.{start_input, stop_input}
use stream_gateway.Control.Outputs.{start_output, stop_output}
use stream_gateway.Database.Tables.{
  get_input_id_for_output, update_input_status_in_db, update_output_status_in_db,
}
use stream_gateway.Api.Gateway.{Gateway, Site, Response, success_with, internal_error, no_response}

-- `status_str` after a start, with the fallback of the source
unfoldable pub input_status_string : World → ℕ → Text
unfolding lookup to_string
input_status_string w input_id = elim (lookup input_id w.streams) [
  | none ↦ codes "listening"
  | some input ↦ to_string input.status
]

unfoldable pub output_status_string : World → ℕ → ℕ → Text
unfolding lookup to_string
output_status_string w input_id output_id = elim (lookup input_id w.streams) [
  | none ↦ codes "connecting"
  | some input ↦ elim (lookup output_id input.output_tasks) [
    | none ↦ codes "connecting"
    | some output ↦ to_string output.status
  ]
]

-- What follows the operation on an input, which left `w` and ended as the outcome says:
-- `answer` is for the caller when it is done.
unfoldable pub record_input :
    Site → Gateway → ℕ → Text → Response → World × Outcome (Unit {0}) → Gateway × Response
unfolding update_input_status_in_db
record_input site g input_id status answer (w, done u) = (
  record {
    world = w;
    database = (update_input_status_in_db site.answers input_id status g.database).0;
  },
  answer,
)
record_input site g input_id status answer (w, failed e) = (record g { world = w }, internal_error)
record_input site g input_id status answer (w, deadlocked) = (record g { world = w }, no_response)
record_input site g input_id status answer (w, panicked) = (record g { world = w }, no_response)

unfoldable pub record_output :
    Site → Gateway → ℕ → Text → Response → World × Outcome (Unit {0}) → Gateway × Response
unfolding update_output_status_in_db
record_output site g output_id status answer (w, done u) = (
  record {
    world = w;
    database = (update_output_status_in_db site.answers output_id status g.database).0;
  },
  answer,
)
record_output site g output_id status answer (w, failed e) =
    (record g { world = w }, internal_error)
record_output site g output_id status answer (w, deadlocked) = (record g { world = w }, no_response)
record_output site g output_id status answer (w, panicked) = (record g { world = w }, no_response)

unfoldable pub start_input_endpoint : (World → World) → Site → Gateway → ℕ → Gateway × Response
unfolding start_input input_status_string record_input
start_input_endpoint meanwhile site g input_id =
    let (w, outcome) = start_input meanwhile site.platform g.world input_id in
    record_input site g input_id (input_status_string w input_id)
      (success_with (input_status_string w input_id)) (w, outcome)

unfoldable pub stop_input_endpoint : Site → Gateway → ℕ → Gateway × Response
unfolding stop_input record_input
stop_input_endpoint site g input_id =
    record_input site g input_id (codes "stopped") (success_with (codes "stopped"))
      (stop_input g.world input_id)

unfoldable pub start_output_endpoint : Site → Gateway → ℕ → Gateway × Response
unfolding get_input_id_for_output start_output output_status_string record_output
start_output_endpoint site g output_id =
    elim (get_input_id_for_output site.answers output_id g.database) [
      | none ↦ (g, internal_error)
      | some input_id ↦
          let (w, outcome) = start_output site.platform g.world input_id output_id in
          record_output site g output_id (output_status_string w input_id output_id)
            (success_with (output_status_string w input_id output_id)) (w, outcome)
    ]

unfoldable pub stop_output_endpoint : Site → Gateway → ℕ → Gateway × Response
unfolding get_input_id_for_output stop_output record_output
stop_output_endpoint site g output_id =
    elim (get_input_id_for_output site.answers output_id g.database) [
      | none ↦ (g, internal_error)
      | some input_id ↦
          record_output site g output_id (codes "stopped") (success_with (codes "stopped"))
            (stop_output g.world input_id output_id)
    ]

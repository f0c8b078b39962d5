-- ===== src/Api/Requests.antt =====
-- The requests of src/api.rs that change streams, and the state changes of src/state_processor.rs, one
-- after the other.
use stream_gateway.Common.{ℕ, refl, [], arith}
use stream_gateway.Common.Maps.{lookup}
use stream_gateway.Models.Requests.{CreateInputRequest, CreateOutputRequest}
use stream_gateway.Models.Updates.{UpdateInputRequest, UpdateOutputRequest}
use stream_gateway.Streams.State.{World}
use stream_gateway.Control.Restart.{alone}
use stream_gateway.Control.Steps.{Steps}
use stream_gateway.StateProcessor.Handlers.{StateChange, process}
use stream_gateway.Database.Laws.{Fresh}
use stream_gateway.Api.Gateway.{Gateway, Site}
use stream_gateway.Api.CreateInput.{create_input}
use stream_gateway.Api.CreateOutput.{create_output}
use stream_gateway.Api.Delete.{delete_input, delete_output}
use stream_gateway.Api.Endpoints.{
  start_input_endpoint, stop_input_endpoint, start_output_endpoint, stop_output_endpoint,
}
use stream_gateway.Api.UpdateInput.{update_input}
use stream_gateway.Api.UpdateOutput.{update_output}
use stream_gateway.Api.Stored.{Stored, Entry}

-- The gateways that requests lead to. The site may be another at each: a statement that fails once
-- need not fail again. While a start or an update has given up the guard, other tasks take steps;
-- an update of an output acts alone.
pub data Requests : Gateway → Gateway → Type 0 where
  no_request : (g : Gateway) → Requests g g
  input_created :
      {g h : Gateway} (site : Site) (req : CreateInputRequest)
      → Requests g h
      → Requests g (create_input site h req).0
  input_deleted :
      {g h : Gateway} (site : Site) (input_id : ℕ)
      → Requests g h
      → Requests g (delete_input site h input_id).0
  input_updated :
      {g h : Gateway} (meanwhile : World → World) (site : Site) (input_id : ℕ)
      (req : UpdateInputRequest)
      → ((u : World) → Steps site.platform u (meanwhile u))
      → Requests g h
      → Requests g (update_input meanwhile site h input_id req).0
  output_created :
      {g h : Gateway} (site : Site) (req : CreateOutputRequest)
      → Requests g h
      → Requests g (create_output site h req).0
  output_deleted :
      {g h : Gateway} (site : Site) (input_id output_id : ℕ)
      → Requests g h
      → Requests g (delete_output site h input_id output_id).0
  output_updated :
      {g h : Gateway} (site : Site) (output_id : ℕ) (req : UpdateOutputRequest)
      → Requests g h
      → Requests g (update_output alone site h output_id req).0
  input_started :
      {g h : Gateway} (meanwhile : World → World) (site : Site) (input_id : ℕ)
      → ((u : World) → Steps site.platform u (meanwhile u))
      → Requests g h
      → Requests g (start_input_endpoint meanwhile site h input_id).0
  input_stopped :
      {g h : Gateway} (site : Site) (input_id : ℕ)
      → Requests g h
      → Requests g (stop_input_endpoint site h input_id).0
  output_started :
      {g h : Gateway} (site : Site) (output_id : ℕ)
      → Requests g h
      → Requests g (start_output_endpoint site h output_id).0
  output_stopped :
      {g h : Gateway} (site : Site) (output_id : ℕ)
      → Requests g h
      → Requests g (stop_output_endpoint site h output_id).0
  state_changed :
      {g h : Gateway} (change : StateChange)
      → Requests g h
      → Requests g (record h { world = (process h.world change).0 })

-- A gateway that has just started with empty tables.
abbrev pub new_gateway : Gateway
new_gateway = record {
  world = record { streams = []; next = 0; now = 0; effects = [] };
  database = record { inputs = []; outputs = []; next_input = 1; next_output = 1 };
}

pub new_gateway-Stored : Stored new_gateway
unfolding Stored Fresh Entry lookup
new_gateway-Stored = ((λ id h. refl), λ input_id info l. absurd (ground (arith, l)))

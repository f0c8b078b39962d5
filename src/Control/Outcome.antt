-- ===== src/Control/Outcome.antt =====
-- How an operation ends, and what it needs of the code that the sources only call.
use stream_gateway.Common.{Option, List}
use stream_gateway.Common.Texts.{Text}
use stream_gateway.Interfaces.{Net}

pub data ControlError : Type 0 where
  input_not_found input_gone already_running already_stopped source_not_active : ControlError
  input_stopped output_not_found output_not_created : ControlError
  analysis_running analysis_not_found : ControlError

-- `deadlocked`: the task waits for a lock that it holds itself, and never goes on; `panicked`: it ends
-- where it stands.
pub data Outcome {ℓ} (A : Type ℓ) : Type ℓ where
  done : A → Outcome A
  failed : ControlError → Outcome A
  deadlocked panicked : Outcome A

-- `tokio::net::lookup_host`, `none` for its error, and the addresses of the standard library.
pub record Platform : Type 0 where
  pub resolve : Text → Option (List Text)
  pub net : Net

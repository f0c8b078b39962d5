-- ===== src/Streams/State.antt =====
-- `InputInfo`, `OutputInfo` and `AnalysisInfo` of src/models.rs, and the world that the operations
-- act on. A task handle and a broadcast channel are numbers, drawn from `next`; a channel of a
-- running task is named in the effect that started it. Statistics cells and the sender of state
-- changes are left out: no operation modelled here reads them.
use stream_gateway.Common.{ℕ, suc, Option, List, ◌∷◌}
use stream_gateway.Common.Texts.{Text}
use stream_gateway.Common.Maps.{Map}
use stream_gateway.Models.Requests.{CreateInputRequest, CreateOutputRequest}
use stream_gateway.Models.Outputs.{OutputKind}
use stream_gateway.Models.Status.{StreamStatus}
use stream_gateway.Models.Analysis.{AnalysisType}

pub record OutputInfo : Type 0 where
  pub id : ℕ
  pub name : Option Text
  pub input_id : ℕ
  pub kind : OutputKind
  pub status : StreamStatus
  pub destination : Text
  pub abort_handle : Option ℕ
  pub config : CreateOutputRequest
  pub started_at : Option ℕ
  pub connected_at : Option ℕ
  pub peer_address : Option Text
  pub error_message : Option Text

-- The identifier, a UUID, is a number drawn from `next`.
pub record AnalysisInfo : Type 0 where
  pub id : ℕ
  pub analysis_type : AnalysisType
  pub input_id : ℕ
  pub task_handle : ℕ
  pub created_at : ℕ
  pub timeout_minutes : Option ℕ
  pub expires_at : Option ℕ

pub record InputInfo : Type 0 where
  pub id : ℕ
  pub name : Option Text
  pub status : StreamStatus
  pub packet_tx : ℕ
  pub task_handle : Option ℕ
  pub config : CreateInputRequest
  pub output_tasks : Map OutputInfo
  pub stopped_outputs : Map CreateOutputRequest
  pub analysis_tasks : Map AnalysisInfo
  pub paused_analysis : List AnalysisType
  pub started_at : Option ℕ
  pub connected_at : Option ℕ
  pub source_address : Option Text
  pub error_message : Option Text

-- What an operation does outside the shared state. `listens` names the channel that a task reads.
pub data Effect : Type 0 where
  input_task : (handle : ℕ) → (writes : ℕ) → Effect
  filter_task : (handle : ℕ) → (listens : ℕ) → (writes : ℕ) → Effect
  output_task : (handle : ℕ) → (listens : ℕ) → (destination : Text) → Effect
  analysis_task : (handle : ℕ) → (listens : ℕ) → Effect
  aborted : (handle : ℕ) → Effect
  active_inputs_up active_inputs_down active_outputs_up active_outputs_down : Effect

-- `now` is the time that an operation reads; the newest effect stands first.
pub record World : Type 0 where
  pub streams : Map InputInfo
  pub next : ℕ
  pub now : ℕ
  pub effects : List Effect

abbrev pub perform : Effect → World → World
perform e w = record w { effects = e ∷ w.effects }

abbrev pub draw : World → World
draw w = record w { next = suc w.next }

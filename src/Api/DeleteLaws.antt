-- ===== src/Api/DeleteLaws.antt =====
-- What `delete_input` of src/api.rs leaves behind.
use mathlib.Core.List.{Memᴰ}
use stream_gateway.Common.{
  ℕ, ◌≡◌, ◌≢◌, refl, sym, ap, ◌∙◌, ◌==◌, true, none, some, [], ◌∷◌, inl, inr, Bool-cases, arith,
}
use stream_gateway.Common.Maps.{Map, lookup, remove, lookup-remove_self, lookup-remove_ne}
use stream_gateway.Streams.State.{
  OutputInfo, AnalysisInfo, InputInfo, World, Effect, perform, aborted, active_inputs_down,
  active_outputs_down,
}
use stream_gateway.Control.Outputs.{abort_handle}
use stream_gateway.Control.Aborts.{Performed, step, analyses-step, handle-aborted, analysis-aborted}
use stream_gateway.Database.Tables.{
  OutputRow, delete_outputs_of, Database, delete_input_from_db, without_input,
}
use stream_gateway.Database.Tables
use stream_gateway.Database.Laws.{without_input-kept, without_input-gone}
use stream_gateway.Api.Gateway.{Gateway, Site, success}
use stream_gateway.Api.Delete.{abort_all_outputs, outputs_down, close_input, delete_input}
use stream_gateway.Api.StoredDelete.{close_input_streams}

all_outputs-step :
    (e : Effect) (tasks : Map OutputInfo) (w : World)
    → Performed e w
    → Performed e (abort_all_outputs w tasks)
unfolding abort_all_outputs
all_outputs-step e [] w m = m
all_outputs-step e ((id, o) ∷ tasks) w m =
    all_outputs-step e tasks (abort_handle o.abort_handle w) (step e o.abort_handle w m)

down-step :
    (e : Effect) (tasks : Map OutputInfo) (w : World)
    → Performed e w
    → Performed e (outputs_down w tasks)
unfolding outputs_down
down-step e [] w m = m
down-step e (entry ∷ tasks) w m = down-step e tasks (perform active_outputs_down w) (Memᴰ.tail m)

any_output-aborted :
    (tasks : Map OutputInfo) (w : World) (id : ℕ) (o : OutputInfo) (h : ℕ)
    → lookup id tasks ≡ some o
    → o.abort_handle ≡ some h
    → Performed (aborted h) (abort_all_outputs w tasks)
unfolding abort_all_outputs lookup
any_output-aborted [] w id o h l e = absurd (ground arith)
any_output-aborted ((k, t) ∷ tasks) w id o h l e = elim (Bool-cases (k == id)) [
  | inl same ↦ all_outputs-step (aborted h) tasks (abort_handle t.abort_handle w) (
      handle-aborted h t.abort_handle w
        (ap (λ (x : OutputInfo). x.abort_handle) (sym (taken same)) ∙ e))
  | inr other ↦ any_output-aborted tasks (abort_handle t.abort_handle w) id o h (ground arith) e
]
  where
    taken : (k == id) ≡ true → o ≡ t
    taken same = ground arith

-- Every task of the input is aborted, whatever its status.
close_input-aborts :
    (info : InputInfo) (w : World)
    → ((h : ℕ) → info.task_handle ≡ some h → Performed (aborted h) (close_input info w))
      × ((output_id : ℕ) (o : OutputInfo) (h : ℕ)
          → lookup output_id info.output_tasks ≡ some o
          → o.abort_handle ≡ some h
          → Performed (aborted h) (close_input info w))
      × ((analysis_id : ℕ) (a : AnalysisInfo)
          → lookup analysis_id info.analysis_tasks ≡ some a
          → Performed (aborted a.task_handle) (close_input info w))
unfolding close_input
close_input-aborts info w = (
  λ h e. analyses-step (aborted h) info.analysis_tasks _ (
      down-step (aborted h) info.output_tasks _ (
        all_outputs-step (aborted h) info.output_tasks
          (perform active_inputs_down (abort_handle info.task_handle w))
          (Memᴰ.tail (handle-aborted h info.task_handle w e)))),
  λ output_id o h l e. analyses-step (aborted h) info.analysis_tasks _ (
      down-step (aborted h) info.output_tasks _
        (any_output-aborted info.output_tasks _ output_id o h l e)),
  λ analysis_id a l. analysis-aborted info.analysis_tasks _ analysis_id a l,
)

-- The gateway after a deletion whose statements succeed.
delete_input_lem :
    (site : Site) (g : Gateway) (id : ℕ) (info : InputInfo)
    → lookup id g.world.streams ≡ some info
    → site.answers delete_outputs_of ≡ true
    → site.answers Tables.delete_input ≡ true
    → delete_input site g id ≡ (
      record {
        world = close_input info (record g.world { streams = remove id g.world.streams });
        database = record g.database {
          inputs = remove id g.database.inputs;
          outputs = without_input id g.database.outputs;
        };
      },
      success,
    )
unfolding delete_input delete_input_from_db
delete_input_lem site g id info l e f =
    rw (l, delete_input) (rw (e, delete_input_from_db) (rw f refl))

-- Deleting an input that exists, when both statements succeed, answers with success. The input is
-- then neither in the shared state nor in the tables, no row of an output names it, and the entry and
-- the row of every other input and the row of every output of another input are as they were. The
-- task of the input, the task of each of its outputs, active or not, and the task of each of its
-- analyses are aborted.
pub delete_input-clears :
    (site : Site) (g : Gateway) (id : ℕ) (info : InputInfo)
    → lookup id g.world.streams ≡ some info
    → site.answers delete_outputs_of ≡ true
    → site.answers Tables.delete_input ≡ true
    → ((delete_input site g id).1 ≡ success)
      × (lookup id (delete_input site g id).0.world.streams ≡ none)
      × (lookup id (delete_input site g id).0.database.inputs ≡ none)
      × ((key : ℕ) (row : OutputRow)
          → lookup key (delete_input site g id).0.database.outputs ≡ some row
          → row.input_id ≢ id)
      × ((j : ℕ)
          → id ≢ j
          → (lookup j (delete_input site g id).0.world.streams ≡ lookup j g.world.streams)
            × (lookup j (delete_input site g id).0.database.inputs ≡ lookup j g.database.inputs))
      × ((key : ℕ) (row : OutputRow)
          → lookup key g.database.outputs ≡ some row
          → row.input_id ≢ id
          → lookup key (delete_input site g id).0.database.outputs ≡ some row)
      × ((h : ℕ)
          → info.task_handle ≡ some h
          → Memᴰ (aborted h) (delete_input site g id).0.world.effects)
      × ((output_id : ℕ) (o : OutputInfo) (h : ℕ)
          → lookup output_id info.output_tasks ≡ some o
          → o.abort_handle ≡ some h
          → Memᴰ (aborted h) (delete_input site g id).0.world.effects)
      × ((analysis_id : ℕ) (a : AnalysisInfo)
          → lookup analysis_id info.analysis_tasks ≡ some a
          → Memᴰ (aborted a.task_handle) (delete_input site g id).0.world.effects)
delete_input-clears site g id info l e f = rw (delete_input_lem site g id info l e f) (
  refl,
  ap (λ m. lookup id m) (close_input_streams info left) ∙ lookup-remove_self id g.world.streams,
  lookup-remove_self id g.database.inputs,
  λ key row m. without_input-gone id key row g.database.outputs m,
  λ j n. (
    ap (λ m. lookup j m) (close_input_streams info left) ∙ lookup-remove_ne id j g.world.streams n,
    lookup-remove_ne id j g.database.inputs n,
  ),
  λ key row m n. without_input-kept id key row g.database.outputs m n,
  (close_input-aborts info left).0,
  (close_input-aborts info left).1,
  (close_input-aborts info left).2,
)
  where
    left : World
    left = record g.world { streams = remove id g.world.streams }

-- ===== src/Reports/Records/Reached.antt =====
-- The states that the orders-service records in the worlds that the two services reach, under
-- `check_states`.
use rule2llm_orch_lab.Prelude.{ℕ, String, ◌≡◌, ◌++◌, List, none, some, [], ◌∷◌, ok}
use rule2llm_orch_lab.Prelude.Table.{get}
use rule2llm_orch_lab.Contract.SystemState.{SystemState}
use rule2llm_orch_lab.Orders.Orchestrator.{Setup}
use rule2llm_orch_lab.Orders.StateBuilder.{Observation, build}
use rule2llm_orch_lab.Orders.System.{EngineReturns}
use rule2llm_orch_lab.Orders.System.Runs.{Trace}
use rule2llm_orch_lab.Reports.Artifacts.{export_task_events}
use rule2llm_orch_lab.Reports.Trajectories.{trajectory}
use rule2llm_orch_lab.Reports.Trajectories.Passing.{OneExecution}
use rule2llm_orch_lab.Reports.Records.{States, check_state, no_task}
use rule2llm_orch_lab.Reports.Records.Recorded.{state_line, state_passes, state_reported}
use rule2llm_orch_lab.Services.{World, Sampled}
use rule2llm_orch_lab.Services.Reach.{Moves, first_world, first_world-IsWorld, Moves-IsWorld}

-- In every world that the two services reach from the first one, if the engine returns an output in
-- every coherent state: a state that is built from the orders database there, and recorded, passes
-- `check_states` against the trajectories that are exported from it, if all rows and the state are of
-- the execution and no other state has its identifier. Its task is found, no error is added, and its
-- task is noted.
pub recorded_state_passes :
    (u : Setup)
    → EngineReturns u
    → (sampled : Sampled) (stock : List String) (trace : Trace) (w : World)
    → Moves u sampled (first_world stock) trace w
    → (o : Observation) (id x : ℕ) (s : SystemState) (r : States)
    → build u.config u.recent_events_limit o w.orders id ≡ ok s
    → OneExecution x w.orders.task_events
    → s.execution_id ≡ x
    → get s.state_id r.state_tasks ≡ none
    → check_state x
        (λ j. trajectory j (export_task_events x w.orders.task_events))
        (state_line s)
        (some s)
        r
      ≡ record r { state_tasks = (s.state_id, id) ∷ r.state_tasks }
recorded_state_passes u returns sampled stock trace w moves o id x s r built =
    state_passes u.config u.recent_events_limit o w.orders id x s r
      ((Moves-IsWorld u returns sampled (first_world stock) trace w moves
          (first_world-IsWorld u.config stock)).traced
        id)
      built

-- In every world that the two services reach from the first one, if the engine returns an output in
-- every coherent state: a state of the execution whose task is not in the orders database, recorded
-- under a new identifier, is reported by `check_states` as one whose task is not found among the
-- trajectories that are exported, if all rows are of the execution; no other error is added.
pub unknown_state_reported :
    (u : Setup)
    → EngineReturns u
    → (sampled : Sampled) (stock : List String) (trace : Trace) (w : World)
    → Moves u sampled (first_world stock) trace w
    → (x : ℕ) (s : SystemState) (r : States) → get s.task_id w.orders.tasks ≡ none
    → OneExecution x w.orders.task_events
    → s.execution_id ≡ x
    → get s.state_id r.state_tasks ≡ none
    → check_state x
        (λ j. trajectory j (export_task_events x w.orders.task_events))
        (state_line s)
        (some s)
        r
      ≡ record {
        errors = r.errors ++ (no_task s.state_id ∷ []);
        state_tasks = (s.state_id, s.task_id) ∷ r.state_tasks;
      }
unknown_state_reported u returns sampled stock trace w moves x s r = state_reported w.orders x s r (
    (Moves-IsWorld u returns sampled (first_world stock) trace w moves
        (first_world-IsWorld u.config stock)).traced
      s.task_id)

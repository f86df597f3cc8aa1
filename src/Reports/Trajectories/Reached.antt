-- ===== src/Reports/Trajectories/Reached.antt =====
-- The trajectories of the worlds that the two services reach, under check_traceability.py.
use rule2llm_orch_lab.Prelude.{ℕ, String, ◌≡◌, List, []}
use rule2llm_orch_lab.Orders.Orchestrator.{Setup}
use rule2llm_orch_lab.Orders.System.{EngineReturns}
use rule2llm_orch_lab.Orders.System.Runs.{Trace}
use rule2llm_orch_lab.Reports.Artifacts.{export_task_events}
use rule2llm_orch_lab.Reports.Trajectories.{check_trajectories}
use rule2llm_orch_lab.Reports.Trajectories.Passing.{OneExecution, export-passes}
use rule2llm_orch_lab.Services.{World, Sampled}
use rule2llm_orch_lab.Services.Reach.{Moves, first_world, first_world-IsWorld, Moves-IsWorld}

-- In every world that the two services reach from the first one, if the engine returns an output in
-- every coherent state and all rows are of one execution, the exported trajectories pass the check: each
-- starts with its creation, is numbered without a gap, and repeats a message with its first number.
pub trajectories_pass :
    (u : Setup)
    → EngineReturns u
    → (sampled : Sampled) (stock : List String) (trace : Trace) (w : World)
    → Moves u sampled (first_world stock) trace w
    → (x : ℕ) → OneExecution x w.orders.task_events
    → check_trajectories x (export_task_events x w.orders.task_events) ≡ []
trajectories_pass u returns sampled stock trace w moves x =
    export-passes x w.orders
      (Moves-IsWorld u returns sampled (first_world stock) trace w moves
        (first_world-IsWorld u.config stock)).traced

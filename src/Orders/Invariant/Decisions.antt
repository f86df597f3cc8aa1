-- ===== src/Orders/Invariant/Decisions.antt =====
-- The invariant and the budget of a task under `DecisionExecutor.execute` (executor.py).
use rule2llm_orch_lab.Prelude.{
  ℕ, ◌≤◌, ◌<◌, ◌≡◌, ◌≢◌, false, Option, none, some, arith, Post, Post-mono, Post-transaction,
  String,
}
use rule2llm_orch_lab.Prelude.Table.{get, get-update_self}
use rule2llm_orch_lab.Contract.Vocabulary.{
  Target, inventory_primary, inventory_fallback, order_status_for,
}
use rule2llm_orch_lab.Contract.Config.{MessagingConfig}
use rule2llm_orch_lab.Orders.Db.{OrdersDb, OrderRow, TaskRow}
use rule2llm_orch_lab.Orders.Trajectory.{latest_request}
use rule2llm_orch_lab.Contract.Decision.{Decision, ActionName}
use rule2llm_orch_lab.Engine.Validator.Soundness.{Admits, IsAdmissible}
use rule2llm_orch_lab.Orders.StateBuilder.{Observation, snapshot}
use rule2llm_orch_lab.Orders.Executor.{
  execute, handler, Supply, ExecutionResult, run_continue, fallback_request, run_retry, run_wait,
  run_fallback, run_abort,
}
use rule2llm_orch_lab.Orders.Invariant.{
  Counted, RowSound, IsSound, RowReady, row_budget, budget, Ended,
}

module _ (c : MessagingConfig) (i : Supply) (id decision_id : ℕ) (db : OrdersDb) (row : TaskRow)
    (order : OrderRow) (found : get id db.tasks ≡ some row)
    (has_order : get id db.orders ≡ some order)
    (sound : RowSound c id row order (latest_request id db.task_events)) (ready : RowReady row)
    (counted : Counted db.task_events) where
  -- Afterwards the task is sound, and its budget has shrunk.
  abbrev Spends : ExecutionResult → OrdersDb → Type 0
  Spends r after = IsSound c after id × (budget c (get id after.tasks) < row_budget c row)

  run_continue-Spends : row.current_target ≡ none → Post Spends (run_continue c i id decision_id db)
  unfolding run_continue latest_request order_status_for
  run_continue-Spends h = grind (arith, get-update_self)

  run_retry-Spends :
      row.attempt_number < c.max_attempts
      → row.current_target ≡ some inventory_primary
      → Post Spends (run_retry c i id decision_id db)
  unfolding run_retry latest_request order_status_for
  run_retry-Spends h k = grind (arith, get-update_self)

  run_wait-Spends : row.wait_count < c.max_waits → Post Spends (run_wait c i id decision_id db)
  unfolding run_wait latest_request order_status_for
  run_wait-Spends h = grind (arith, get-update_self)

  run_fallback-Spends :
      row.fallback_used ≡ false
      → Post Spends (run_fallback c i (some inventory_fallback) id decision_id db)
  unfolding run_fallback fallback_request latest_request order_status_for
  run_fallback-Spends h = grind (arith, get-update_self)

  abbrev Ends : ExecutionResult → OrdersDb → Type 0
  Ends r after =
      IsSound c after id
      × (budget c (get id after.tasks) ≡ row_budget c row)
      × Ended (get id after.tasks)

  run_abort-Ends : (reason : String) → Post Ends (run_abort i reason id decision_id db)
  unfolding run_abort latest_request order_status_for
  run_abort-Ends reason = grind (arith, get-update_self)

  -- What a decision leaves behind: a sound task, with a smaller budget, or ended by an abort.
  abbrev pub Carried : ActionName → ExecutionResult → OrdersDb → Type 0
  Carried a r after =
      IsSound c after id
      × (budget c (get id after.tasks) ≤ row_budget c row)
      × ((a ≡ ActionName.abort → Ended (get id after.tasks))
          × (a ≢ ActionName.abort → budget c (get id after.tasks) < row_budget c row))

  module _ (limit : ℕ) (o : Observation) where
    handler-Carried :
        (a : ActionName) (t : Option Target) (reason : String)
        → Admits a t (snapshot c limit o db.task_events id row)
        → Post (Carried a) (
            handler c i (record { action = a; target = t; reason_code = reason }) id decision_id db)
    unfolding handler snapshot
    handler-Carried ActionName.continue t reason h =
        Post-mono Spends (Carried ActionName.continue) (run_continue c i id decision_id db)
          (λ r after p. ground arith) (run_continue-Spends h.0)
    handler-Carried ActionName.retry t reason h =
        Post-mono Spends (Carried ActionName.retry) (run_retry c i id decision_id db)
          (λ r after p. ground arith) (run_retry-Spends h.0 h.1)
    handler-Carried ActionName.wait t reason h =
        Post-mono Spends (Carried ActionName.wait) (run_wait c i id decision_id db)
          (λ r after p. ground arith) (run_wait-Spends h.1)
    handler-Carried ActionName.fallback t reason h = rw h.2 (
        Post-mono Spends (Carried ActionName.fallback)
          (run_fallback c i (some inventory_fallback) id decision_id db) (λ r after p. ground arith)
          (run_fallback-Spends h.1))
    handler-Carried ActionName.abort t reason h =
        Post-mono Ends (Carried ActionName.abort) (run_abort i reason id decision_id db)
          (λ r after p. ground arith) (run_abort-Ends reason)

    -- An admissible decision is carried out: the executor raises nothing and leaves the task sound;
    -- an abort has ended it, any other decision has made its budget smaller.
    pub execute-Carried :
        (d : Decision)
        → IsAdmissible c (snapshot c limit o db.task_events id row) d
        → Post (Carried d.action) (execute c i d id decision_id db)
    unfolding execute
    execute-Carried d adm =
        Post-transaction (Carried d.action) (handler c i d id decision_id) db
          (handler-Carried d.action d.target d.reason_code adm.fits)

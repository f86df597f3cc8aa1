-- ===== src/Orders/System/Points.antt =====
-- A decision point, seen from the whole database.
use rule2llm_orch_lab.Prelude.{ℕ, ◌≤◌, ◌≡◌, some, arith, Post, Post-mono}
use rule2llm_orch_lab.Prelude.Table.{get}
use rule2llm_orch_lab.Contract.SystemState.{SystemState}
use rule2llm_orch_lab.Engine.Output.{EngineOutput}
use rule2llm_orch_lab.Orders.Db.{OrdersDb, TaskRow}
use rule2llm_orch_lab.Orders.Executor.{Supply}
use rule2llm_orch_lab.Orders.StateBuilder.{Observation, snapshot}
use rule2llm_orch_lab.Orders.Orchestrator.{Setup, DecisionOutcome, handle_decision_point}
use rule2llm_orch_lab.Orders.Invariant.{RowReady}
use rule2llm_orch_lab.Orders.Invariant.Points.{Decided, decision_point-Decided, snapshot-IsCoherent}
use rule2llm_orch_lab.Orders.System.{Inv, Inv-of_Frame, Inv-Known, EngineReturns, Settled}

module _ (u : Setup) (returns : EngineReturns u) (o : Observation) (i : Supply) (id decision_id : ℕ)
    (db : OrdersDb) (inv : Inv u.config db) where
  Decided-Settled :
      (row : TaskRow) (state : SystemState) (output : EngineOutput)
      → get id db.tasks ≡ some row
      → (out : DecisionOutcome) (after : OrdersDb)
      → Decided u.config state id row output db out after
      → Settled u.config id db (some out) after
  Decided-Settled row state output found out after h =
      (Inv-of_Frame u.config id db after inv h.2 h.6, ground arith, λ j other. (h.6 j other).0)

  -- A decision point of a ready task settles.
  pub decision_point-Settled :
      (row : TaskRow)
      → get id db.tasks ≡ some row
      → row.created_at ≤ o.now
      → RowReady row
      → Post
          (λ out after. Settled u.config id db (some out) after)
          (handle_decision_point u o i id decision_id db)
  decision_point-Settled row found clock ready =
      let k = Inv-Known u.config db id row inv found in
      let state = snapshot u.config u.recent_events_limit o db.task_events id row in
      let (output, answered) = returns state (
        snapshot-IsCoherent u.config u.recent_events_limit o id db row k.order found k.has_order
          k.sound k.counted clock ready) in
      Post-mono (Decided u.config state id row output db)
        (λ out after. Settled u.config id db (some out) after)
        (handle_decision_point u o i id decision_id db) (Decided-Settled row state output found)
        (decision_point-Decided u o i id decision_id db row k.order found k.has_order k.sound
          k.counted clock ready output answered)

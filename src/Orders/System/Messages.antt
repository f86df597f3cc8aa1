-- ===== src/Orders/System/Messages.antt =====
-- The messages of `orders.events` that may open a decision point (consumers.py of the
-- orders-service), from their first transaction to the end of that decision point.
use rule2llm_orch_lab.Prelude.{
  ℕ, ◌≤◌, ◌≡◌, ◌≢◌, ◌∙◌, Bool, true, false, Option, none, some, refl, arith, Post, Post-map,
  Post-with, Post-bind,
}
use rule2llm_orch_lab.Prelude.Table.{get}
use rule2llm_orch_lab.Contract.Config.{MessagingConfig}
use rule2llm_orch_lab.Contract.Envelope.{MessageEnvelope, is_message}
use rule2llm_orch_lab.Orders.Db.{OrdersDb, TaskRow}
use rule2llm_orch_lab.Orders.Trajectory.{latest_request}
use rule2llm_orch_lab.Orders.Executor.{Supply}
use rule2llm_orch_lab.Orders.EventHandler.{is_handled, handle_inventory_event}
use rule2llm_orch_lab.Orders.Internal.{register_timeout, finish_wait}
use rule2llm_orch_lab.Orders.StateBuilder.{Observation}
use rule2llm_orch_lab.Orders.Orchestrator.{Setup, handle_decision_point}
use rule2llm_orch_lab.Orders.Consumers.{decide_if, handle_event, timeout_check, reevaluate}
use rule2llm_orch_lab.Orders.Invariant.{
  IsSound, IsReady, Ready, RowReady, row_budget, budget, created,
}
use rule2llm_orch_lab.Orders.Invariant.Events.{Echoes, Handled, handle_event-Handled}
use rule2llm_orch_lab.Orders.Invariant.Timers.{Timed, register_timeout-Timed, finish_wait-Timed}
use rule2llm_orch_lab.Orders.Invariant.Frame.{Frame, register_timeout-Frame, finish_wait-Frame}
use rule2llm_orch_lab.Orders.Invariant.EventFrame.{handle_event-Frame}
use rule2llm_orch_lab.Orders.System.{Inv, Inv-of_Frame, Inv-Known, EngineReturns, Settled}
use rule2llm_orch_lab.Orders.System.Points.{decision_point-Settled}

-- The first transaction of a message for task `id`.
abbrev Opened : MessagingConfig → ℕ → OrdersDb → Bool → OrdersDb → Type 0
Opened c id db asked mid =
    Inv c mid
    × (budget c (get id mid.tasks) ≡ budget c (get id db.tasks))
    × (created (get id mid.tasks) ≡ created (get id db.tasks))
    × ((j : ℕ) → j ≢ id → get j mid.tasks ≡ get j db.tasks)
    × (asked ≡ true → IsReady mid id)

pub ready_row :
    (db : OrdersDb) (id : ℕ)
    → IsReady db id
    → (row : TaskRow) × (get id db.tasks ≡ some row) × RowReady row
ready_row db id h = go (get id db.tasks) h
  where
    go : (t : Option TaskRow) → Ready t → (row : TaskRow) × (t ≡ some row) × RowReady row
    go none r = absurd r
    go (some row) r = (row, refl, r)

module _ (u : Setup) (returns : EngineReturns u) (o : Observation) (i : Supply) (id decision_id : ℕ)
    (db : OrdersDb) (clock : created (get id db.tasks) ≤ o.now) where
  -- A decision point that was asked for in the first transaction.
  decide_if-Settled :
      (asked : Bool) (mid : OrdersDb)
      → Opened u.config id db asked mid
      → Post (Settled u.config id db) (decide_if asked u o i id decision_id mid)
  unfolding decide_if
  decide_if-Settled false mid h = (h.0, omega (arith, h.1), h.3)
  decide_if-Settled true mid h =
      let (row, found, ready) = ready_row mid id (h.4 refl) in
      Post-map (λ out after. Settled u.config id mid (some out) after) (Settled u.config id db)
        (handle_decision_point u o i id decision_id) some mid
        (λ out after s. (s.0, omega (arith, s.1, h.1), λ j other. s.2 j other ∙ h.3 j other))
        (decision_point-Settled u returns o i id decision_id mid h.0 row found
          (ground (arith, h.2, clock)) ready)

Opened-of :
    (c : MessagingConfig) (id : ℕ) (db mid : OrdersDb) (row : TaskRow) (asked : Bool)
    → Inv c db
    → get id db.tasks ≡ some row
    → IsSound c mid id
    → budget c (get id mid.tasks) ≡ row_budget c row
    → created (get id mid.tasks) ≡ row.created_at
    → ((j : ℕ) → j ≢ id → Frame j db mid)
    → (asked ≡ true → IsReady mid id)
    → Opened c id db asked mid
Opened-of c id db mid row asked inv found s b t frame ready = (
  Inv-of_Frame c id db mid inv s frame,
  rw found b,
  rw found t,
  λ j other. (frame j other).0,
  ready,
)

module _ (u : Setup) (returns : EngineReturns u) (o : Observation) (i : Supply) (decision_id : ℕ)
    (db : OrdersDb) (inv : Inv u.config db) where
  -- An event of the Inventory for a known task, in the contract, that names the target of the request
  -- that it answers: it is handled and, where a decision is due, the decision is carried out, without
  -- a raise; the invariant holds afterwards.
  pub handle_event-Settled :
      (m : MessageEnvelope) (redelivered : Bool) (row : TaskRow)
      → get m.task_id db.tasks ≡ some row
      → row.created_at ≤ o.now
      → is_handled m.event_type ≡ true
      → is_message m ≡ true
      → Echoes m (latest_request m.task_id db.task_events)
      → Post (Settled u.config m.task_id db) (handle_event u o i decision_id m redelivered db)
  unfolding handle_event
  handle_event-Settled m redelivered row found clock handled message echo =
      let k = Inv-Known u.config db m.task_id row inv found in
      Post-bind
        (λ out mid.
          Handled u.config m.task_id row out mid × ((j : ℕ) → j ≢ m.task_id → Frame j db mid))
        (Settled u.config m.task_id db) (handle_inventory_event m redelivered i.now)
        (λ out. decide_if out.decision_required u o i m.task_id decision_id) db
        (Post-with (Handled u.config m.task_id row)
          (λ mid. (j : ℕ) → j ≢ m.task_id → Frame j db mid)
          (handle_inventory_event m redelivered i.now db)
          (handle_event-Handled u.config m redelivered i.now db row k.order found k.has_order
            k.sound k.counted handled message echo)
          (λ j other.
            handle_event-Frame m redelivered i.now db row found k.sound.own_order j other handled))
        (λ out mid h.
          decide_if-Settled u returns o i m.task_id decision_id db (rw found clock)
            out.decision_required mid
            (Opened-of u.config m.task_id db mid row out.decision_required inv found h.0.0 h.0.1
              h.0.2 h.1 h.0.3))

  -- A timeout check of a known task raises nothing and keeps the invariant.
  pub timeout_check-Settled :
      (id request : ℕ) (row : TaskRow)
      → get id db.tasks ≡ some row
      → row.created_at ≤ o.now
      → Post (Settled u.config id db) (timeout_check u o i decision_id id request db)
  unfolding timeout_check
  timeout_check-Settled id request row found clock =
      let k = Inv-Known u.config db id row inv found in
      Post-bind
        (λ asked mid.
          Timed u.config id i.now db row k.order found k.has_order k.sound k.counted asked mid
          × ((j : ℕ) → j ≢ id → Frame j db mid))
        (Settled u.config id db) (register_timeout id request i.now)
        (λ asked. decide_if asked u o i id decision_id) db
        (Post-with (Timed u.config id i.now db row k.order found k.has_order k.sound k.counted)
          (λ mid. (j : ℕ) → j ≢ id → Frame j db mid) (register_timeout id request i.now db)
          (register_timeout-Timed u.config id i.now db row k.order found k.has_order k.sound
            k.counted request)
          (λ j other.
            register_timeout-Frame u.config i id i.now db row found k.sound.own_order j other
              request))
        (λ asked mid h.
          decide_if-Settled u returns o i id decision_id db (rw found clock) asked mid
            (Opened-of u.config id db mid row asked inv found h.0.0 h.0.1 h.0.2 h.1 h.0.3))

  -- The end of a wait of a known task raises nothing and keeps the invariant.
  pub reevaluate-Settled :
      (id wait_count : ℕ) (row : TaskRow)
      → get id db.tasks ≡ some row
      → row.created_at ≤ o.now
      → Post (Settled u.config id db) (reevaluate u o i decision_id id wait_count db)
  unfolding reevaluate
  reevaluate-Settled id wait_count row found clock =
      let k = Inv-Known u.config db id row inv found in
      Post-bind
        (λ asked mid.
          Timed u.config id i.now db row k.order found k.has_order k.sound k.counted asked mid
          × ((j : ℕ) → j ≢ id → Frame j db mid))
        (Settled u.config id db) (finish_wait id wait_count i.now)
        (λ asked. decide_if asked u o i id decision_id) db
        (Post-with (Timed u.config id i.now db row k.order found k.has_order k.sound k.counted)
          (λ mid. (j : ℕ) → j ≢ id → Frame j db mid) (finish_wait id wait_count i.now db)
          (finish_wait-Timed u.config id i.now db row k.order found k.has_order k.sound k.counted
            wait_count)
          (λ j other.
            finish_wait-Frame u.config i id i.now db row found k.sound.own_order j other
              wait_count))
        (λ asked mid h.
          decide_if-Settled u returns o i id decision_id db (rw found clock) asked mid
            (Opened-of u.config id db mid row asked inv found h.0.0 h.0.1 h.0.2 h.1 h.0.3))

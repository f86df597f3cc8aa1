-- ===== src/Orders/System/Others.antt =====
-- The messages that open no decision point of their own, and a new order with its first decision.
use rule2llm_orch_lab.Prelude.{
  ℕ, ◌+◌, ◌≤◌, ◌<◌, ◌≡◌, ◌≢◌, ◌∙◌, Bool, true, Option, none, some, List, refl, arith, Post,
  Post-map, Post-with, Post-both, Post-mono, Post-bind, ◌>>=◌, pure,
}
use rule2llm_orch_lab.Prelude.Table.{get}
use rule2llm_orch_lab.Contract.Vocabulary.{EventType}
use rule2llm_orch_lab.Contract.Config.{MessagingConfig}
use rule2llm_orch_lab.Contract.Envelope.{Item, validate_payload, reservation_request}
use rule2llm_orch_lab.Orders.Db.{OrdersDb, OrderRow, TaskRow}
use rule2llm_orch_lab.Orders.Repositories.{OrderView, create_order_with_task, next_order_number}
use rule2llm_orch_lab.Orders.Executor.{Supply, Effect, dispatch_scheduled_attempt}
use rule2llm_orch_lab.Orders.Internal.{handle_dead_letter}
use rule2llm_orch_lab.Orders.StateBuilder.{Observation}
use rule2llm_orch_lab.Orders.Orchestrator.{Setup, handle_decision_point}
use rule2llm_orch_lab.Orders.Consumers.{dispatch_attempt, create_order}
use rule2llm_orch_lab.Orders.Invariant.{IsSound, row_budget, budget, created, IsReady}
use rule2llm_orch_lab.Orders.Invariant.Timers.{dead_letter-Timed, dispatch-Timed}
use rule2llm_orch_lab.Orders.Invariant.DeadLetters.{DeadLettered, dead_letter-DeadLettered}
use rule2llm_orch_lab.Orders.Invariant.Frame.{Frame, dead_letter-Frame, dispatch-Frame}
use rule2llm_orch_lab.Orders.Invariant.Creation.{Created, create-Created, create-Frame, free_task}
use rule2llm_orch_lab.Orders.System.{
  Inv, Inv-of_Frame, Inv-Known, budget_within, EngineReturns, Settled,
}
use rule2llm_orch_lab.Orders.System.Points.{decision_point-Settled}
use rule2llm_orch_lab.Orders.System.Messages.{ready_row}

Settled-quiet :
    (c : MessagingConfig) (id : ℕ) (db after : OrdersDb) (row : TaskRow)
    → Inv c db
    → get id db.tasks ≡ some row
    → IsSound c after id
    → budget c (get id after.tasks) ≡ row_budget c row
    → ((j : ℕ) → j ≢ id → Frame j db after)
    → Settled c id db none after
Settled-quiet c id db after row inv found s b frame = (
  Inv-of_Frame c id db after inv s frame,
  rw found (omega (arith, b)),
  λ j other. (frame j other).0,
)

module _ (u : Setup) (i : Supply) (db : OrdersDb) (inv : Inv u.config db) (id : ℕ) (row : TaskRow)
    (found : get id db.tasks ≡ some row) where
  -- The dispatch of a scheduled attempt of a known task raises nothing, and the whole database settles
  -- without a decision.
  pub dispatch_attempt-Settled :
      (decision_id : ℕ)
      → Post (λ effects. Settled u.config id db none) (dispatch_attempt u i id decision_id db)
  unfolding dispatch_attempt
  dispatch_attempt-Settled decision_id =
      let k = Inv-Known u.config db id row inv found in
      let P : Option (List Effect) → OrdersDb → Type 0 = λ effects after.
        IsSound u.config after id
        × (budget u.config (get id after.tasks) ≡ row_budget u.config row) in
      let F : OrdersDb → Type 0 = λ after. (j : ℕ) → j ≢ id → Frame j db after in
      Post-mono (λ effects after. P effects after × F after)
        (λ effects. Settled u.config id db none)
        (dispatch_scheduled_attempt u.config i id decision_id db)
        (λ effects after h. Settled-quiet u.config id db after row inv found h.0.0 h.0.1 h.1)
        (Post-with P F (dispatch_scheduled_attempt u.config i id decision_id db)
          (dispatch-Timed u.config id i.now db row k.order found k.has_order k.sound k.counted i
            decision_id)
          (λ j other.
            dispatch-Frame u.config i id i.now db row found k.sound.own_order j other decision_id))

  -- A dead letter of a known task raises nothing. A live task ends as `DEAD_LETTERED` and its order as
  -- `FAILED`, an ended one keeps its status and its order; either way the dead letter is recorded as the
  -- next event of the task and says whether the task was changed. The budget of the task stays the
  -- same, the invariant holds and no other task has changed.
  pub dead_letter-Settled :
      (message_id : Option ℕ) (now : ℕ)
      → (order : OrderRow) × (get id db.orders ≡ some order)
        × Post
            (λ changed after.
              DeadLettered id message_id now db row order changed after
              × (budget u.config (get id after.tasks) ≡ row_budget u.config row)
              × Settled u.config id db none after)
            (handle_dead_letter (some id) message_id now db)
  dead_letter-Settled message_id now =
      let k = Inv-Known u.config db id row inv found in
      let P : Bool → OrdersDb → Type 0 = λ changed after.
        IsSound u.config after id
        × (budget u.config (get id after.tasks) ≡ row_budget u.config row) in
      let F : OrdersDb → Type 0 = λ after. (j : ℕ) → j ≢ id → Frame j db after in
      let D : Bool → OrdersDb → Type 0 = DeadLettered id message_id now db row k.order in
      let call = handle_dead_letter (some id) message_id now db in
      (
        k.order,
        k.has_order,
        Post-mono (λ changed after. D changed after × (P changed after × F after))
            (λ changed after.
              D changed after
              × (budget u.config (get id after.tasks) ≡ row_budget u.config row)
              × Settled u.config id db none after)
            call
            (λ changed after h. (
              h.0,
              h.1.0.1,
              Settled-quiet u.config id db after row inv found h.1.0.0 h.1.0.1 h.1.1,
            ))
            (Post-both D (λ changed after. P changed after × F after) call
              (dead_letter-DeadLettered id now db row k.order message_id found k.has_order
                k.sound.own_order)
              (Post-with P F call
                (dead_letter-Timed u.config id now db row k.order found k.has_order k.sound
                  k.counted message_id)
                (λ j other.
                  dead_letter-Frame u.config i id now db row found k.sound.own_order j other
                    message_id))),
      )

module _ (c : MessagingConfig) (execution_id now : ℕ) (items : List Item) (db : OrdersDb)
    (inv : Inv c db) (attempts : 0 < c.max_attempts)
    (fits : validate_payload EventType.stock_reservation_requested (reservation_request 0 items)
      ≡ true) where
  -- A new order raises nothing: it takes a number that no order has, its task is ready for the first
  -- decision, and the whole database settles without a decision.
  pub create-Settled :
      Post
        (λ view after.
          (view.task_id ≡ next_order_number db.orders)
          × IsReady after view.task_id
          × (created (get view.task_id after.tasks) ≡ now)
          × Settled c view.task_id db none after)
        (create_order_with_task execution_id items now db)
  create-Settled =
      let n = next_order_number db.orders in
      let P : OrderView → OrdersDb → Type 0 =
        Created c execution_id now items db attempts fits inv.every inv.own in
      let F : OrdersDb → Type 0 = λ after. (j : ℕ) → j ≢ n → Frame j db after in
      Post-mono (λ view after. P view after × F after)
        (λ view after.
          (view.task_id ≡ next_order_number db.orders)
          × IsReady after view.task_id
          × (created (get view.task_id after.tasks) ≡ now)
          × Settled c view.task_id db none after)
        (create_order_with_task execution_id items now db)
        (λ view after h. rw h.0.0 (
          refl,
          h.0.3,
          h.0.4,
          (
            Inv-of_Frame c n db after inv h.0.2 h.1,
            rw (free_task c execution_id now items db attempts fits inv.every inv.own)
                (omega (arith, h.0.5)),
            λ j other. (h.1 j other).0,
          ),
        ))
        (Post-with P F (create_order_with_task execution_id items now db)
          (create-Created c execution_id now items db attempts fits inv.every inv.own)
          (create-Frame c execution_id now items db attempts fits inv.every inv.own))

module _ (u : Setup) (returns : EngineReturns u) (o : Observation) (i : Supply) (decision_id : ℕ)
    (execution_id : ℕ) (items : List Item) (db : OrdersDb) (inv : Inv u.config db)
    (attempts : 0 < u.config.max_attempts)
    (fits : validate_payload EventType.stock_reservation_requested (reservation_request 0 items)
      ≡ true) where
  -- A new order and the first decision of its task raise nothing; the invariant holds afterwards, the
  -- task stays within the budget of a new task, and every other task is left alone.
  pub create_order-Settled :
      i.now ≤ o.now
      → Post
          (λ view after.
            (view.task_id ≡ next_order_number db.orders)
            × Inv u.config after
            × (budget u.config (get view.task_id after.tasks)
                ≤ u.config.max_attempts + u.config.max_waits + 1)
            × ((j : ℕ) → j ≢ view.task_id → get j after.tasks ≡ get j db.tasks))
          (create_order u o i decision_id execution_id items db)
  unfolding create_order
  create_order-Settled clock =
      let Q : OrderView → OrdersDb → Type 0 = λ view after.
        (view.task_id ≡ next_order_number db.orders)
        × Inv u.config after
        × (budget u.config (get view.task_id after.tasks)
            ≤ u.config.max_attempts + u.config.max_waits + 1)
        × ((j : ℕ) → j ≢ view.task_id → get j after.tasks ≡ get j db.tasks) in
      Post-bind
        (λ view mid.
          (view.task_id ≡ next_order_number db.orders)
          × IsReady mid view.task_id
          × (created (get view.task_id mid.tasks) ≡ i.now)
          × Settled u.config view.task_id db none mid)
        Q (create_order_with_task execution_id items i.now)
        (λ view. handle_decision_point u o i view.task_id decision_id >>= λ out. pure view) db
        (create-Settled u.config execution_id i.now items db inv attempts fits)
        (λ view mid h.
          let (row, found, ready) = ready_row mid view.task_id h.1 in
          Post-map (λ out after. Settled u.config view.task_id mid (some out) after) Q
            (handle_decision_point u o i view.task_id decision_id) (λ out. view) mid
            (λ out after s. (
              h.0,
              s.0,
              omega (arith, s.1, h.3.1, budget_within u.config db inv view.task_id),
              λ j other. s.2 j other ∙ h.3.2 j other,
            ))
            (decision_point-Settled u returns o i view.task_id decision_id mid h.3.0 row found
              (ground (arith, h.2, clock, found)) ready))

-- ===== src/Orders/Invariant/Timers.antt =====
-- The invariant of a task under the internal tasks of the orders-service (timeouts.py, waits.py,
-- dead_letters.py and `dispatch_scheduled_attempt`).
use rule2llm_orch_lab.Prelude.{
  ℕ, ◌≡◌, ◌≢◌, inl, inr, Bool, true, false, Option, none, some, List, arith, Post, Option-cases,
}
use rule2llm_orch_lab.Prelude.Table.{get, get-update_self}
use rule2llm_orch_lab.Contract.Vocabulary.{order_status_for}
use rule2llm_orch_lab.Contract.Config.{MessagingConfig}
use rule2llm_orch_lab.Orders.Db.{OrdersDb, OrderRow, TaskRow, EventRow}
use rule2llm_orch_lab.Orders.Trajectory.{is_awaiting_reply, latest_request}
use rule2llm_orch_lab.Orders.Executor.{Supply, dispatch_scheduled_attempt}
use rule2llm_orch_lab.Orders.Internal.{register_timeout, finish_wait, handle_dead_letter}
use rule2llm_orch_lab.Orders.Invariant.{
  Counted, RequestFits, RowSound, IsSound, IsReady, row_budget, budget, created,
}

awaiting-request :
    (id request : ℕ) (es : List EventRow)
    → latest_request id es ≡ none
    → is_awaiting_reply id request es ≡ false
unfolding is_awaiting_reply
awaiting-request id request es q = ground arith

module _ (c : MessagingConfig) (id now : ℕ) (db : OrdersDb) (row : TaskRow) (order : OrderRow)
    (found : get id db.tasks ≡ some row) (has_order : get id db.orders ≡ some order)
    (sound : RowSound c id row order (latest_request id db.task_events))
    (counted : Counted db.task_events) where
  -- The task is sound with the budget that it had; a decision point is opened only if it is ready.
  abbrev pub Timed : Bool → OrdersDb → Type 0
  Timed opened after =
      IsSound c after id
      × (budget c (get id after.tasks) ≡ row_budget c row)
      × (created (get id after.tasks) ≡ row.created_at)
      × (opened ≡ true → IsReady after id)

  -- A request that is awaited went to a target.
  awaited-target :
      (request : ℕ) → is_awaiting_reply id request db.task_events ≡ true → row.current_target ≢ none
  awaited-target request h = elim (Option-cases (latest_request id db.task_events)) [
    | inl q ↦ ground (arith, awaiting-request id request db.task_events q)
    | inr (e, q) ↦
        let fits : RequestFits (some e) row.current_target = rw q at sound.request_fits in fits.1
  ]

  -- A timeout check.
  pub register_timeout-Timed : (request : ℕ) → Post Timed (register_timeout id request now db)
  unfolding register_timeout latest_request
  register_timeout-Timed request = grind (arith, get-update_self, awaited-target request)

  -- The end of a wait.
  pub finish_wait-Timed : (wait_count : ℕ) → Post Timed (finish_wait id wait_count now db)
  unfolding finish_wait latest_request
  finish_wait-Timed wait_count = grind (arith, get-update_self)

  -- A dead letter of the task.
  pub dead_letter-Timed :
      (message_id : Option ℕ)
      → Post
          (λ changed after. IsSound c after id × (budget c (get id after.tasks) ≡ row_budget c row))
          (handle_dead_letter (some id) message_id now db)
  unfolding handle_dead_letter latest_request order_status_for
  dead_letter-Timed message_id = grind (arith, get-update_self)

  pub dispatch-Timed :
      (i : Supply) (decision_id : ℕ)
      → Post
          (λ effects after. IsSound c after id × (budget c (get id after.tasks) ≡ row_budget c row))
          (dispatch_scheduled_attempt c i id decision_id db)
  unfolding dispatch_scheduled_attempt latest_request order_status_for
  dispatch-Timed i decision_id = grind (arith, get-update_self)

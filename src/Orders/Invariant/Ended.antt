-- ===== src/Orders/Invariant/Ended.antt =====
-- The handlers of the orders-service on a task with a terminal status (shared/task.py).
use rule2llm_orch_lab.Prelude.{ℕ, ◌≡◌, Bool, true, false, Option, none, some, arith, Post}
use rule2llm_orch_lab.Prelude.Table.{get, get-update_self}
use rule2llm_orch_lab.Contract.Vocabulary.{TaskStatus, is_terminal}
use rule2llm_orch_lab.Contract.Config.{MessagingConfig}
use rule2llm_orch_lab.Contract.Envelope.{MessageEnvelope, is_message}
use rule2llm_orch_lab.Orders.Db.{OrdersDb, TaskRow}
use rule2llm_orch_lab.Orders.EventHandler.{
  is_handled, EventOutcome, handle_inventory_event, receive, handle_new, apply_event, apply_failure,
  register_failure, apply_success, record_new, record_repeated,
}
use rule2llm_orch_lab.Orders.Executor.{Supply, dispatch_scheduled_attempt}
use rule2llm_orch_lab.Orders.Internal.{register_timeout, finish_wait, handle_dead_letter}

abbrev pub status_of : Option TaskRow → Option TaskStatus
status_of none = none
status_of (some row) = some row.status

-- Task `id` and its order stand as they did.
abbrev pub Stays : ℕ → OrdersDb → OrdersDb → Type 0
Stays id db after =
    (status_of (get id after.tasks) ≡ status_of (get id db.tasks))
    × (get id after.orders ≡ get id db.orders)

module _ (id now : ℕ) (db : OrdersDb) (row : TaskRow) (found : get id db.tasks ≡ some row)
    (ended : is_terminal row.status ≡ true) where
  pub timeout-Stays :
      (request : ℕ)
      → Post
          (λ opened after. (opened ≡ false) × Stays id db after)
          (register_timeout id request now db)
  unfolding register_timeout
  timeout-Stays request = grind (arith, get-update_self)

  pub wait-Stays :
      (wait_count : ℕ)
      → Post
          (λ opened after. (opened ≡ false) × Stays id db after)
          (finish_wait id wait_count now db)
  unfolding finish_wait
  wait-Stays wait_count = grind (arith, get-update_self)

  pub dead_letter-Stays :
      (message_id : Option ℕ)
      → Post
          (λ changed after. (changed ≡ false) × Stays id db after)
          (handle_dead_letter (some id) message_id now db)
  unfolding handle_dead_letter
  dead_letter-Stays message_id = grind (arith, get-update_self)

  pub dispatch-Stays :
      (c : MessagingConfig) (i : Supply) (decision_id : ℕ)
      → Post
          (λ effects after. (effects ≡ none) × Stays id db after)
          (dispatch_scheduled_attempt c i id decision_id db)
  unfolding dispatch_scheduled_attempt
  dispatch-Stays c i decision_id = grind (arith, get-update_self)

module _ (m : MessageEnvelope) (redelivered : Bool) (now : ℕ) (db : OrdersDb) (row : TaskRow)
    (found : get m.task_id db.tasks ≡ some row) (ended : is_terminal row.status ≡ true)
    (handled : is_handled m.event_type ≡ true) (message : is_message m ≡ true) where
  pub event-Stays :
      Post
        (λ (out : EventOutcome) after. (out.decision_required ≡ false) × Stays m.task_id db after)
        (handle_inventory_event m redelivered now db)
  unfolding handle_inventory_event receive handle_new record_new apply_event apply_success
      apply_failure register_failure record_repeated
  event-Stays = grind (arith, get-update_self)

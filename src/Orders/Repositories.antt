-- ===== src/Orders/Repositories.antt =====
-- Orders and tasks (services/orders/app/db/repositories.py). The functions run inside the caller's
-- transaction, but for `create_order_with_task`, which opens its own.
use rule2llm_orch_lab.Prelude.{
  ℕ, ◌+◌, Bool, true, false, Option, none, some, List, [], ◌∷◌, Action, ok, err, pure, gets, modify,
  transaction, ◌>>=◌, ◌>>◌, integrity_error, no_row, find, any, ◌==◌, is_none, is_some, not, ◌&&◌,
  ◌||◌, leb, if◌then◌else◌,
}
use rule2llm_orch_lab.Prelude.Table.{Table, get, update, insert}
use rule2llm_orch_lab.Contract.Vocabulary.{
  TaskStatus, TaskResult, EventType, EventSource, Target, OrderStatus, is_terminal,
  order_status_for,
}
use rule2llm_orch_lab.Contract.Envelope.{Item, MessageEnvelope, no_payload}
use rule2llm_orch_lab.Orders.Db.{OrdersDb, OrderRow, TaskRow, update_task}
use rule2llm_orch_lab.Orders.Trajectory.{record_event}

-- `CreatedOrder`, and `OrderView` of `get_order`
pub record OrderView : Type 0 where
  pub order_id : ℕ
  pub task_id : ℕ
  pub status : OrderStatus

-- `DispatchContext`
pub record DispatchContext : Type 0 where
  pub task_id : ℕ
  pub order_id : ℕ
  pub execution_id : ℕ
  pub target : Option Target
  pub attempt_number : ℕ
  pub items : List Item

-- `_next_order_number`: MAX(rowid) + 1. The number of an order is its row id, since rows are only
-- inserted, one after the other.
unfoldable pub max_key {ℓ} : {V : Type ℓ} → Table V → ℕ
max_key [] = 0
max_key ((k, v) ∷ t) = let rest = max_key t in if leb k rest then rest else k

unfoldable pub next_order_number : Table OrderRow → ℕ
unfolding max_key
next_order_number t = max_key t + 1

-- `INSERT INTO`: a key that is there raises.
unfoldable pub insert_order : ℕ → OrderRow → Action OrdersDb (Unit {0})
insert_order order_id row db = elim (get order_id db.orders) [
  | some old ↦ (err integrity_error, db)
  | none ↦ (ok tt, record db { orders = insert order_id row db.orders })
]

-- `task_id` is the key; `order_id` is UNIQUE and REFERENCES `orders`.
unfoldable pub insert_task : ℕ → TaskRow → Action OrdersDb (Unit {0})
insert_task task_id row db =
    if is_some (get task_id db.tasks)
      || any (λ (e : ℕ × TaskRow). e.1.order_id == row.order_id) db.tasks
      || is_none (get row.order_id db.orders)
    then (err integrity_error, db)
    else (ok tt, record db { tasks = insert task_id row db.tasks })

abbrev pub new_task : ℕ → ℕ → ℕ → TaskRow
new_task order_id execution_id now = record {
  order_id = order_id;
  execution_id = execution_id;
  status = TaskStatus.pending;
  current_target = none;
  attempt_number = 1;
  wait_count = 0;
  fallback_used = false;
  current_event_seq = 1;
  last_result = none;
  created_at = now;
  updated_at = now;
}

-- `create_order_with_task`: order and task have the same number.
unfoldable pub create_order_with_task : ℕ → List Item → ℕ → Action OrdersDb OrderView
unfolding next_order_number insert_order insert_task record_event
create_order_with_task execution_id items now = transaction (do
  number ← gets (λ db. next_order_number db.orders)
  insert_order number (record {
    execution_id = execution_id;
    status = OrderStatus.pending;
    items = items;
    created_at = now;
    updated_at = now;
  })
  insert_task number (new_task number execution_id now)
  record_event
      (record {
        execution_id = execution_id;
        task_id = number;
        message_id = none;
        event_seq = 1;
        event_type = EventType.task_created;
        attempt_number = 1;
        service = EventSource.orders;
        target = none;
        redelivered = false;
        published_at = none;
        payload = no_payload;
      })
      now
  pure (record { order_id = number; task_id = number; status = OrderStatus.pending }))

-- `get_order`: the join of the order with its task.
unfoldable pub get_order : OrdersDb → ℕ → Option OrderView
get_order db order_id = elim (get order_id db.orders) [
  | none ↦ none
  | some order ↦ elim (find (λ (e : ℕ × TaskRow). e.1.order_id == order_id) db.tasks) [
    | none ↦ none
    | some e ↦ some (record { order_id = order_id; task_id = e.0; status = order.status })
  ]
]

abbrev pub may_start : TaskRow → Bool
may_start row =
    elim row.status [ TaskStatus.pending ↦ true | TaskStatus.waiting ↦ true | _ ↦ false ]
    && is_none row.current_target

-- `start_first_dispatch`
unfoldable pub start_first_dispatch : ℕ → Target → ℕ → Action OrdersDb Bool
unfolding update_task
start_first_dispatch task_id target now = update_task task_id may_start (λ row. record row {
  status = TaskStatus.dispatched;
  current_target = some target;
  updated_at = now;
})

-- `start_retry`: the new attempt number.
unfoldable pub start_retry : ℕ → ℕ → Action OrdersDb (Option ℕ)
unfolding update_task
start_retry task_id now = do
  updated ←
      update_task task_id (λ row. is_some row.current_target && not (is_terminal row.status))
        (λ row. record row {
          attempt_number = row.attempt_number + 1;
          status = TaskStatus.retrying;
          updated_at = now;
        })
  task ← gets (λ db. get task_id db.tasks)
  pure (if updated then elim task [ none ↦ none | some row ↦ some row.attempt_number ] else none)

abbrev pub is_retrying : TaskStatus → Bool
is_retrying TaskStatus.retrying = true
is_retrying _ = false

-- `mark_retry_dispatched`
unfoldable pub mark_retry_dispatched : ℕ → ℕ → Action OrdersDb Bool
unfolding update_task
mark_retry_dispatched task_id now =
    update_task task_id (λ row. is_retrying row.status)
      (λ row. record row { status = TaskStatus.dispatched; updated_at = now })

-- `start_fallback`
unfoldable pub start_fallback : ℕ → Option Target → ℕ → Action OrdersDb Bool
unfolding update_task
start_fallback task_id target now =
    update_task task_id (λ row. not row.fallback_used && not (is_terminal row.status))
      (λ row. record row {
        status = TaskStatus.fallback_processing;
        current_target = target;
        fallback_used = true;
        updated_at = now;
      })

-- `enter_wait`: the new wait count.
unfoldable pub enter_wait : ℕ → ℕ → Action OrdersDb (Option ℕ)
unfolding update_task
enter_wait task_id now = do
  updated ←
      update_task task_id (λ row. not (is_terminal row.status))
        (λ row. record row {
          wait_count = row.wait_count + 1;
          status = TaskStatus.waiting;
          updated_at = now;
        })
  task ← gets (λ db. get task_id db.tasks)
  pure (if updated then elim task [ none ↦ none | some row ↦ some row.wait_count ] else none)

-- `dispatch_context`; reading a row that is not there raises.
unfoldable pub dispatch_context : ℕ → Action OrdersDb DispatchContext
dispatch_context task_id db = elim (get task_id db.tasks) [
  | none ↦ (err no_row, db)
  | some t ↦ elim (get t.order_id db.orders) [
    | none ↦ (err no_row, db)
    | some o ↦ (
      ok (record {
        task_id = task_id;
        order_id = t.order_id;
        execution_id = t.execution_id;
        target = t.current_target;
        attempt_number = t.attempt_number;
        items = o.items;
      }),
      db,
    )
  ]
]

-- `is_event_processed`
unfoldable pub is_event_processed : OrdersDb → ℕ → Bool
is_event_processed db message_id = is_some (get message_id db.processed_events)

-- `insert_processed_event`
unfoldable pub insert_processed_event : MessageEnvelope → ℕ → Action OrdersDb (Unit {0})
insert_processed_event m now db = elim (get m.message_id db.processed_events) [
  | some old ↦ (err integrity_error, db)
  | none ↦ (
    ok tt,
    record db {
      processed_events =
          insert m.message_id
            (record { task_id = m.task_id; event_type = m.event_type; processed_at = now })
            db.processed_events;
    },
  )
]

-- `UPDATE orders SET status … WHERE order_id = (SELECT order_id FROM tasks WHERE task_id = ?)`
unfoldable pub set_order_status : ℕ → OrderStatus → ℕ → OrdersDb → OrdersDb
set_order_status task_id status now db = elim (get task_id db.tasks) [
  | none ↦ db
  | some t ↦ record db {
    orders = update t.order_id (λ o. record o { status = status; updated_at = now }) db.orders;
  }
]

-- `complete_task`
unfoldable pub complete_task : ℕ → ℕ → Action OrdersDb Bool
unfolding update_task set_order_status order_status_for
complete_task task_id now = do
  updated ←
      update_task task_id (λ row. not (is_terminal row.status))
        (λ row. record row {
          status = TaskStatus.completed;
          last_result = some TaskResult.ok;
          updated_at = now;
        })
  modify (λ db.
      if updated
      then set_order_status task_id (order_status_for TaskStatus.completed) now db
      else db)
  pure updated

-- `set_last_result`
unfoldable pub set_last_result : ℕ → TaskResult → ℕ → Action OrdersDb (Unit {0})
set_last_result task_id result now = modify (λ db. record db {
  tasks =
      update task_id (λ row. record row { last_result = some result; updated_at = now }) db.tasks;
})

-- `_finish_task`
unfoldable pub finish_task : ℕ → TaskStatus → ℕ → Action OrdersDb Bool
unfolding update_task set_order_status order_status_for
finish_task task_id status now = do
  updated ←
      update_task task_id (λ row. not (is_terminal row.status))
        (λ row. record row { status = status; updated_at = now })
  modify (λ db. if updated then set_order_status task_id (order_status_for status) now db else db)
  pure updated

-- `abort_task` and `dead_letter_task`
unfoldable pub abort_task : ℕ → ℕ → Action OrdersDb Bool
unfolding finish_task
abort_task task_id now = finish_task task_id TaskStatus.aborted now

unfoldable pub dead_letter_task : ℕ → ℕ → Action OrdersDb Bool
unfolding finish_task
dead_letter_task task_id now = finish_task task_id TaskStatus.dead_lettered now

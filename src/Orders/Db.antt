-- ===== src/Orders/Db.antt =====
-- `orders.db` (services/orders/app/db/models.py): the four tables of `SCHEMA`. Order and task ids are
-- the number behind their prefix; message ids are only compared. Times are milliseconds.
use rule2llm_orch_lab.Prelude.{
  ℕ, Bool, true, false, Option, none, some, List, Action, ok, if◌then◌else◌,
}
use rule2llm_orch_lab.Prelude.Table.{Table, get, update}
use rule2llm_orch_lab.Contract.Vocabulary.{
  TaskStatus, TaskResult, EventType, Target, OrderStatus, EventSource,
}
use rule2llm_orch_lab.Contract.Envelope.{Item, Payload}

-- table `orders`, keyed by `order_id`
pub record OrderRow : Type 0 where
  pub execution_id : ℕ
  pub status : OrderStatus
  pub items : List Item
  pub created_at : ℕ
  pub updated_at : ℕ

-- table `tasks`, keyed by `task_id`
pub record TaskRow : Type 0 where
  pub order_id : ℕ
  pub execution_id : ℕ
  pub status : TaskStatus
  pub current_target : Option Target
  pub attempt_number : ℕ
  pub wait_count : ℕ
  pub fallback_used : Bool
  pub current_event_seq : ℕ
  pub last_result : Option TaskResult
  pub created_at : ℕ
  pub updated_at : ℕ

-- table `processed_events`, keyed by `message_id`
pub record ProcessedEvent : Type 0 where
  pub task_id : ℕ
  pub event_type : EventType
  pub processed_at : ℕ

-- table `task_events`
pub record EventRow : Type 0 where
  pub event_id : ℕ
  pub execution_id : ℕ
  pub task_id : ℕ
  pub message_id : Option ℕ
  pub event_seq : ℕ
  pub event_type : EventType
  pub attempt_number : ℕ
  pub service : EventSource
  pub target : Option Target
  pub redelivered : Bool
  pub published_at : Option ℕ
  pub recorded_at : ℕ
  pub payload : Payload

-- `task_events` holds the newest row first, the order of `ORDER BY event_id DESC`.
pub record OrdersDb : Type 0 where
  pub orders : Table OrderRow
  pub tasks : Table TaskRow
  pub processed_events : Table ProcessedEvent
  pub task_events : List EventRow

-- `UPDATE tasks SET … WHERE task_id = ? AND …`; the result is `updated.rowcount == 1`.
unfoldable pub update_task : ℕ → (TaskRow → Bool) → (TaskRow → TaskRow) → Action OrdersDb Bool
update_task task_id guard set db = elim (get task_id db.tasks) [
  | none ↦ (ok false, db)
  | some row ↦
      if guard row
      then (ok true, record db { tasks = update task_id set db.tasks })
      else (ok false, db)
]

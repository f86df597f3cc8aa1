-- ===== src/Orders/Invariant.antt =====
-- What holds of every task of `orders.db` between two transactions, and what holds besides when a
-- decision point is opened for it.
pub mod Decisions
pub mod Events
pub mod Timers
pub mod DeadLetters
pub mod Frame
pub mod EventFrame
pub mod Points
pub mod Creation
pub mod Ended
use rule2llm_orch_lab.Prelude.{
  ℕ, ◌+◌, ◌-◌, ◌≤◌, ◌<◌, ◌≡◌, ◌≢◌, ◌⊎◌, Bool, true, false, Option, none, some, List, [], ◌∷◌,
}
use rule2llm_orch_lab.Prelude.Table.{get}
use rule2llm_orch_lab.Contract.Vocabulary
use rule2llm_orch_lab.Contract.Vocabulary.{
  TaskStatus, TaskResult, EventType, Target, inventory_primary, inventory_fallback, is_terminal,
  is_transient, order_status_for,
}
use rule2llm_orch_lab.Contract.Config.{MessagingConfig}
use rule2llm_orch_lab.Contract.Envelope.{reservation_request, validate_payload}
use rule2llm_orch_lab.Orders.Db.{OrdersDb, OrderRow, TaskRow, EventRow}
use rule2llm_orch_lab.Orders.Trajectory.{latest_request}

-- The latest request of a task went to its current target.
abbrev pub RequestFits : Option EventRow → Option Target → Type 0
RequestFits none target = Unit
RequestFits (some request) target = (request.target ≡ target) × (target ≢ none)

pub record RowSound (c : MessagingConfig) (id : ℕ) (row : TaskRow) (order : OrderRow)
    (request : Option EventRow) : Type 0 where
  -- Order and task share their number, and the order's status follows the task's.
  pub own_order : row.order_id ≡ id
  pub order_status : order.status ≡ order_status_for row.status
  pub items :
      validate_payload EventType.stock_reservation_requested (reservation_request id order.items)
      ≡ true
  -- The counters start at 1 and stay within their budgets.
  pub attempt_positive : 0 < row.attempt_number
  pub seq_positive : 0 < row.current_event_seq
  pub attempts : row.attempt_number ≤ c.max_attempts
  pub waits : row.wait_count ≤ c.max_waits
  -- The fallback is used exactly when it is the target, and only a task that is not busy has
  -- no target.
  pub used : row.fallback_used ≡ true → row.current_target ≡ some inventory_fallback
  pub unused : row.fallback_used ≡ false → row.current_target ≢ some inventory_fallback
  pub idle :
      row.current_target ≡ none
      → (row.status ≡ TaskStatus.pending)
        ⊎ (row.status ≡ TaskStatus.waiting)
        ⊎ (is_terminal row.status ≡ true)
  pub request_fits : RequestFits request row.current_target
  -- The last result says how far the task has come.
  pub failed_primary :
      is_transient row.last_result ≡ true
      → (row.current_target ≡ some inventory_primary)
        ⊎ (row.status ≡ TaskStatus.fallback_processing)
        ⊎ (is_terminal row.status ≡ true)
  pub fresh :
      row.last_result ≡ none
      → (row.current_target ≡ none)
        ⊎ (row.status ≡ TaskStatus.dispatched)
        ⊎ (row.status ≡ TaskStatus.fallback_processing)
        ⊎ (is_terminal row.status ≡ true)
  pub succeeded : row.last_result ≡ some TaskResult.ok → is_terminal row.status ≡ true

-- A task without a row has no request either; a task with a row has its order.
abbrev pub Sound : MessagingConfig → ℕ → Option TaskRow → Option OrderRow → Option EventRow → Type 0
Sound c id none order request = request ≡ none
Sound c id (some row) none request = ⊥
Sound c id (some row) (some order) request = RowSound c id row order request

-- Every row of the trajectory has positive counters.
abbrev pub Counted : List EventRow → Type 0
Counted [] = Unit
Counted (e ∷ es) = (0 < e.attempt_number) × (0 < e.event_seq) × Counted es

abbrev pub IsSound : MessagingConfig → OrdersDb → ℕ → Type 0
IsSound c db id =
    Sound c id (get id db.tasks) (get id db.orders) (latest_request id db.task_events)
    × Counted db.task_events

-- A decision point is opened for a task that is live, has no answer yet or a failure that the engine
-- can tell.
pub record RowReady (row : TaskRow) : Type 0 where
  pub live : is_terminal row.status ≡ false
  pub failed_primary :
      is_transient row.last_result ≡ true → row.current_target ≡ some inventory_primary
  pub fresh : row.last_result ≡ none → row.current_target ≡ none
  pub not_ok : row.last_result ≢ some TaskResult.ok

abbrev pub Ready : Option TaskRow → Type 0
Ready none = ⊥
Ready (some row) = RowReady row

abbrev pub IsReady : OrdersDb → ℕ → Type 0
IsReady db id = Ready (get id db.tasks)

-- How many decisions other than `ABORT` a task can still see; a number that no task has yet stands for
-- a new task.
abbrev pub row_budget : MessagingConfig → TaskRow → ℕ
row_budget c row =
    c.max_attempts
    - row.attempt_number
    + (c.max_waits - row.wait_count)
    + elim row.fallback_used [ true ↦ 0 | false ↦ 1 ]
    + elim row.current_target [ none ↦ 1 | some t ↦ 0 ]

abbrev pub budget : MessagingConfig → Option TaskRow → ℕ
budget c none = c.max_attempts + c.max_waits + 1
budget c (some row) = row_budget c row

abbrev pub Ended : Option TaskRow → Type 0
Ended none = ⊥
Ended (some row) = is_terminal row.status ≡ true

abbrev pub created : Option TaskRow → ℕ
created none = 0
created (some row) = row.created_at

-- ===== src/Orders/Internal.antt =====
-- The internal tasks of the orders-service: timeout checks (orchestration/timeouts.py), the end of a
-- wait (waits.py) and dead letters (dead_letters.py).
use rule2llm_orch_lab.Prelude.{
  ℕ, Bool, true, false, Option, none, some, Action, ok, pure, transaction, ◌>>=◌, ◌>>◌, not, ◌==◌,
  ◌&&◌, if◌then◌else◌,
}
use rule2llm_orch_lab.Prelude.Table.{get}
use rule2llm_orch_lab.Contract.Vocabulary.{
  TaskStatus, EventType, TaskResult, Target, is_fallback, is_terminal,
}
use rule2llm_orch_lab.Contract.Envelope.{
  timeout_details, wait_finished_details, dead_letter_details,
}
use rule2llm_orch_lab.Orders.Db.{OrdersDb, TaskRow}
use rule2llm_orch_lab.Orders.Trajectory.{
  record_internal_event, is_awaiting_reply, timeout_registered, wait_already_finished,
}
use rule2llm_orch_lab.Orders.Repositories.{set_last_result, dead_letter_task}

-- The result of a timeout: `fallback_failed` on the fallback route (D-15).
unfoldable pub timeout_result : Option Target → TaskResult
timeout_result none = TaskResult.timeout
timeout_result (some t) = if is_fallback t then TaskResult.fallback_failed else TaskResult.timeout

-- The guards of `register_timeout`
abbrev pub timeout_applies : OrdersDb → TaskRow → ℕ → ℕ → Bool
timeout_applies db task task_id request =
    not (is_terminal task.status)
    && is_awaiting_reply task_id request db.task_events
    && not (timeout_registered task_id request db.task_events)

-- `register_timeout`: true when there is a decision point.
unfoldable pub register_timeout : ℕ → ℕ → ℕ → Action OrdersDb Bool
unfolding set_last_result record_internal_event timeout_result
register_timeout task_id request now = transaction λ db. elim (get task_id db.tasks) [
  | none ↦ (ok false, db)
  | some task ↦
      if timeout_applies db task task_id request
      then (do
        set_last_result task_id (timeout_result task.current_target) now
        record_internal_event task_id EventType.inventory_timeout now
            (timeout_details request (timeout_result task.current_target))
        pure true)
          db
      else (ok false, db)
]

abbrev pub is_waiting : TaskStatus → Bool
is_waiting TaskStatus.waiting = true
is_waiting _ = false

-- The guards of `finish_wait`
abbrev pub wait_ends : OrdersDb → TaskRow → ℕ → ℕ → Bool
wait_ends db task task_id wait_count =
    is_waiting task.status
    && task.wait_count == wait_count
    && not (wait_already_finished task_id wait_count db.task_events)

-- `finish_wait`: true when there is a decision point.
unfoldable pub finish_wait : ℕ → ℕ → ℕ → Action OrdersDb Bool
unfolding record_internal_event
finish_wait task_id wait_count now = transaction λ db. elim (get task_id db.tasks) [
  | none ↦ (ok false, db)
  | some task ↦
      if wait_ends db task task_id wait_count
      then (do
        record_internal_event task_id EventType.wait_finished now (wait_finished_details wait_count)
        pure true)
          db
      else (ok false, db)
]

-- `handle_dead_letter`, of a message that may name a task
unfoldable pub handle_dead_letter : Option ℕ → Option ℕ → ℕ → Action OrdersDb Bool
unfolding dead_letter_task record_internal_event
handle_dead_letter none message_id now = pure false
handle_dead_letter (some task_id) message_id now = transaction λ db. elim (get task_id db.tasks) [
  | none ↦ (ok false, db)
  | some task ↦
      (do
        changed ← dead_letter_task task_id now
        record_internal_event task_id EventType.message_dead_lettered now
            (dead_letter_details message_id changed)
        pure changed)
        db
]

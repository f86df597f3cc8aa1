-- ===== src/Orders/Invariant/DeadLetters.antt =====
-- What a dead letter of a known task does to its rows (dead_letters.py).
use rule2llm_orch_lab.Prelude.{
  ℕ, ◌+◌, ◌≡◌, Bool, false, Option, some, none, ◌∷◌, arith, Post, not, if◌then◌else◌,
}
use rule2llm_orch_lab.Prelude.Table.{get, get-update_self}
use rule2llm_orch_lab.Contract.Vocabulary.{
  EventType, EventSource, TaskStatus, OrderStatus, is_terminal, order_status_for,
}
use rule2llm_orch_lab.Contract.Envelope.{dead_letter_details}
use rule2llm_orch_lab.Orders.Db.{OrdersDb, OrderRow, TaskRow}
use rule2llm_orch_lab.Orders.Internal.{handle_dead_letter}
use rule2llm_orch_lab.Orders.Trajectory.{Entry, event_row, next_event_id}

-- The entry of a dead letter, which says whether the task was changed
abbrev pub dead_letter_entry : ℕ → Option ℕ → TaskRow → Bool → Entry
dead_letter_entry id message_id row changed = record {
  execution_id = row.execution_id;
  task_id = id;
  message_id = none;
  event_seq = row.current_event_seq + 1;
  event_type = EventType.message_dead_lettered;
  attempt_number = row.attempt_number;
  service = EventSource.orders;
  target = row.current_target;
  redelivered = false;
  published_at = none;
  payload = dead_letter_details message_id changed;
}

-- A live task ends as `DEAD_LETTERED` and its order as `FAILED`, an ended one keeps both; either way the
-- dead letter is recorded as the next event of the task.
abbrev pub DeadLettered :
    ℕ → Option ℕ → ℕ → OrdersDb → TaskRow → OrderRow → Bool → OrdersDb → Type 0
DeadLettered id message_id now db row order changed after =
    (changed ≡ not (is_terminal row.status))
    × (get id after.tasks
        ≡ some (record row {
          status = if is_terminal row.status then row.status else TaskStatus.dead_lettered;
          current_event_seq = row.current_event_seq + 1;
          updated_at = now;
        }))
    × (get id after.orders
        ≡ some (
            if is_terminal row.status
            then order
            else record order { status = OrderStatus.failed; updated_at = now }))
    × (after.task_events
        ≡ event_row (next_event_id db.task_events) now (dead_letter_entry id message_id row changed)
          ∷ db.task_events)

module _ (id now : ℕ) (db : OrdersDb) (row : TaskRow) (order : OrderRow) (message_id : Option ℕ)
    (found : get id db.tasks ≡ some row) (has_order : get id db.orders ≡ some order)
    (own : row.order_id ≡ id) where
  pub dead_letter-DeadLettered :
      Post
        (DeadLettered id message_id now db row order)
        (handle_dead_letter (some id) message_id now db)
  unfolding handle_dead_letter order_status_for
  dead_letter-DeadLettered = grind (arith, get-update_self)

-- ===== src/Orders/EventHandler.antt =====
-- `handle_inventory_event` of services/orders/app/orchestration/event_handler.py: one transaction
-- that deduplicates, numbers, records and applies an event of the Inventory.
use rule2llm_orch_lab.Prelude.{
  ℕ, Bool, true, false, Option, none, some, Action, ok, err, pure, raise, gets, transaction, ◌>>=◌,
  ◌>>◌, unsupported_event, no_row, contract_error, not, ◌==◌, ◌&&◌, ◌||◌, if◌then◌else◌,
}
use rule2llm_orch_lab.Prelude.Table.{get}
use rule2llm_orch_lab.Contract.Vocabulary.{
  EventType, EventSource, TaskResult, Target, is_fallback, is_terminal,
}
use rule2llm_orch_lab.Contract.Envelope.{MessageEnvelope, Payload, no_payload, reservation_failed}
use rule2llm_orch_lab.Orders.Db.{OrdersDb, EventRow}
use rule2llm_orch_lab.Orders.Trajectory.{
  advance_event_seq, record_message, record_internal_event, event_seq_of_message, latest_request,
}
use rule2llm_orch_lab.Orders.Repositories.{
  is_event_processed, insert_processed_event, complete_task, set_last_result,
}

-- `EventStatus`
pub data EventStatus : Type 0 where
  recorded duplicate unknown_task : EventStatus

-- `EventOutcome`
pub record EventOutcome : Type 0 where
  pub status : EventStatus
  pub event_seq : Option ℕ
  pub changed_state : Bool
  pub decision_required : Bool

abbrev pub outcome : EventStatus → Option ℕ → Bool → Bool → EventOutcome
outcome s seq changed required = record {
  status = s;
  event_seq = seq;
  changed_state = changed;
  decision_required = required;
}

-- `HANDLED_EVENTS`
abbrev pub is_handled : EventType → Bool
is_handled EventType.stock_reservation_succeeded = true
is_handled EventType.stock_reservation_failed = true
is_handled _ = false

abbrev pub is_success : EventType → Bool
is_success EventType.stock_reservation_succeeded = true
is_success _ = false

-- `_record_repeated`: the repeated delivery gets the number of the first one.
unfoldable pub record_repeated : MessageEnvelope → ℕ → Action OrdersDb (Unit {0})
unfolding record_message event_seq_of_message
record_repeated m now db = elim (event_seq_of_message m.message_id db.task_events) [
  | none ↦ (ok tt, db)
  | some seq ↦ record_message m seq EventSource.inventory now true db
]

-- `event.payload["failure_reason"]`
abbrev pub failure_reason : Payload → Option TaskResult
failure_reason (reservation_failed order route reason) = some reason
failure_reason _ = none

abbrev pub is_invalid : TaskResult → Bool
is_invalid TaskResult.invalid_data = true
is_invalid _ = false

-- D-15: on the fallback route a failure is `fallback_failed`; D-23: `invalid_data` stays.
unfoldable pub result_of_failure : Option Target → TaskResult → TaskResult
result_of_failure none reason = reason
result_of_failure (some t) reason =
    if is_fallback t && not (is_invalid reason) then TaskResult.fallback_failed else reason

-- `is_current` of `_register_failure`
abbrev pub is_current : MessageEnvelope → Option EventRow → Bool
is_current m none = false
is_current m (some request) = request.event_seq == m.event_seq

-- `_register_failure`: true when a decision point is to be opened.
unfoldable pub register_failure : MessageEnvelope → ℕ → Action OrdersDb Bool
unfolding latest_request result_of_failure set_last_result
register_failure m now db = elim (get m.task_id db.tasks) [
  | none ↦ (err no_row, db)
  | some task ↦
      if is_terminal task.status || not (is_current m (latest_request m.task_id db.task_events))
      then (ok false, db)
      else elim (failure_reason m.payload) [
        | none ↦ (err contract_error, db)
        | some reason ↦
            (do set_last_result m.task_id (result_of_failure m.target reason) now; pure true) db
      ]
]

unfoldable pub note_completion : Bool → ℕ → ℕ → Action OrdersDb (Unit {0})
unfolding record_internal_event
note_completion false task_id now = pure tt
note_completion true task_id now =
    record_internal_event task_id EventType.task_completed now no_payload >> pure tt

-- A success concludes the task.
unfoldable pub apply_success : ℕ → ℕ → ℕ → Action OrdersDb EventOutcome
unfolding complete_task note_completion
apply_success task_id event_seq now = do
  changed ← complete_task task_id now
  note_completion changed task_id now
  pure (outcome recorded (some event_seq) changed false)

-- A failure may ask for a decision.
unfoldable pub apply_failure : MessageEnvelope → ℕ → ℕ → Action OrdersDb EventOutcome
unfolding register_failure
apply_failure m event_seq now = do
  required ← register_failure m now
  pure (outcome recorded (some event_seq) false required)

unfoldable pub apply_event : MessageEnvelope → ℕ → ℕ → Action OrdersDb EventOutcome
apply_event m event_seq now =
    if is_success m.event_type
    then apply_success m.task_id event_seq now
    else apply_failure m event_seq now

-- An event that is not yet processed, of a task that may be unknown.
unfoldable pub record_new : MessageEnvelope → Bool → ℕ → Option ℕ → Action OrdersDb EventOutcome
unfolding insert_processed_event record_message
record_new m redelivered now none = pure (outcome unknown_task none false false)
record_new m redelivered now (some event_seq) = do
  insert_processed_event m now
  record_message m event_seq EventSource.inventory now redelivered
  apply_event m event_seq now

unfoldable pub handle_new : MessageEnvelope → Bool → ℕ → Action OrdersDb EventOutcome
unfolding advance_event_seq record_new
handle_new m redelivered now = do
  advanced ← advance_event_seq m.task_id now
  record_new m redelivered now advanced

-- The body of the transaction.
unfoldable pub receive : MessageEnvelope → Bool → ℕ → Action OrdersDb EventOutcome
unfolding is_event_processed
receive m redelivered now = do
  seen ← gets (λ db. is_event_processed db m.message_id)
  if seen
      then (record_repeated m now >> pure (outcome duplicate none false false))
      else handle_new m redelivered now

unfoldable pub handle_inventory_event : MessageEnvelope → Bool → ℕ → Action OrdersDb EventOutcome
handle_inventory_event m redelivered now =
    if not (is_handled m.event_type)
    then raise unsupported_event
    else transaction (receive m redelivered now)

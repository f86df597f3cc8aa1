-- ===== src/Orders/Trajectory.antt =====
-- The trajectory of a task (services/orders/app/db/trajectory.py): table `task_events`.
use rule2llm_orch_lab.Prelude.{
  ℕ, ◌+◌, Bool, true, false, Option, none, some, List, [], ◌∷◌, Action, ok, err, pure, gets,
  or_raise, ◌>>=◌, ◌>>◌, unknown_task, integrity_error, no_row, find, any, ◌==◌, not, ◌&&◌, ltb,
  if◌then◌else◌,
}
use rule2llm_orch_lab.Prelude.Table.{get}
use rule2llm_orch_lab.Contract.Vocabulary.{EventType, EventSource, Target}
use rule2llm_orch_lab.Contract.Envelope.{
  MessageEnvelope, Payload, timeout_details, wait_finished_details,
}
use rule2llm_orch_lab.Orders.Db.{OrdersDb, EventRow, update_task}

abbrev pub is_request : EventType → Bool
is_request EventType.stock_reservation_requested = true
is_request _ = false

-- `advance_event_seq`: none if there is no such task.
unfoldable pub advance_event_seq : ℕ → ℕ → Action OrdersDb (Option ℕ)
unfolding update_task
advance_event_seq task_id now = do
  updated ←
      update_task task_id (λ row. true)
        (λ row. record row { current_event_seq = row.current_event_seq + 1; updated_at = now })
  task ← gets (λ db. get task_id db.tasks)
  pure (if updated then elim task [ none ↦ none | some row ↦ some row.current_event_seq ] else none)

-- AUTOINCREMENT: rows are never deleted, so the newest row has the greatest `event_id`.
unfoldable pub next_event_id : List EventRow → ℕ
next_event_id [] = 1
next_event_id (e ∷ es) = e.event_id + 1

-- The values that `record_event` inserts, all but the `event_id`.
pub record Entry : Type 0 where
  pub execution_id : ℕ
  pub task_id : ℕ
  pub message_id : Option ℕ
  pub event_seq : ℕ
  pub event_type : EventType
  pub attempt_number : ℕ
  pub service : EventSource
  pub target : Option Target
  pub redelivered : Bool
  pub published_at : Option ℕ
  pub payload : Payload

abbrev pub event_row : ℕ → ℕ → Entry → EventRow
event_row event_id now e = record {
  event_id = event_id;
  execution_id = e.execution_id;
  task_id = e.task_id;
  message_id = e.message_id;
  event_seq = e.event_seq;
  event_type = e.event_type;
  attempt_number = e.attempt_number;
  service = e.service;
  target = e.target;
  redelivered = e.redelivered;
  published_at = e.published_at;
  recorded_at = now;
  payload = e.payload;
}

-- `record_event`; `task_id` REFERENCES `tasks`.
unfoldable pub record_event : Entry → ℕ → Action OrdersDb (Unit {0})
unfolding next_event_id
record_event e now db = elim (get e.task_id db.tasks) [
  | none ↦ (err integrity_error, db)
  | some row ↦ (
    ok tt,
    record db { task_events = event_row (next_event_id db.task_events) now e ∷ db.task_events },
  )
]

-- `record_message`
unfoldable pub record_message :
    MessageEnvelope → ℕ → EventSource → ℕ → Bool → Action OrdersDb (Unit {0})
unfolding record_event
record_message m event_seq service now redelivered =
    record_event
      (record {
        execution_id = m.execution_id;
        task_id = m.task_id;
        message_id = some m.message_id;
        event_seq = event_seq;
        event_type = m.event_type;
        attempt_number = m.attempt_number;
        service = service;
        target = m.target;
        redelivered = redelivered;
        published_at = some m.published_at;
        payload = m.payload;
      })
      now

-- `record_internal_event`: numbers the event and records it.
unfoldable pub record_internal_event : ℕ → EventType → ℕ → Payload → Action OrdersDb ℕ
unfolding advance_event_seq record_event
record_internal_event task_id event_type now payload = do
  advanced ← advance_event_seq task_id now
  event_seq ← or_raise unknown_task advanced
  found ← gets (λ db. get task_id db.tasks)
  task ← or_raise no_row found
  record_event
      (record {
        execution_id = task.execution_id;
        task_id = task_id;
        message_id = none;
        event_seq = event_seq;
        event_type = event_type;
        attempt_number = task.attempt_number;
        service = EventSource.orders;
        target = task.current_target;
        redelivered = false;
        published_at = none;
        payload = payload;
      })
      now
  pure event_seq

abbrev pub has_message : ℕ → EventRow → Bool
has_message message_id e = elim e.message_id [ none ↦ false | some m ↦ m == message_id ]

-- `event_seq_of_message`: the oldest row of the message that is no redelivery.
unfoldable pub event_seq_of_message : ℕ → List EventRow → Option ℕ
event_seq_of_message message_id [] = none
event_seq_of_message message_id (e ∷ es) = elim (event_seq_of_message message_id es) [
  | some seq ↦ some seq
  | none ↦ if has_message message_id e && not e.redelivered then some e.event_seq else none
]

abbrev pub is_request_of : ℕ → EventRow → Bool
is_request_of task_id e = e.task_id == task_id && is_request e.event_type && not e.redelivered

-- `latest_request`
unfoldable pub latest_request : ℕ → List EventRow → Option EventRow
latest_request task_id events = find (is_request_of task_id) events

abbrev pub is_inventory : EventSource → Bool
is_inventory EventSource.orders = false
is_inventory EventSource.inventory = true

-- `is_awaiting_reply`: the request is the latest of the task and nothing came from the Inventory
-- after it.
unfoldable pub is_awaiting_reply : ℕ → ℕ → List EventRow → Bool
unfolding latest_request
is_awaiting_reply task_id request_message_id events = elim (latest_request task_id events) [
  | none ↦ false
  | some request ↦
      has_message request_message_id request
      && not (
          any
            (λ e. e.task_id == task_id && is_inventory e.service && ltb request.event_id e.event_id)
            events)
]

abbrev pub is_timeout_of : ℕ → EventRow → Bool
is_timeout_of request_message_id e = elim e.event_type [
  | EventType.inventory_timeout ↦ elim e.payload [
    | timeout_details request last_result ↦ request == request_message_id
    | _ ↦ false
  ]
  | _ ↦ false
]

-- `timeout_registered`
unfoldable pub timeout_registered : ℕ → ℕ → List EventRow → Bool
timeout_registered task_id request_message_id events =
    any (λ e. e.task_id == task_id && is_timeout_of request_message_id e) events

abbrev pub ends_wait : ℕ → EventRow → Bool
ends_wait wait_count e = elim e.event_type [
  | EventType.wait_finished ↦ elim e.payload [
    | wait_finished_details n ↦ n == wait_count
    | _ ↦ false
  ]
  | _ ↦ false
]

-- The query `already_finished` of `finish_wait`
unfoldable pub wait_already_finished : ℕ → ℕ → List EventRow → Bool
wait_already_finished task_id wait_count events =
    any (λ e. e.task_id == task_id && ends_wait wait_count e) events

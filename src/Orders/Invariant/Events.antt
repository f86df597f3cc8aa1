-- ===== src/Orders/Invariant/Events.antt =====
-- The invariant of a task under `handle_inventory_event` (event_handler.py).
use rule2llm_orch_lab.Prelude.{
  ℕ, ◌+◌, ◌<◌, ◌≡◌, refl, inl, inr, Bool, true, false, Option, none, some, List, [], ◌∷◌, arith,
  Post, Post-transaction, pure, ◌>>◌, Option-cases, Bool-cases,
}
use rule2llm_orch_lab.Prelude.Table.{get, update, insert, get-update_self}
use rule2llm_orch_lab.Contract.Vocabulary.{EventSource, EventType, TaskResult, order_status_for}
use rule2llm_orch_lab.Contract.Config.{MessagingConfig}
use rule2llm_orch_lab.Contract.Envelope.{
  MessageEnvelope, Payload, reservation_failed, validate_payload, is_failure_reason, is_message,
}
use rule2llm_orch_lab.Orders.Db.{OrdersDb, OrderRow, TaskRow, EventRow}
use rule2llm_orch_lab.Orders.Trajectory.{
  event_row, next_event_id, latest_request, event_seq_of_message,
}
use rule2llm_orch_lab.Orders.EventHandler.{
  EventOutcome, EventStatus, outcome, is_handled, is_success, apply_success, apply_failure,
  apply_event, failure_reason, record_repeated, receive, handle_new, handle_inventory_event,
}
use rule2llm_orch_lab.Orders.Invariant.{
  Counted, RowSound, IsSound, IsReady, row_budget, budget, created,
}

event_seq_of_message-pos :
    (message_id : ℕ) (es : List EventRow) (seq : ℕ)
    → Counted es
    → event_seq_of_message message_id es ≡ some seq
    → 0 < seq
unfolding event_seq_of_message
event_seq_of_message-pos message_id [] seq h e = cc
event_seq_of_message-pos message_id (x ∷ es) seq h e =
    ground (arith, event_seq_of_message-pos message_id es seq)

-- A reply names the target of the request that it answers.
abbrev pub Echoes : MessageEnvelope → Option EventRow → Type 0
Echoes m none = Unit
Echoes m (some request) = request.event_seq ≡ m.event_seq → m.target ≡ request.target

-- The task stays sound with the budget that it had, and is ready if a decision is required.
abbrev pub Handled : MessagingConfig → ℕ → TaskRow → EventOutcome → OrdersDb → Type 0
Handled c id row out after =
    IsSound c after id
    × (budget c (get id after.tasks) ≡ row_budget c row)
    × (created (get id after.tasks) ≡ row.created_at)
    × (out.decision_required ≡ true → IsReady after id)

module _ (c : MessagingConfig) (m : MessageEnvelope) (seq now : ℕ) (db : OrdersDb) (row : TaskRow)
    (order : OrderRow) (found : get m.task_id db.tasks ≡ some row)
    (has_order : get m.task_id db.orders ≡ some order)
    (sound : RowSound c m.task_id row order (latest_request m.task_id db.task_events))
    (counted : Counted db.task_events) where
  apply_success-Handled : Post (Handled c m.task_id row) (apply_success m.task_id seq now db)
  unfolding apply_success latest_request order_status_for
  apply_success-Handled = grind (arith, get-update_self)

  apply_failure-Handled :
      (reason : TaskResult)
      → failure_reason m.payload ≡ some reason
      → is_failure_reason reason ≡ true
      → Echoes m (latest_request m.task_id db.task_events)
      → Post (Handled c m.task_id row) (apply_failure m seq now db)
  unfolding apply_failure latest_request
  apply_failure-Handled reason known fits echo = grind (arith, get-update_self)

-- The database once a new event is numbered and recorded, before it is applied.
abbrev pub with_event : MessageEnvelope → Bool → ℕ → ℕ → OrdersDb → OrdersDb
with_event m redelivered now seq db = record {
  orders = db.orders;
  tasks =
      update m.task_id
        (λ row. record row { current_event_seq = row.current_event_seq + 1; updated_at = now })
        db.tasks;
  processed_events =
      insert m.message_id
        (record { task_id = m.task_id; event_type = m.event_type; processed_at = now })
        db.processed_events;
  task_events =
      event_row (next_event_id db.task_events) now (record {
        execution_id = m.execution_id;
        task_id = m.task_id;
        message_id = some m.message_id;
        event_seq = seq;
        event_type = m.event_type;
        attempt_number = m.attempt_number;
        service = EventSource.inventory;
        target = m.target;
        redelivered = redelivered;
        published_at = some m.published_at;
        payload = m.payload;
      })
      ∷ db.task_events;
}

module _ (m : MessageEnvelope) (redelivered : Bool) (now : ℕ) (db : OrdersDb) (row : TaskRow)
    (found : get m.task_id db.tasks ≡ some row)
    (fresh : get m.message_id db.processed_events ≡ none) where
  pub handle_new_lem :
      handle_new m redelivered now db
      ≡ apply_event m
          (row.current_event_seq + 1)
          now
          (with_event m redelivered now (row.current_event_seq + 1) db)
  unfolding handle_new
  handle_new_lem = grind (arith, get-update_self)

-- A reply is no request.
latest_request-with_event :
    (m : MessageEnvelope) (redelivered : Bool) (now seq : ℕ) (db : OrdersDb)
    → is_handled m.event_type ≡ true
    → latest_request m.task_id (with_event m redelivered now seq db).task_events
      ≡ latest_request m.task_id db.task_events
unfolding latest_request
latest_request-with_event m redelivered now seq db h = ground arith

attempt_of_message : (m : MessageEnvelope) → is_message m ≡ true → 0 < m.attempt_number
unfolding is_message
attempt_of_message m k = ground arith

failure_of_payload :
    (t : EventType) (p : Payload)
    → is_handled t ≡ true
    → validate_payload t p ≡ true
    → is_success t ≡ false
    → (reason : TaskResult) × (failure_reason p ≡ some reason) × (is_failure_reason reason ≡ true)
unfolding validate_payload
failure_of_payload EventType.stock_reservation_failed (reservation_failed order route reason) h k
      f =
    (reason, refl, k)
failure_of_payload EventType.stock_reservation_failed _ h k f = cc
failure_of_payload _ p h k f = cc

failure_of_message :
    (m : MessageEnvelope)
    → is_handled m.event_type ≡ true
    → is_message m ≡ true
    → is_success m.event_type ≡ false
    → (reason : TaskResult) × (failure_reason m.payload ≡ some reason)
      × (is_failure_reason reason ≡ true)
unfolding is_message
failure_of_message m h k f = failure_of_payload m.event_type m.payload h (ground arith) f

module _ (c : MessagingConfig) (m : MessageEnvelope) (redelivered : Bool) (now : ℕ) (db : OrdersDb)
    (row : TaskRow) (order : OrderRow) (found : get m.task_id db.tasks ≡ some row)
    (has_order : get m.task_id db.orders ≡ some order)
    (sound : RowSound c m.task_id row order (latest_request m.task_id db.task_events))
    (counted : Counted db.task_events) (handled : is_handled m.event_type ≡ true)
    (message : is_message m ≡ true)
    (echo : Echoes m (latest_request m.task_id db.task_events)) where
  abbrev next_row : TaskRow
  next_row = record row { current_event_seq = row.current_event_seq + 1; updated_at = now }

  abbrev db_with_event : OrdersDb
  db_with_event = with_event m redelivered now (row.current_event_seq + 1) db

  next_row-RowSound :
      RowSound c m.task_id next_row order (latest_request m.task_id db_with_event.task_events)
  next_row-RowSound =
      rw (latest_request-with_event m redelivered now (row.current_event_seq + 1) db handled)
        (ground arith)

  next_row_found : get m.task_id db_with_event.tasks ≡ some next_row
  next_row_found = rw (get-update_self, found)

  Counted-with_event : Counted db_with_event.task_events
  Counted-with_event = unfold is_message in ground arith

  handle_new-Handled :
      get m.message_id db.processed_events ≡ none
      → Post (Handled c m.task_id row) (handle_new m redelivered now db)
  handle_new-Handled fresh =
      rw (handle_new_lem m redelivered now db row found fresh)
        (elim (Bool-cases (is_success m.event_type)) [
          | inl good ↦
              unfold apply_event in
              rw good (
                apply_success-Handled c m (row.current_event_seq + 1) now db_with_event next_row
                  order next_row_found has_order next_row-RowSound Counted-with_event)
          | inr bad ↦
              let (reason, known, fits) = failure_of_message m handled message bad in
              unfold apply_event in
              rw bad (
                apply_failure-Handled c m (row.current_event_seq + 1) now db_with_event next_row
                  order next_row_found has_order next_row-RowSound Counted-with_event reason known
                  fits
                  (rw
                    (latest_request-with_event m redelivered now (row.current_event_seq + 1) db
                      handled)
                    echo))
        ])

  -- A repeated delivery only adds a row to the trajectory.
  repeated-Handled :
      (seq : Option ℕ)
      → event_seq_of_message m.message_id db.task_events ≡ seq
      → Post
          (Handled c m.task_id row)
          ((record_repeated m now >> pure (outcome EventStatus.duplicate none false false)) db)
  unfolding record_repeated latest_request
  repeated-Handled none e = ground arith
  repeated-Handled (some seq) e = ground (
    arith,
    attempt_of_message m message,
    event_seq_of_message-pos m.message_id db.task_events seq counted e,
  )

  receive-Handled : Post (Handled c m.task_id row) (receive m redelivered now db)
  unfolding receive
  receive-Handled = elim (Option-cases (get m.message_id db.processed_events)) [
    | inl fresh ↦ rw fresh (handle_new-Handled fresh)
    | inr (p, seen) ↦
        rw seen (repeated-Handled (event_seq_of_message m.message_id db.task_events) refl)
  ]

  -- An event of a known task that is in the contract, and names the target of the request that it
  -- answers, is handled without a raise: the task stays sound with the budget that it had, and if a
  -- decision is required the task is ready for one.
  pub handle_event-Handled :
      Post (Handled c m.task_id row) (handle_inventory_event m redelivered now db)
  unfolding handle_inventory_event
  handle_event-Handled =
      rw handled
        (Post-transaction (Handled c m.task_id row) (receive m redelivered now) db receive-Handled)

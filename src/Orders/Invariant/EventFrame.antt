-- ===== src/Orders/Invariant/EventFrame.antt =====
-- What `handle_inventory_event` does to the other tasks (event_handler.py).
use rule2llm_orch_lab.Prelude.{
  ℕ, ◌+◌, ◌≡◌, ◌≢◌, inl, inr, Bool, true, false, none, some, Option-cases, Bool-cases, pure, ◌>>◌,
}
use rule2llm_orch_lab.Prelude.Table.{get, get-update_self}
use rule2llm_orch_lab.Contract.Envelope.{MessageEnvelope}
use rule2llm_orch_lab.Orders.Db.{OrdersDb, TaskRow}
use rule2llm_orch_lab.Orders.Trajectory.{latest_request}
use rule2llm_orch_lab.Orders.EventHandler.{
  outcome, EventStatus, is_success, is_handled, apply_success, apply_failure, apply_event,
  record_repeated, receive, handle_inventory_event,
}
use rule2llm_orch_lab.Orders.Invariant.Events.{with_event, handle_new_lem}
use rule2llm_orch_lab.Orders.Invariant.Frame.{Frame, Frame-trans, Frame-settle, frame_rules}

module _ (id seq now : ℕ) (db : OrdersDb) (row : TaskRow) (found : get id db.tasks ≡ some row)
    (own : row.order_id ≡ id) (j : ℕ) (other : j ≢ id) where
  apply_success-Frame : Frame j db (apply_success id seq now db).1
  unfolding apply_success latest_request
  apply_success-Frame = grind frame_rules

apply_failure-Frame :
    (m : MessageEnvelope) (seq now : ℕ) (db : OrdersDb) (j : ℕ)
    → j ≢ m.task_id
    → Frame j db (apply_failure m seq now db).1
unfolding apply_failure
apply_failure-Frame m seq now db j other = grind frame_rules

with_event-Frame :
    (m : MessageEnvelope) (redelivered : Bool) (now seq : ℕ) (db : OrdersDb) (j : ℕ)
    → j ≢ m.task_id
    → Frame j db (with_event m redelivered now seq db)
unfolding latest_request
with_event-Frame m redelivered now seq db j other = grind frame_rules

repeated-Frame :
    (m : MessageEnvelope) (now : ℕ) (db : OrdersDb) (j : ℕ)
    → j ≢ m.task_id
    → Frame j db
        ((record_repeated m now >> pure (outcome EventStatus.duplicate none false false)) db).1
unfolding record_repeated latest_request
repeated-Frame m now db j other = grind frame_rules

module _ (m : MessageEnvelope) (redelivered : Bool) (now : ℕ) (db : OrdersDb) (row : TaskRow)
    (found : get m.task_id db.tasks ≡ some row) (own : row.order_id ≡ m.task_id) (j : ℕ)
    (other : j ≢ m.task_id) where
  abbrev seq : ℕ
  seq = row.current_event_seq + 1

  abbrev recorded_db : OrdersDb
  recorded_db = with_event m redelivered now seq db

  apply_event-Frame : Frame j recorded_db (apply_event m seq now recorded_db).1
  unfolding apply_event
  apply_event-Frame = elim (Bool-cases (is_success m.event_type)) [
    | inl good ↦ rw good (
        apply_success-Frame m.task_id seq now recorded_db
          (record row { current_event_seq = seq; updated_at = now }) (rw (get-update_self, found))
          own j other)
    | inr bad ↦ rw bad (apply_failure-Frame m seq now recorded_db j other)
  ]

  receive-Frame : Frame j db (receive m redelivered now db).1
  unfolding receive
  receive-Frame = elim (Option-cases (get m.message_id db.processed_events)) [
    | inl fresh ↦ rw fresh (
        rw (handle_new_lem m redelivered now db row found fresh) (
          Frame-trans j db recorded_db (apply_event m seq now recorded_db).1
            (with_event-Frame m redelivered now seq db j other) apply_event-Frame))
    | inr (p, seen) ↦ rw seen (repeated-Frame m now db j other)
  ]

  -- An event that is handled leaves every task but its own alone.
  pub handle_event-Frame :
      is_handled m.event_type ≡ true → Frame j db (handle_inventory_event m redelivered now db).1
  unfolding handle_inventory_event
  handle_event-Frame handled =
      rw handled (Frame-settle j db (receive m redelivered now db) receive-Frame)

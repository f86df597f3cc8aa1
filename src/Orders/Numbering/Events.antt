-- ===== src/Orders/Numbering/Events.antt =====
-- The numbering under an event of the Inventory (event_handler.py).
use rule2llm_orch_lab.Prelude.{
  ℕ, ◌≡◌, inl, inr, Bool, true, false, Option, none, some, List, [], ◌∷◌, arith, Keeps, Keeps-bind,
  pure, Bool-cases, ◌>>◌,
}
use rule2llm_orch_lab.Prelude.Table.{get, get-update}
use rule2llm_orch_lab.Contract.Vocabulary.{EventType, Target}
use rule2llm_orch_lab.Contract.Envelope.{MessageEnvelope, no_payload}
use rule2llm_orch_lab.Orders.Db.{OrdersDb, EventRow}
use rule2llm_orch_lab.Orders.Trajectory.{record_internal_event, event_seq_of_message, has_message}
use rule2llm_orch_lab.Orders.Repositories.{is_event_processed, complete_task}
use rule2llm_orch_lab.Orders.EventHandler.{
  handle_inventory_event, receive, handle_new, record_new, apply_event, apply_success,
  apply_failure, register_failure, record_repeated, note_completion, EventStatus, outcome,
  is_success,
}
use rule2llm_orch_lab.Orders.Numbering.{first_seq, Numbered, seq_of, Traced, Recorded}
use rule2llm_orch_lab.Orders.Numbering.Handlers.{internal-Traced, internal-Recorded}

-- Every row of message `k` belongs to task `id`.
unfoldable pub Owned : ℕ → ℕ → List EventRow → Type 0
Owned id k [] = Unit
Owned id k (e ∷ es) = (has_message k e ≡ true → e.task_id ≡ id) × Owned id k es

-- The number that a redelivery gets is that of the first row of its message.
first_seq-event_seq_of_message :
    (id k : ℕ) (es : List EventRow) (seq : ℕ)
    → Numbered id es
    → Owned id k es
    → event_seq_of_message k es ≡ some seq
    → first_seq id k es ≡ some seq
unfolding Numbered Owned event_seq_of_message
first_seq-event_seq_of_message id k [] seq n o h = cc
first_seq-event_seq_of_message id k (e ∷ es) seq n o h =
    ground (arith, first_seq-event_seq_of_message id k es seq n.1 o.1)

-- The tasks keep their numbers, and nothing is recorded.
abbrev pub SameNumbers : ℕ → OrdersDb → OrdersDb → Type 0
SameNumbers j db after =
    (after.task_events ≡ db.task_events)
    × (seq_of (get j after.tasks) ≡ seq_of (get j db.tasks))
    × (get j db.tasks ≡ none → get j after.tasks ≡ none)

pub SameNumbers-Traced :
    (j : ℕ) (db after : OrdersDb) → SameNumbers j db after → Traced j db → Traced j after
SameNumbers-Traced j db after h traced =
    rw (h.0, h.1) (traced.0, traced.1, λ some_row. traced.2 (λ e. some_row (h.2 e)))

module _ (j : ℕ) where
  complete-SameNumbers : (id now : ℕ) (db : OrdersDb) → SameNumbers j db (complete_task id now db).1
  unfolding complete_task
  complete-SameNumbers id now db = grind (arith, get-update)

  register-SameNumbers :
      (m : MessageEnvelope) (now : ℕ) (db : OrdersDb)
      → SameNumbers j db (register_failure m now db).1
  unfolding register_failure
  register-SameNumbers m now db = grind (arith, get-update)

  note-Traced : (changed : Bool) (id now : ℕ) → Keeps (Traced j) (note_completion changed id now)
  unfolding note_completion
  note-Traced false id now db traced = traced
  note-Traced true id now db traced =
      Keeps-bind (Traced j) (record_internal_event id EventType.task_completed now no_payload)
        (λ _. pure tt) (λ t h. internal-Traced id EventType.task_completed now no_payload t j h)
        (λ _ t h. h) db traced

  success-Traced : (id event_seq now : ℕ) → Keeps (Traced j) (apply_success id event_seq now)
  unfolding apply_success
  success-Traced id event_seq now =
      Keeps-bind (Traced j) (complete_task id now)
        (λ changed.
          note_completion changed id now
          >> pure (outcome EventStatus.recorded (some event_seq) changed false))
        (λ t h. SameNumbers-Traced j t (complete_task id now t).1 (complete-SameNumbers id now t) h)
        (λ changed.
          Keeps-bind (Traced j) (note_completion changed id now)
            (λ _. pure (outcome EventStatus.recorded (some event_seq) changed false))
            (note-Traced changed id now) (λ _ t h. h))

  failure-Traced :
      (m : MessageEnvelope) (event_seq now : ℕ) → Keeps (Traced j) (apply_failure m event_seq now)
  unfolding apply_failure
  failure-Traced m event_seq now =
      Keeps-bind (Traced j) (register_failure m now)
        (λ required. pure (outcome EventStatus.recorded (some event_seq) false required))
        (λ t h.
          SameNumbers-Traced j t (register_failure m now t).1 (register-SameNumbers m now t) h)
        (λ required t h. h)

  apply-Traced :
      (m : MessageEnvelope) (event_seq now : ℕ) → Keeps (Traced j) (apply_event m event_seq now)
  unfolding apply_event
  apply-Traced m event_seq now db traced = elim (Bool-cases (is_success m.event_type)) [
    | inl e ↦ rw e (success-Traced m.task_id event_seq now db traced)
    | inr e ↦ rw e (failure-Traced m event_seq now db traced)
  ]

  repeated-Traced :
      (m : MessageEnvelope) (now : ℕ) (db : OrdersDb)
      → Traced j db
      → Owned m.task_id m.message_id db.task_events
      → Traced j (record_repeated m now db).1
  unfolding record_repeated Numbered
  repeated-Traced m now db traced owned =
      grind (arith, first_seq-event_seq_of_message m.task_id m.message_id db.task_events)

  new-Traced :
      (m : MessageEnvelope) (redelivered : Bool) (now : ℕ) (db : OrdersDb)
      → Traced j db
      → is_event_processed db m.message_id ≡ false
      → first_seq m.task_id m.message_id db.task_events ≡ none
      → Traced j (handle_new m redelivered now db).1
  unfolding handle_new record_new is_event_processed Numbered
  new-Traced m redelivered now db traced new fresh = grind (arith, get-update, apply-Traced m)

  -- An event in the hands of the Orders keeps the numbering of every task.
  pub event-Traced :
      (m : MessageEnvelope) (redelivered : Bool) (now : ℕ) (db : OrdersDb)
      → Traced j db
      → Owned m.task_id m.message_id db.task_events
      → (is_event_processed db m.message_id ≡ false
          → first_seq m.task_id m.message_id db.task_events ≡ none)
      → Traced j (handle_inventory_event m redelivered now db).1
  unfolding handle_inventory_event receive
  event-Traced m redelivered now db traced owned fresh =
      grind (arith, new-Traced m redelivered now db, repeated-Traced m now db)

-- What is on record stays on record.
module _ (j seq : ℕ) (target : Option Target) where
  abbrev Kept : OrdersDb → Type 0
  Kept db = Recorded j seq target db.task_events

  Kept-SameNumbers : (db after : OrdersDb) → SameNumbers j db after → Kept db → Kept after
  Kept-SameNumbers db after h kept = rw h.0 kept

  note-Kept : (changed : Bool) (id now : ℕ) → Keeps Kept (note_completion changed id now)
  unfolding note_completion
  note-Kept false id now db kept = kept
  note-Kept true id now db kept =
      Keeps-bind Kept (record_internal_event id EventType.task_completed now no_payload)
        (λ _. pure tt)
        (λ t h. internal-Recorded id EventType.task_completed now no_payload t j seq target h)
        (λ _ t h. h) db kept

  apply-Kept : (m : MessageEnvelope) (event_seq now : ℕ) → Keeps Kept (apply_event m event_seq now)
  unfolding apply_event apply_success apply_failure
  apply-Kept m event_seq now db kept = elim (Bool-cases (is_success m.event_type)) [
    | inl e ↦ rw e (
        Keeps-bind Kept (complete_task m.task_id now)
          (λ changed.
            note_completion changed m.task_id now
            >> pure (outcome EventStatus.recorded (some event_seq) changed false))
          (λ t h.
            Kept-SameNumbers t (complete_task m.task_id now t).1
              (complete-SameNumbers j m.task_id now t) h)
          (λ changed.
            Keeps-bind Kept (note_completion changed m.task_id now)
              (λ _. pure (outcome EventStatus.recorded (some event_seq) changed false))
              (note-Kept changed m.task_id now) (λ _ t h. h))
          db kept)
    | inr e ↦ rw e (
        Keeps-bind Kept (register_failure m now)
          (λ required. pure (outcome EventStatus.recorded (some event_seq) false required))
          (λ t h.
            Kept-SameNumbers t (register_failure m now t).1 (register-SameNumbers j m now t) h)
          (λ required t h. h) db kept)
  ]

  pub event-Kept :
      (m : MessageEnvelope) (redelivered : Bool) (now : ℕ)
      → Keeps Kept (handle_inventory_event m redelivered now)
  unfolding handle_inventory_event receive handle_new record_new record_repeated Recorded
  event-Kept m redelivered now db kept = grind (arith, apply-Kept m)

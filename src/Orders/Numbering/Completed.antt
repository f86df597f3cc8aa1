-- ===== src/Orders/Numbering/Completed.antt =====
-- Which task the internal tasks, a new order and an event of the Inventory complete.
use rule2llm_orch_lab.Prelude.{
  ℕ, ◌≡◌, refl, inl, inr, Bool, true, false, Option, none, some, List, arith, Keeps,
}
use rule2llm_orch_lab.Prelude.Table.{get, get-update}
use rule2llm_orch_lab.Contract.Vocabulary.{EventType, TaskStatus, TaskResult}
use rule2llm_orch_lab.Contract.Envelope.{MessageEnvelope}
use rule2llm_orch_lab.Orders.Db.{OrdersDb, TaskRow}
use rule2llm_orch_lab.Orders.Numbering.Quiet.{is_completed}
use rule2llm_orch_lab.Orders.Trajectory.{record_internal_event}
use rule2llm_orch_lab.Contract.Envelope.{Item, no_payload}
use rule2llm_orch_lab.Orders.Repositories.{
  set_last_result, complete_task, create_order_with_task, finish_task, dead_letter_task,
  next_order_number,
}
use rule2llm_orch_lab.Prelude.Table.{get-insert_self, get-insert_ne}
use rule2llm_orch_lab.Contract.Envelope.{dead_letter_details}
use rule2llm_orch_lab.Prelude.{
  sym, ◌∙◌, Keeps-bind, Keeps-settle, pure, ◌>>=◌, ◌>>◌, Option-cases, Bool-cases,
}
use rule2llm_orch_lab.Orders.Internal.{register_timeout, finish_wait, handle_dead_letter}
use rule2llm_orch_lab.Orders.EventHandler.{
  handle_inventory_event, receive, handle_new, record_new, apply_event, apply_success,
  apply_failure, register_failure, record_repeated, note_completion, EventStatus, outcome,
  is_success,
}
use rule2llm_orch_lab.Orders.Numbering.Decided.{CompletedIf, internal-CompletedIf}

module _ (P : Type 0) (j : ℕ) where
  pub timeout-CompletedIf :
      (id request now : ℕ) → Keeps (CompletedIf P j) (register_timeout id request now)
  unfolding register_timeout
  timeout-CompletedIf id request now db h = grind (arith, get-update)

  pub wait-CompletedIf :
      (id wait_count now : ℕ) → Keeps (CompletedIf P j) (finish_wait id wait_count now)
  unfolding finish_wait
  wait-CompletedIf id wait_count now db h = grind (arith, get-update)

  pub create-CompletedIf :
      (execution_id now : ℕ) (items : List Item) (db : OrdersDb)
      → get (next_order_number db.orders) db.tasks ≡ none
      → CompletedIf P j db
      → CompletedIf P j (create_order_with_task execution_id items now db).1
  unfolding create_order_with_task
  create-CompletedIf execution_id now items db free h =
      grind (arith, get-insert_self, get-insert_ne)

  finish-CompletedIf :
      (id now : ℕ) → Keeps (CompletedIf P j) (finish_task id TaskStatus.dead_lettered now)
  unfolding finish_task
  finish-CompletedIf id now db h = grind (arith, get-update)

  pub dead_letter-CompletedIf :
      (id : ℕ) (message_id : Option ℕ) (now : ℕ)
      → Keeps (CompletedIf P j) (handle_dead_letter (some id) message_id now)
  unfolding handle_dead_letter dead_letter_task
  dead_letter-CompletedIf id message_id now db h = elim (Option-cases (get id db.tasks)) [
    | inl e ↦ rw e h
    | inr (row, e) ↦ rw e (
        Keeps-settle (CompletedIf P j)
          ((dead_letter_task id now >>= λ changed.
              record_internal_event id EventType.message_dead_lettered now
                (dead_letter_details message_id changed)
              >> pure changed)
            db)
          db h
          (Keeps-bind (CompletedIf P j) (dead_letter_task id now)
            (λ changed.
              record_internal_event id EventType.message_dead_lettered now
                (dead_letter_details message_id changed)
              >> pure changed)
            (finish-CompletedIf id now)
            (λ changed.
              Keeps-bind (CompletedIf P j)
                (record_internal_event id EventType.message_dead_lettered now
                  (dead_letter_details message_id changed))
                (λ _. pure changed)
                (internal-CompletedIf P j id EventType.message_dead_lettered now
                  (dead_letter_details message_id changed))
                (λ _ t r. r))
            db h))
  ]

  -- A success completes its own task, and a failure completes none.
  module _ (m : MessageEnvelope) (now : ℕ)
      (allowed : is_success m.event_type ≡ true → j ≡ m.task_id → P) where
    complete-CompletedIf :
        is_success m.event_type ≡ true → Keeps (CompletedIf P j) (complete_task m.task_id now)
    unfolding complete_task
    complete-CompletedIf success db h =
        let held : j ≡ m.task_id → P = allowed success in grind (arith, get-update)

    note-CompletedIf :
        (changed : Bool) → Keeps (CompletedIf P j) (note_completion changed m.task_id now)
    unfolding note_completion
    note-CompletedIf false = λ db h. h
    note-CompletedIf true =
        Keeps-bind (CompletedIf P j)
          (record_internal_event m.task_id EventType.task_completed now no_payload) (λ _. pure tt)
          (internal-CompletedIf P j m.task_id EventType.task_completed now no_payload) (λ _ t r. r)

    success-CompletedIf :
        is_success m.event_type ≡ true
        → (event_seq : ℕ) → Keeps (CompletedIf P j) (apply_success m.task_id event_seq now)
    unfolding apply_success
    success-CompletedIf success event_seq =
        Keeps-bind (CompletedIf P j) (complete_task m.task_id now)
          (λ changed.
            note_completion changed m.task_id now
            >> pure (outcome EventStatus.recorded (some event_seq) changed false))
          (complete-CompletedIf success)
          (λ changed.
            Keeps-bind (CompletedIf P j) (note_completion changed m.task_id now)
              (λ _. pure (outcome EventStatus.recorded (some event_seq) changed false))
              (note-CompletedIf changed) (λ _ t r. r))

    set-completed :
        (result : TaskResult) (db : OrdersDb)
        → is_completed (get j (set_last_result m.task_id result now db).1.tasks)
          ≡ is_completed (get j db.tasks)
    unfolding set_last_result
    set-completed result db = grind (arith, get-update)

    register-completed :
        (db : OrdersDb)
        → is_completed (get j (register_failure m now db).1.tasks) ≡ is_completed (get j db.tasks)
    unfolding register_failure
    register-completed db = go (get m.task_id db.tasks) refl
      where
        go :
            (t : Option TaskRow)
            → get m.task_id db.tasks ≡ t
            → is_completed (get j (register_failure m now db).1.tasks)
              ≡ is_completed (get j db.tasks)
        go none e = rw (register_failure, e) refl
        go (some row) e = rw (register_failure, e) (grind (arith, get-update))

    register-CompletedIf : Keeps (CompletedIf P j) (register_failure m now)
    register-CompletedIf db h done = h (sym (register-completed db) ∙ done)

    failure-CompletedIf : (event_seq : ℕ) → Keeps (CompletedIf P j) (apply_failure m event_seq now)
    unfolding apply_failure
    failure-CompletedIf event_seq =
        Keeps-bind (CompletedIf P j) (register_failure m now)
          (λ required. pure (outcome EventStatus.recorded (some event_seq) false required))
          register-CompletedIf (λ required t r. r)

    apply-CompletedIf : (event_seq : ℕ) → Keeps (CompletedIf P j) (apply_event m event_seq now)
    unfolding apply_event
    apply-CompletedIf event_seq db h = elim (Bool-cases (is_success m.event_type)) [
      | inl e ↦ rw e (success-CompletedIf e event_seq db h)
      | inr e ↦ rw e (failure-CompletedIf event_seq db h)
    ]

    pub event-CompletedIf :
        (redelivered : Bool) → Keeps (CompletedIf P j) (handle_inventory_event m redelivered now)
    unfolding handle_inventory_event receive handle_new record_new record_repeated
    event-CompletedIf redelivered db h = grind (arith, get-update, apply-CompletedIf)

-- ===== src/Orders/Numbering/Handlers.antt =====
-- The numbering under the internal tasks, a new order and an event of the Inventory.
use rule2llm_orch_lab.Prelude.{
  ℕ, ◌≡◌, inl, inr, Option, none, some, List, arith, Option-cases, Keeps-bind, Keeps-settle, ◌>>=◌,
  ◌>>◌, pure,
}
use rule2llm_orch_lab.Prelude.Table.{get, get-update, get-insert_self, get-insert_ne}
use rule2llm_orch_lab.Contract.Vocabulary.{EventType, Target, TaskStatus}
use rule2llm_orch_lab.Orders.Db.{OrdersDb}
use rule2llm_orch_lab.Contract.Envelope.{Item, Payload, dead_letter_details}
use rule2llm_orch_lab.Orders.Trajectory.{record_internal_event}
use rule2llm_orch_lab.Orders.Repositories.{
  finish_task, dead_letter_task, create_order_with_task, next_order_number,
}
use rule2llm_orch_lab.Orders.Internal.{register_timeout, finish_wait, handle_dead_letter}
use rule2llm_orch_lab.Orders.Numbering.{Numbered, Traced, Recorded}

pub internal-Traced :
    (id : ℕ) (event_type : EventType) (now : ℕ) (details : Payload) (db : OrdersDb) (j : ℕ)
    → Traced j db
    → Traced j (record_internal_event id event_type now details db).1
unfolding record_internal_event Numbered
internal-Traced id event_type now details db j traced = grind (arith, get-update)

pub internal-Recorded :
    (id : ℕ) (event_type : EventType) (now : ℕ) (details : Payload) (db : OrdersDb) (j seq : ℕ)
    (target : Option Target)
    → Recorded j seq target db.task_events
    → Recorded j seq target (record_internal_event id event_type now details db).1.task_events
unfolding record_internal_event Recorded
internal-Recorded id event_type now details db j seq target recorded = grind arith

finish-Traced :
    (id : ℕ) (status : TaskStatus) (now : ℕ) (db : OrdersDb) (j : ℕ)
    → Traced j db
    → Traced j (finish_task id status now db).1
unfolding finish_task
finish-Traced id status now db j traced = grind (arith, get-update)

module _ (id now : ℕ) (db : OrdersDb) (j : ℕ) (traced : Traced j db) where
  pub timeout-Traced : (request : ℕ) → Traced j (register_timeout id request now db).1
  unfolding register_timeout Numbered
  timeout-Traced request = grind (arith, get-update)

  pub wait-Traced : (wait_count : ℕ) → Traced j (finish_wait id wait_count now db).1
  unfolding finish_wait Numbered
  wait-Traced wait_count = grind (arith, get-update)

  pub dead_letter-Traced :
      (message_id : Option ℕ) → Traced j (handle_dead_letter (some id) message_id now db).1
  unfolding handle_dead_letter dead_letter_task
  dead_letter-Traced message_id = elim (Option-cases (get id db.tasks)) [
    | inl e ↦ rw e traced
    | inr (row, e) ↦ rw e (
        Keeps-settle (Traced j)
          ((dead_letter_task id now >>= λ changed.
              record_internal_event id EventType.message_dead_lettered now
                (dead_letter_details message_id changed)
              >> pure changed)
            db)
          db traced
          (Keeps-bind (Traced j) (dead_letter_task id now)
            (λ changed.
              record_internal_event id EventType.message_dead_lettered now
                (dead_letter_details message_id changed)
              >> pure changed)
            (λ t h. finish-Traced id TaskStatus.dead_lettered now t j h)
            (λ changed.
              Keeps-bind (Traced j)
                (record_internal_event id EventType.message_dead_lettered now
                  (dead_letter_details message_id changed))
                (λ _. pure changed)
                (λ t h.
                  internal-Traced id EventType.message_dead_lettered now
                    (dead_letter_details message_id changed) t j h)
                (λ _ t h. h))
            db traced))
  ]

module _ (id now : ℕ) (db : OrdersDb) (j seq : ℕ) (target : Option Target)
    (recorded : Recorded j seq target db.task_events) where
  pub timeout-Recorded :
      (request : ℕ) → Recorded j seq target (register_timeout id request now db).1.task_events
  unfolding register_timeout Recorded
  timeout-Recorded request = grind arith

  pub wait-Recorded :
      (wait_count : ℕ) → Recorded j seq target (finish_wait id wait_count now db).1.task_events
  unfolding finish_wait Recorded
  wait-Recorded wait_count = grind arith

  pub dead_letter-Recorded :
      (message_id : Option ℕ)
      → Recorded j seq target (handle_dead_letter (some id) message_id now db).1.task_events
  unfolding handle_dead_letter Recorded
  dead_letter-Recorded message_id = grind arith

  pub create-Recorded :
      (execution_id : ℕ) (items : List Item)
      → Recorded j seq target (create_order_with_task execution_id items now db).1.task_events
  unfolding create_order_with_task Recorded
  create-Recorded execution_id items = grind arith

-- A new order opens the trajectory of a task that has no row yet.
pub create-Traced :
    (execution_id now : ℕ) (items : List Item) (db : OrdersDb) (j : ℕ)
    → Traced j db
    → get (next_order_number db.orders) db.tasks ≡ none
    → Traced j (create_order_with_task execution_id items now db).1
unfolding create_order_with_task Numbered
create-Traced execution_id now items db j traced free =
    grind (arith, get-insert_self, get-insert_ne)

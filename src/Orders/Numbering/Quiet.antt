-- ===== src/Orders/Numbering/Quiet.antt =====
-- What the statements of repositories.py on one task and the record of an internal event keep, and
-- with them the actions that publish nothing (executor.py).
use rule2llm_orch_lab.Prelude.{
  ℕ, String, ◌≡◌, Bool, true, false, Option, none, some, [], ◌∷◌, arith, Keeps, Keeps-bind, pure,
  or_raise, raise_if, ◌>>=◌, ◌>>◌, is_none, not_applicable, Error,
}
use rule2llm_orch_lab.Prelude.Table.{get, get-update}
use rule2llm_orch_lab.Contract.Vocabulary.{EventType, Target, TaskStatus}
use rule2llm_orch_lab.Contract.Config.{MessagingConfig}
use rule2llm_orch_lab.Contract.Decision.{ActionName}
use rule2llm_orch_lab.Contract.Envelope.{Payload, retry_details, wait_details, abort_details}
use rule2llm_orch_lab.Orders.Db.{OrdersDb, TaskRow}
use rule2llm_orch_lab.Orders.Trajectory.{record_internal_event}
use rule2llm_orch_lab.Orders.Repositories.{
  start_first_dispatch, start_retry, enter_wait, start_fallback, abort_task, mark_retry_dispatched,
}
use rule2llm_orch_lab.Orders.Executor.{
  Supply, schedule_dispatch, schedule_reevaluation, ExecutionResult, run_retry, run_wait,
  note_abort, run_abort,
}
use rule2llm_orch_lab.Orders.Numbering.{seq_of}

abbrev pub is_completed : Option TaskRow → Bool
is_completed none = false
is_completed (some row) = elim row.status [ TaskStatus.completed ↦ true | _ ↦ false ]

-- Nothing is recorded, no task has another number, and none is completed.
abbrev pub Quiet : OrdersDb → OrdersDb → Type 0
Quiet db after =
    (after.task_events ≡ db.task_events)
    × (after.processed_events ≡ db.processed_events)
    × ((j : ℕ) → seq_of (get j after.tasks) ≡ seq_of (get j db.tasks))
    × ((j : ℕ) → get j db.tasks ≡ none → get j after.tasks ≡ none)
    × ((j : ℕ) → is_completed (get j after.tasks) ≡ true → is_completed (get j db.tasks) ≡ true)

-- A fact that quiet changes and internal events keep
pub record Closed (R : OrdersDb → Type 0) : Type 0 where
  pub quiet : (db after : OrdersDb) → Quiet db after → R db → R after
  pub internal :
      (id : ℕ) (event_type : EventType) (now : ℕ) (details : Payload)
      → Keeps R (record_internal_event id event_type now details)

module _ (id now : ℕ) (db : OrdersDb) where
  pub start-Quiet : (t : Target) → Quiet db (start_first_dispatch id t now db).1
  unfolding start_first_dispatch
  start-Quiet t = grind (arith, get-update)

  retry-Quiet : Quiet db (start_retry id now db).1
  unfolding start_retry
  retry-Quiet = grind (arith, get-update)

  wait-Quiet : Quiet db (enter_wait id now db).1
  unfolding enter_wait
  wait-Quiet = grind (arith, get-update)

  pub fallback-Quiet : (t : Option Target) → Quiet db (start_fallback id t now db).1
  unfolding start_fallback
  fallback-Quiet t = grind (arith, get-update)

  abort-Quiet : Quiet db (abort_task id now db).1
  unfolding abort_task
  abort-Quiet = grind (arith, get-update)

  pub mark-Quiet : Quiet db (mark_retry_dispatched id now db).1
  unfolding mark_retry_dispatched
  mark-Quiet = grind (arith, get-update)

pub raise_if-Keeps : (R : OrdersDb → Type 0) (b : Bool) (e : Error) → Keeps R (raise_if b e)
raise_if-Keeps R true e s r = r
raise_if-Keeps R false e s r = r

or_raise-Keeps :
    {A : Type 0} (R : OrdersDb → Type 0) (e : Error) (o : Option A) → Keeps R (or_raise e o)
or_raise-Keeps R e none s r = r
or_raise-Keeps R e (some a) s r = r

-- What publishes nothing
module _ (R : OrdersDb → Type 0) (closed : Closed R) (c : MessagingConfig) (i : Supply)
    (id decision_id : ℕ) where
  -- An internal event is recorded last.
  noted-Keeps :
      {A : Type 0} (event_type : EventType) (details : Payload) (a : A)
      → Keeps R (record_internal_event id event_type i.now details >> pure a)
  noted-Keeps event_type details a =
      Keeps-bind R (record_internal_event id event_type i.now details) (λ _. pure a)
        (closed.internal id event_type i.now details) (λ _ t h. h)

  abbrev retried : ExecutionResult
  retried = record {
    action = ActionName.retry;
    changed_state = true;
    published_message_ids = [];
    effects = schedule_dispatch id decision_id c.retry_delay_ms ∷ [];
  }

  pub retry-Keeps : Keeps R (run_retry c i id decision_id)
  unfolding run_retry
  retry-Keeps =
      Keeps-bind R (start_retry id i.now)
        (λ attempt.
          raise_if (is_none attempt) not_applicable
          >> (record_internal_event id EventType.retry_scheduled i.now
                (retry_details decision_id c.retry_delay_ms)
              >> pure retried))
        (λ t h. closed.quiet t (start_retry id i.now t).1 (retry-Quiet id i.now t) h)
        (λ attempt.
          Keeps-bind R (raise_if (is_none attempt) not_applicable)
            (λ _.
              record_internal_event id EventType.retry_scheduled i.now
                (retry_details decision_id c.retry_delay_ms)
              >> pure retried)
            (raise_if-Keeps R (is_none attempt) not_applicable)
            (λ _.
              noted-Keeps EventType.retry_scheduled (retry_details decision_id c.retry_delay_ms)
                retried))

  abbrev waited : ℕ → ExecutionResult
  waited wait_count = record {
    action = ActionName.wait;
    changed_state = true;
    published_message_ids = [];
    effects = schedule_reevaluation id wait_count c.wait_delay_ms ∷ [];
  }

  pub wait-Keeps : Keeps R (run_wait c i id decision_id)
  unfolding run_wait
  wait-Keeps =
      Keeps-bind R (enter_wait id i.now)
        (λ entered. or_raise not_applicable entered >>= λ wait_count.
          record_internal_event id EventType.wait_scheduled i.now
            (wait_details decision_id c.wait_delay_ms wait_count)
          >> pure (waited wait_count))
        (λ t h. closed.quiet t (enter_wait id i.now t).1 (wait-Quiet id i.now t) h)
        (λ entered.
          Keeps-bind R (or_raise not_applicable entered)
            (λ wait_count.
              record_internal_event id EventType.wait_scheduled i.now
                (wait_details decision_id c.wait_delay_ms wait_count)
              >> pure (waited wait_count))
            (or_raise-Keeps R not_applicable entered)
            (λ wait_count.
              noted-Keeps EventType.wait_scheduled
                (wait_details decision_id c.wait_delay_ms wait_count) (waited wait_count)))

  note_abort-Keeps :
      (changed : Bool) (reason : String) → Keeps R (note_abort changed i reason id decision_id)
  unfolding note_abort
  note_abort-Keeps false reason t h = h
  note_abort-Keeps true reason t h =
      noted-Keeps EventType.task_aborted (abort_details decision_id reason) tt t h

  abbrev aborted : Bool → ExecutionResult
  aborted changed = record {
    action = ActionName.abort;
    changed_state = changed;
    published_message_ids = [];
    effects = [];
  }

  pub abort-Keeps : (reason : String) → Keeps R (run_abort i reason id decision_id)
  unfolding run_abort
  abort-Keeps reason =
      Keeps-bind R (abort_task id i.now)
        (λ changed. note_abort changed i reason id decision_id >> pure (aborted changed))
        (λ t h. closed.quiet t (abort_task id i.now t).1 (abort-Quiet id i.now t) h)
        (λ changed.
          Keeps-bind R (note_abort changed i reason id decision_id) (λ _. pure (aborted changed))
            (note_abort-Keeps changed reason) (λ _ t h. h))

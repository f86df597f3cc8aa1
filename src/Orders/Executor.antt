-- ===== src/Orders/Executor.antt =====
-- `DecisionExecutor` of services/orders/app/orchestration/executor.py. A handler runs inside one
-- transaction and returns, beside its result, the effects that are carried out after the commit,
-- in order: messages to publish and internal tasks to schedule (scheduler.py).
use rule2llm_orch_lab.Prelude.{
  ℕ, String, Bool, true, false, Option, none, some, List, [], ◌∷◌, Action, Result, pure, or_raise,
  raise_if, transaction, ◌>>=◌, ◌>>◌, not_applicable, contract_error, not, is_none,
}
use rule2llm_orch_lab.Contract.Vocabulary.{EventType, EventSource, Target, inventory_primary}
use rule2llm_orch_lab.Contract.Config.{MessagingConfig}
use rule2llm_orch_lab.Contract.Decision.{
  ActionName, continue, retry, wait, fallback, abort, Decision,
}
use rule2llm_orch_lab.Contract.Envelope.{
  MessageEnvelope, reservation_request, retry_details, wait_details, decision_details,
  abort_details, build_envelope,
}
use rule2llm_orch_lab.Orders.Db.{OrdersDb}
use rule2llm_orch_lab.Orders.Trajectory.{advance_event_seq, record_message, record_internal_event}
use rule2llm_orch_lab.Orders.Repositories.{
  DispatchContext, dispatch_context, start_first_dispatch, start_retry, start_fallback, enter_wait,
  abort_task, mark_retry_dispatched,
}

pub data Effect : Type 0 where
  publish : MessageEnvelope → Target → Effect
  schedule_timeout_check : ℕ → ℕ → ℕ → Effect
  schedule_dispatch : ℕ → ℕ → ℕ → Effect
  schedule_reevaluation : ℕ → ℕ → ℕ → Effect

-- What a call takes from outside: the clock, and the identifier for a message that it may build.
pub record Supply : Type 0 where
  pub now : ℕ
  pub published_at : ℕ
  pub message_id : ℕ

-- `ExecutionResult`, with the effects
pub record ExecutionResult : Type 0 where
  pub action : ActionName
  pub changed_state : Bool
  pub published_message_ids : List ℕ
  pub effects : List Effect

-- The request of the current attempt.
abbrev pub request_envelope : Supply → DispatchContext → ℕ → ℕ → MessageEnvelope
request_envelope i context event_seq decision_id = record {
  execution_id = context.execution_id;
  message_id = i.message_id;
  task_id = context.task_id;
  event_type = EventType.stock_reservation_requested;
  event_seq = event_seq;
  attempt_number = context.attempt_number;
  published_at = i.published_at;
  decision_id = some decision_id;
  target = context.target;
  payload = reservation_request context.order_id context.items;
}

abbrev pub lift : {A : Type 0} → Result A → Action OrdersDb A
lift r db = (r, db)

-- `_publish_request`: the two effects that it adds. `Route(None)` raises.
unfoldable pub publish_request : MessagingConfig → Supply → ℕ → ℕ → Action OrdersDb (List Effect)
unfolding advance_event_seq record_message dispatch_context build_envelope
publish_request c i task_id decision_id = do
  context ← dispatch_context task_id
  advanced ← advance_event_seq task_id i.now
  event_seq ← or_raise contract_error advanced
  envelope ← lift (build_envelope (request_envelope i context event_seq decision_id))
  record_message envelope event_seq EventSource.orders i.now false
  route ← or_raise not_applicable context.target
  pure (
      publish envelope route
      ∷ schedule_timeout_check task_id envelope.message_id c.inventory_timeout_ms
      ∷ [])

-- `_continue`
unfoldable pub run_continue : MessagingConfig → Supply → ℕ → ℕ → Action OrdersDb ExecutionResult
unfolding start_first_dispatch publish_request
run_continue c i task_id decision_id = do
  started ← start_first_dispatch task_id inventory_primary i.now
  raise_if (not started) not_applicable
  effects ← publish_request c i task_id decision_id
  pure (record {
    action = continue;
    changed_state = true;
    published_message_ids = i.message_id ∷ [];
    effects = effects;
  })

-- `_retry`
unfoldable pub run_retry : MessagingConfig → Supply → ℕ → ℕ → Action OrdersDb ExecutionResult
unfolding start_retry record_internal_event
run_retry c i task_id decision_id = do
  attempt ← start_retry task_id i.now
  raise_if (is_none attempt) not_applicable
  record_internal_event task_id EventType.retry_scheduled i.now
      (retry_details decision_id c.retry_delay_ms)
  pure (record {
    action = retry;
    changed_state = true;
    published_message_ids = [];
    effects = schedule_dispatch task_id decision_id c.retry_delay_ms ∷ [];
  })

-- `_wait`
unfoldable pub run_wait : MessagingConfig → Supply → ℕ → ℕ → Action OrdersDb ExecutionResult
unfolding enter_wait record_internal_event
run_wait c i task_id decision_id = do
  waited ← enter_wait task_id i.now
  wait_count ← or_raise not_applicable waited
  record_internal_event task_id EventType.wait_scheduled i.now
      (wait_details decision_id c.wait_delay_ms wait_count)
  pure (record {
    action = wait;
    changed_state = true;
    published_message_ids = [];
    effects = schedule_reevaluation task_id wait_count c.wait_delay_ms ∷ [];
  })

-- What `_fallback` does once the task has changed its target.
unfoldable pub fallback_request : MessagingConfig → Supply → ℕ → ℕ → Action OrdersDb ExecutionResult
unfolding record_internal_event publish_request
fallback_request c i task_id decision_id = do
  record_internal_event task_id EventType.fallback_scheduled i.now (decision_details decision_id)
  effects ← publish_request c i task_id decision_id
  pure (record {
    action = fallback;
    changed_state = true;
    published_message_ids = i.message_id ∷ [];
    effects = effects;
  })

-- `_fallback`
unfoldable pub run_fallback :
    MessagingConfig → Supply → Option Target → ℕ → ℕ → Action OrdersDb ExecutionResult
unfolding start_fallback
run_fallback c i target task_id decision_id = do
  started ← start_fallback task_id target i.now
  raise_if (not started) not_applicable
  fallback_request c i task_id decision_id

unfoldable pub note_abort : Bool → Supply → String → ℕ → ℕ → Action OrdersDb (Unit {0})
unfolding record_internal_event
note_abort false i reason task_id decision_id = pure tt
note_abort true i reason task_id decision_id =
    record_internal_event task_id EventType.task_aborted i.now (abort_details decision_id reason)
    >> pure tt

-- `_abort`
unfoldable pub run_abort : Supply → String → ℕ → ℕ → Action OrdersDb ExecutionResult
unfolding abort_task note_abort
run_abort i reason task_id decision_id = do
  changed ← abort_task task_id i.now
  note_abort changed i reason task_id decision_id
  pure
      (record { action = abort; changed_state = changed; published_message_ids = []; effects = [] })

-- `_handlers`
unfoldable pub handler :
    MessagingConfig → Supply → Decision → ℕ → ℕ → Action OrdersDb ExecutionResult
handler c i d task_id decision_id = elim d.action [
  | continue ↦ run_continue c i task_id decision_id
  | retry ↦ run_retry c i task_id decision_id
  | wait ↦ run_wait c i task_id decision_id
  | fallback ↦ run_fallback c i d.target task_id decision_id
  | abort ↦ run_abort i d.reason_code task_id decision_id
]

-- `execute`
unfoldable pub execute :
    MessagingConfig → Supply → Decision → ℕ → ℕ → Action OrdersDb ExecutionResult
unfolding handler
execute c i d task_id decision_id = transaction (handler c i d task_id decision_id)

unfoldable pub dispatch_if :
    Bool → MessagingConfig → Supply → ℕ → ℕ → Action OrdersDb (Option (List Effect))
unfolding publish_request
dispatch_if false c i task_id decision_id = pure none
dispatch_if true c i task_id decision_id = do
  effects ← publish_request c i task_id decision_id
  pure (some effects)

-- `dispatch_scheduled_attempt`: none if the task is no longer retrying, else the effects.
unfoldable pub dispatch_scheduled_attempt :
    MessagingConfig → Supply → ℕ → ℕ → Action OrdersDb (Option (List Effect))
unfolding mark_retry_dispatched dispatch_if
dispatch_scheduled_attempt c i task_id decision_id =
    transaction
      (do marked ← mark_retry_dispatched task_id i.now; dispatch_if marked c i task_id decision_id)

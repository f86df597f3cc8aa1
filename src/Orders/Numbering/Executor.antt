-- ===== src/Orders/Numbering/Executor.antt =====
-- What the executor (executor.py) keeps: any fact about the database that the statements on one task
-- and the record of an internal event keep, and that the publication of a request turns into another.
use rule2llm_orch_lab.Prelude.{
  ℕ, String, Bool, true, false, Option, some, List, [], ◌∷◌, Keeps, Unless, Unless-bind,
  Unless-state, Unless-settle, Action, Result, ok, err, pure, raise_if, ◌>>=◌, ◌>>◌, not,
  not_applicable,
}
use rule2llm_orch_lab.Contract.Vocabulary.{EventType, Target, inventory_primary}
use rule2llm_orch_lab.Contract.Config.{MessagingConfig}
use rule2llm_orch_lab.Contract.Decision.{Decision, ActionName}
use rule2llm_orch_lab.Contract.Envelope.{decision_details}
use rule2llm_orch_lab.Orders.Db.{OrdersDb}
use rule2llm_orch_lab.Orders.Trajectory.{record_internal_event}
use rule2llm_orch_lab.Orders.Repositories.{
  start_first_dispatch, start_fallback, mark_retry_dispatched,
}
use rule2llm_orch_lab.Orders.Executor.{
  Supply, Effect, ExecutionResult, publish_request, run_continue, run_retry, run_wait,
  fallback_request, run_fallback, run_abort, handler, execute, dispatch_if,
  dispatch_scheduled_attempt,
}
use rule2llm_orch_lab.Orders.Numbering.Quiet.{
  Closed, start-Quiet, fallback-Quiet, mark-Quiet, raise_if-Keeps, retry-Keeps, wait-Keeps,
  abort-Keeps,
}

module _ (R Q : OrdersDb → Type 0) (closed : Closed R) (weaken : (db : OrdersDb) → R db → Q db)
    (c : MessagingConfig) (i : Supply) (id decision_id : ℕ)
    (publishes : (db : OrdersDb)
      → R db
      → Unless (λ _ t. Q t) (publish_request c i id decision_id db)) where
  abbrev Leads : {A : Type 0} → Result A × OrdersDb → Type 0
  Leads r = Unless (λ _ t. Q t) r

  kept-Leads :
      {A : Type 0} (m : Action OrdersDb A) → Keeps R m → (db : OrdersDb) → R db → Leads (m db)
  kept-Leads m h db r = Unless-state Q (m db) (weaken (m db).1 (h db r))

  -- The request is published last, and only its result is packed.
  publish-Leads :
      {A : Type 0} (pack : List Effect → A) (db : OrdersDb)
      → R db
      → Leads ((publish_request c i id decision_id >>= λ effects. pure (pack effects)) db)
  publish-Leads pack db r = go (publish_request c i id decision_id db) (publishes db r)
    where
      go :
          (x : Result (List Effect) × OrdersDb)
          → Leads x
          → Leads (◌>>=◌ (λ (t : OrdersDb). x) (λ effects. pure (pack effects)) db)
      go (ok effects, t) q = q
      go (err e, t) q = tt

  abbrev pack_continue : List Effect → ExecutionResult
  pack_continue effects = record {
    action = ActionName.continue;
    changed_state = true;
    published_message_ids = i.message_id ∷ [];
    effects = effects;
  }

  abbrev pack_fallback : List Effect → ExecutionResult
  pack_fallback effects = record {
    action = ActionName.fallback;
    changed_state = true;
    published_message_ids = i.message_id ∷ [];
    effects = effects;
  }

  continue-Leads : (db : OrdersDb) → R db → Leads (run_continue c i id decision_id db)
  unfolding run_continue
  continue-Leads db =
      Unless-bind R (λ _ t. Q t) (start_first_dispatch id inventory_primary i.now)
        (λ started.
          raise_if (not started) not_applicable
          >> (publish_request c i id decision_id >>= λ effects. pure (pack_continue effects)))
        db
        (λ t h.
          closed.quiet t (start_first_dispatch id inventory_primary i.now t).1
            (start-Quiet id i.now t inventory_primary) h)
        (λ started t.
          Unless-bind R (λ _ t'. Q t') (raise_if (not started) not_applicable)
            (λ _. publish_request c i id decision_id >>= λ effects. pure (pack_continue effects)) t
            (raise_if-Keeps R (not started) not_applicable) (λ _. publish-Leads pack_continue))

  fallback_request-Leads : (db : OrdersDb) → R db → Leads (fallback_request c i id decision_id db)
  unfolding fallback_request
  fallback_request-Leads db =
      Unless-bind R (λ _ t. Q t)
        (record_internal_event id EventType.fallback_scheduled i.now (decision_details decision_id))
        (λ _. publish_request c i id decision_id >>= λ effects. pure (pack_fallback effects)) db
        (closed.internal id EventType.fallback_scheduled i.now (decision_details decision_id))
        (λ _. publish-Leads pack_fallback)

  fallback-Leads :
      (target : Option Target) (db : OrdersDb)
      → R db
      → Leads (run_fallback c i target id decision_id db)
  unfolding run_fallback
  fallback-Leads target db =
      Unless-bind R (λ _ t. Q t) (start_fallback id target i.now)
        (λ started. raise_if (not started) not_applicable >> fallback_request c i id decision_id) db
        (λ t h.
          closed.quiet t (start_fallback id target i.now t).1 (fallback-Quiet id i.now t target) h)
        (λ started t.
          Unless-bind R (λ _ t'. Q t') (raise_if (not started) not_applicable)
            (λ _. fallback_request c i id decision_id) t
            (raise_if-Keeps R (not started) not_applicable) (λ _. fallback_request-Leads))

  handler-Leads :
      (a : ActionName) (target : Option Target) (reason : String) (db : OrdersDb)
      → R db
      → Leads (
          handler c i
            (record { action = a; target = target; reason_code = reason })
            id
            decision_id
            db)
  unfolding handler
  handler-Leads ActionName.continue target reason db = continue-Leads db
  handler-Leads ActionName.retry target reason db =
      kept-Leads (run_retry c i id decision_id) (retry-Keeps R closed c i id decision_id) db
  handler-Leads ActionName.wait target reason db =
      kept-Leads (run_wait c i id decision_id) (wait-Keeps R closed c i id decision_id) db
  handler-Leads ActionName.fallback target reason db = fallback-Leads target db
  handler-Leads ActionName.abort target reason db =
      kept-Leads (run_abort i reason id decision_id)
        (abort-Keeps R closed c i id decision_id reason) db

  -- A decision that is carried out, or rolled back
  pub execute-Leads : (d : Decision) (db : OrdersDb) → R db → Q (execute c i d id decision_id db).1
  unfolding execute
  execute-Leads d db r =
      Unless-settle Q (handler c i d id decision_id db) db (weaken db r)
        (handler-Leads d.action d.target d.reason_code db r)

  dispatch_if-Leads :
      (marked : Bool) (db : OrdersDb) → R db → Leads (dispatch_if marked c i id decision_id db)
  unfolding dispatch_if
  dispatch_if-Leads false db r = weaken db r
  dispatch_if-Leads true db r = publish-Leads some db r

  -- The dispatch of a scheduled attempt
  pub dispatch-Leads :
      (db : OrdersDb) → R db → Q (dispatch_scheduled_attempt c i id decision_id db).1
  unfolding dispatch_scheduled_attempt
  dispatch-Leads db r =
      Unless-settle Q
        ((mark_retry_dispatched id i.now >>= λ marked. dispatch_if marked c i id decision_id) db) db
        (weaken db r)
        (Unless-bind R (λ _ t. Q t) (mark_retry_dispatched id i.now)
          (λ marked. dispatch_if marked c i id decision_id) db
          (λ t h. closed.quiet t (mark_retry_dispatched id i.now t).1 (mark-Quiet id i.now t) h)
          dispatch_if-Leads r)

-- ===== src/Orders/Numbering/Sent.antt =====
-- The requests that a decision sends (executor.py).
use rule2llm_orch_lab.Prelude.{
  ℕ, String, ◌≡◌, Bool, true, false, Option, none, some, List, [], ◌∷◌, arith, Unless, Result, ok,
  err,
}
use rule2llm_orch_lab.Prelude.Table.{Table, get}
use rule2llm_orch_lab.Contract.Vocabulary.{EventType, Target}
use rule2llm_orch_lab.Contract.Config.{MessagingConfig}
use rule2llm_orch_lab.Contract.Decision.{Decision, ActionName}
use rule2llm_orch_lab.Contract.Envelope.{MessageEnvelope}
use rule2llm_orch_lab.Orders.Db.{OrdersDb}
use rule2llm_orch_lab.Orders.Executor.{
  Supply, Effect, ExecutionResult, publish_request, run_continue, run_retry, run_wait,
  fallback_request, run_fallback, run_abort, handler, execute, dispatch_if,
  dispatch_scheduled_attempt,
}
use rule2llm_orch_lab.Orders.Numbering.Known.{Drawn}
use rule2llm_orch_lab.Prelude.{
  Unless-bind, pure, ◌>>=◌, ◌>>◌, settle, raise_if, not, not_applicable,
}
use rule2llm_orch_lab.Contract.Envelope.{decision_details}
use rule2llm_orch_lab.Contract.Vocabulary.{inventory_primary}
use rule2llm_orch_lab.Orders.Trajectory.{record_internal_event}
use rule2llm_orch_lab.Orders.Repositories.{
  start_first_dispatch, start_fallback, mark_retry_dispatched,
}
use rule2llm_orch_lab.Orders.Numbering.Published.{requests_of, AllSent, publish-Sent}

abbrev pub requests_if : Option (List Effect) → List MessageEnvelope
requests_if none = []
requests_if (some effects) = requests_of effects

module _ (c : MessagingConfig) (i : Supply) (id decision_id : ℕ) (ids : Table Drawn)
    (drawn : get i.message_id ids ≡ some (record { task_id = id; is_reply = false })) where
  abbrev Sends : ExecutionResult → OrdersDb → Type 0
  Sends r after = AllSent ids after (requests_of r.effects)

  -- The request is sent last, and only its result is packed.
  pack-Sent :
      {A : Type 0} (pack : List Effect → A) (Q : A → OrdersDb → Type 0)
      → ((effects : List Effect) (t : OrdersDb)
          → AllSent ids t (requests_of effects)
          → Q (pack effects) t)
      → (db : OrdersDb)
      → Unless Q ((publish_request c i id decision_id >>= λ effects. pure (pack effects)) db)
  pack-Sent pack Q fits db =
      go (publish_request c i id decision_id db) (publish-Sent c i id decision_id db ids drawn)
    where
      go :
          (x : Result (List Effect) × OrdersDb)
          → Unless (λ effects after. AllSent ids after (requests_of effects)) x
          → Unless Q (◌>>=◌ (λ (t : OrdersDb). x) (λ effects. pure (pack effects)) db)
      go (ok effects, t) q = fits effects t q
      go (err e, t) q = tt

  abbrev Any : OrdersDb → Type 0
  Any db = Unit

  abbrev pack : ActionName → List Effect → ExecutionResult
  pack a effects = record {
    action = a;
    changed_state = true;
    published_message_ids = i.message_id ∷ [];
    effects = effects;
  }

  continue-Sent : (db : OrdersDb) → Unless Sends (run_continue c i id decision_id db)
  unfolding run_continue
  continue-Sent db =
      Unless-bind Any Sends (start_first_dispatch id inventory_primary i.now)
        (λ started.
          raise_if (not started) not_applicable
          >> (publish_request c i id decision_id >>= λ effects.
              pure (pack ActionName.continue effects)))
        db (λ t h. tt)
        (λ started t h.
          Unless-bind Any Sends (raise_if (not started) not_applicable)
            (λ _. publish_request c i id decision_id >>= λ effects.
              pure (pack ActionName.continue effects))
            t (λ s r. tt)
            (λ _ s r. pack-Sent (pack ActionName.continue) Sends (λ effects t' q. q) s) tt)
        tt

  fallback_request-Sent : (db : OrdersDb) → Unless Sends (fallback_request c i id decision_id db)
  unfolding fallback_request
  fallback_request-Sent db =
      Unless-bind Any Sends
        (record_internal_event id EventType.fallback_scheduled i.now (decision_details decision_id))
        (λ _.
          publish_request c i id decision_id >>= λ effects. pure (pack ActionName.fallback effects))
        db (λ s r. tt) (λ _ s r. pack-Sent (pack ActionName.fallback) Sends (λ effects t' q. q) s)
        tt

  fallback-Sent :
      (target : Option Target) (db : OrdersDb)
      → Unless Sends (run_fallback c i target id decision_id db)
  unfolding run_fallback
  fallback-Sent target db =
      Unless-bind Any Sends (start_fallback id target i.now)
        (λ started. raise_if (not started) not_applicable >> fallback_request c i id decision_id) db
        (λ t h. tt)
        (λ started t h.
          Unless-bind Any Sends (raise_if (not started) not_applicable)
            (λ _. fallback_request c i id decision_id) t (λ s r. tt)
            (λ _ s r. fallback_request-Sent s) tt)
        tt

  retry-Sent : (db : OrdersDb) → Unless Sends (run_retry c i id decision_id db)
  unfolding run_retry requests_of
  retry-Sent db = grind arith

  wait-Sent : (db : OrdersDb) → Unless Sends (run_wait c i id decision_id db)
  unfolding run_wait requests_of
  wait-Sent db = grind arith

  abort-Sent :
      (reason : String) (db : OrdersDb) → Unless Sends (run_abort i reason id decision_id db)
  unfolding run_abort requests_of
  abort-Sent reason db = grind arith

  handler-Sent :
      (a : ActionName) (target : Option Target) (reason : String) (db : OrdersDb)
      → Unless Sends (
          handler c i
            (record { action = a; target = target; reason_code = reason })
            id
            decision_id
            db)
  unfolding handler
  handler-Sent ActionName.continue target reason db = continue-Sent db
  handler-Sent ActionName.retry target reason db = retry-Sent db
  handler-Sent ActionName.wait target reason db = wait-Sent db
  handler-Sent ActionName.fallback target reason db = fallback-Sent target db
  handler-Sent ActionName.abort target reason db = abort-Sent reason db

  settle-Sent :
      {A : Type 0} (Q : A → OrdersDb → Type 0) (r : Result A × OrdersDb) (db : OrdersDb)
      → Unless Q r
      → Unless Q (settle r db)
  settle-Sent Q (ok a, t) db q = q
  settle-Sent Q (err e, t) db q = tt

  -- What a decision sends is on record when it is committed.
  pub execute-Sent : (d : Decision) (db : OrdersDb) → Unless Sends (execute c i d id decision_id db)
  unfolding execute
  execute-Sent d db =
      settle-Sent Sends (handler c i d id decision_id db) db
        (handler-Sent d.action d.target d.reason_code db)

  abbrev SendsIf : Option (List Effect) → OrdersDb → Type 0
  SendsIf effects after = AllSent ids after (requests_if effects)

  dispatch_if-Sent :
      (marked : Bool) (db : OrdersDb) → Unless SendsIf (dispatch_if marked c i id decision_id db)
  unfolding dispatch_if
  dispatch_if-Sent false db = tt
  dispatch_if-Sent true db = pack-Sent some SendsIf (λ effects t q. q) db

  pub dispatch-Sent :
      (db : OrdersDb) → Unless SendsIf (dispatch_scheduled_attempt c i id decision_id db)
  unfolding dispatch_scheduled_attempt
  dispatch-Sent db =
      settle-Sent SendsIf
        ((mark_retry_dispatched id i.now >>= λ marked. dispatch_if marked c i id decision_id) db) db
        (Unless-bind Any SendsIf (mark_retry_dispatched id i.now)
          (λ marked. dispatch_if marked c i id decision_id) db (λ s r. tt)
          (λ marked s r. dispatch_if-Sent marked s) tt)

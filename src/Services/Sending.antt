-- ===== src/Services/Sending.antt =====
-- What the delivery of one message to the orders-service does to the messages on record.
use mathlib.Core.List.{Memᴰ}
use mathlib.Core.Path.{subst}
use rule2llm_orch_lab.Prelude.{
  ℕ, ◌≡◌, arith, Bool, true, false, Option, none, some, List, [], ok, bind-parts, Unless, Result,
  ap,
}
use rule2llm_orch_lab.Prelude.Table.{Table, get, insert, get-insert_self}
use rule2llm_orch_lab.Contract.Envelope.{MessageEnvelope}
use rule2llm_orch_lab.Orders.Db.{OrdersDb}
use rule2llm_orch_lab.Orders.Repositories.{create_order_with_task, next_order_number}
use rule2llm_orch_lab.Orders.Executor.{Supply, Effect, execute, dispatch_scheduled_attempt}
use rule2llm_orch_lab.Orders.EventHandler.{EventOutcome, handle_inventory_event, is_success}
use rule2llm_orch_lab.Orders.Internal.{register_timeout, finish_wait, handle_dead_letter}
use rule2llm_orch_lab.Orders.StateBuilder.{Observation}
use rule2llm_orch_lab.Orders.Orchestrator.{Setup, DecisionOutcome, handle_decision_point}
use rule2llm_orch_lab.Orders.Consumers.{
  decide_if, handle_event, timeout_check, reevaluate, dispatch_attempt,
}
use rule2llm_orch_lab.Orders.Numbering.{Traced}
use rule2llm_orch_lab.Orders.Numbering.Known.{Drawn, AreKnown}
use rule2llm_orch_lab.Orders.Numbering.Published.{requests_of, AllSent}
use rule2llm_orch_lab.Orders.Numbering.Sent.{requests_if, execute-Sent, dispatch-Sent}
use rule2llm_orch_lab.Orders.Numbering.Decided.{Follows, execute-Follows, dispatch-Follows}
use rule2llm_orch_lab.Services.{for_request, for_reply, sent_of, Delivery}
use rule2llm_orch_lab.Services.Opening.{
  Passed, nothing-Passed, timeout-Passed, wait-Passed, dead_letter-Passed, create-Passed,
  event-Passed, Passed-Follows, Passed-drawn, decision_point-executed,
}

-- What a call has left, if the result is known
pub after-result :
    {A : Type 0} (P : OrdersDb → Type 0) (r : Result A × OrdersDb) (a : A) (after : OrdersDb)
    → r ≡ (ok a, after)
    → P r.1
    → P after
after-result P r a after e h = subst (λ r. P r.1) e h

unless-result :
    {A : Type 0} (Q : A → OrdersDb → Type 0) (r : Result A × OrdersDb) (a : A) (after : OrdersDb)
    → r ≡ (ok a, after)
    → Unless Q r
    → Q a after
unless-result Q r a after e h = subst (Unless Q) e h

module _ (u : Setup) (i : Supply) (ids : Table Drawn) (fresh : get i.message_id ids ≡ none) (id : ℕ)
    (allowed : ℕ → Type 0) (db : OrdersDb) where
  abbrev drawn_ids : Table Drawn
  drawn_ids = insert i.message_id (for_request id) ids

  -- After a delivery that sent some requests
  abbrev pub Sent : List MessageEnvelope → OrdersDb → Type 0
  Sent sent after = Passed drawn_ids allowed db after × AllSent drawn_ids after sent

  abbrev drawn : get i.message_id drawn_ids ≡ some (for_request id)
  drawn = get-insert_self i.message_id (for_request id) ids fresh

  quiet-Sent : (mid : OrdersDb) → Passed ids allowed db mid → Sent [] mid
  quiet-Sent mid p = (Passed-drawn ids allowed db mid i.message_id (for_request id) p, tt)

  decided-Sent :
      (o : Observation) (decision_id : ℕ) (x : DecisionOutcome) (mid after : OrdersDb)
      → Passed ids allowed db mid
      → handle_decision_point u o i id decision_id mid ≡ (ok x, after)
      → Sent (requests_of x.execution.effects) after
  decided-Sent o decision_id x mid after p e =
      let run = decision_point-executed u o i id decision_id mid after x e in
      let r = execute u.config i x.executed id decision_id mid in
      (
        Passed-Follows ids allowed db mid after id i.message_id fresh p (
            after-result (Follows id i.message_id mid) r x.execution after run
              (execute-Follows u.config i id decision_id mid x.executed)),
        unless-result (λ a t. AllSent drawn_ids t (requests_of a.effects)) r x.execution after run
            (execute-Sent u.config i id decision_id drawn_ids drawn x.executed mid),
      )

  decide_if-Sent :
      (asked : Bool) (o : Observation) (decision_id : ℕ) (out : Option DecisionOutcome)
      (mid after : OrdersDb)
      → Passed ids allowed db mid
      → decide_if asked u o i id decision_id mid ≡ (ok out, after)
      → Sent (sent_of out) after
  unfolding decide_if
  decide_if-Sent false o decision_id out mid after p e =
      let same : mid ≡ after = ap (λ r. r.1) e in
      let nothing : none ≡ out = ground arith in
      rw⁻¹ nothing (subst (Sent []) same (quiet-Sent mid p))
  decide_if-Sent true o decision_id none mid after p e = ground arith
  decide_if-Sent true o decision_id (some x) mid after p e =
      decided-Sent o decision_id x mid after p (ground arith)

  dispatch_attempt-Sent :
      (decision_id : ℕ) (effects : Option (List Effect)) (after : OrdersDb)
      → Passed ids allowed db db
      → dispatch_attempt u i id decision_id db ≡ (ok effects, after)
      → Sent (requests_if effects) after
  unfolding dispatch_attempt
  dispatch_attempt-Sent decision_id effects after p e =
      let r = dispatch_scheduled_attempt u.config i id decision_id db in
      (
        Passed-Follows ids allowed db db after id i.message_id fresh p (
            after-result (Follows id i.message_id db) r effects after e
              (dispatch-Follows u.config i id decision_id db)),
        unless-result (λ a t. AllSent drawn_ids t (requests_if a)) r effects after e
            (dispatch-Sent u.config i id decision_id drawn_ids drawn db),
      )

module _ (u : Setup) (i : Supply) (ids : Table Drawn) (fresh : get i.message_id ids ≡ none)
    (allowed : ℕ → Type 0) (db : OrdersDb) (traced : (j : ℕ) → Traced j db)
    (known : AreKnown ids db) (free : get (next_order_number db.orders) db.tasks ≡ none)
    (replies : List MessageEnvelope)
    (answers : (m : MessageEnvelope)
      → Memᴰ m replies
      → (get m.message_id ids ≡ some (for_reply m.task_id))
        × (is_success m.event_type ≡ true → allowed m.task_id)) where
  -- Every delivery keeps the messages on record, and records the requests that it sends.
  pub Delivery-Sent :
      (id : ℕ) (out : Option DecisionOutcome) (sent : List MessageEnvelope) (after : OrdersDb)
      → Delivery u i replies db id out sent after
      → Sent u i ids fresh id allowed db sent after
  Delivery-Sent id out sent after (Delivery.opened execution now items view a fits e same o s) =
      rw s (
        quiet-Sent u i ids fresh id allowed db after (
          after-result (Passed ids allowed db) (create_order_with_task execution items now db) view
            after e (create-Passed ids allowed db traced known execution now items free)))
  Delivery-Sent id out sent after (Delivery.first_decided o d x row found clock ready e same s) =
      rw (s, same)
        (decided-Sent u i ids fresh id allowed db o d x db after
          (nothing-Passed ids allowed db traced known) e)
  Delivery-Sent id out sent after (Delivery.replied o d m redelivered has clock e same s) =
      let (outcome, rest) =
        bind-parts (handle_inventory_event m redelivered i.now)
          (λ (x : EventOutcome). decide_if x.decision_required u o i m.task_id d) db out after
          (unfold handle_event in e) in
      rw (s, same)
        (decide_if-Sent u i ids fresh m.task_id allowed db outcome.decision_required o d out
          (handle_inventory_event m redelivered i.now db).1 after
          (event-Passed ids allowed db traced known m redelivered i.now (answers m has).0
            (answers m has).1)
          rest)
  Delivery-Sent id out sent after (Delivery.timed_out o d request row found clock e s) =
      let (asked, rest) =
        bind-parts (register_timeout id request i.now) (λ asked. decide_if asked u o i id d) db out
          after (unfold timeout_check in e) in
      rw s (
        decide_if-Sent u i ids fresh id allowed db asked o d out
          (register_timeout id request i.now db).1 after
          (timeout-Passed ids allowed db traced known id request i.now) rest)
  Delivery-Sent id out sent after (Delivery.reevaluated o d wait_count row found clock e s) =
      let (asked, rest) =
        bind-parts (finish_wait id wait_count i.now) (λ asked. decide_if asked u o i id d) db out
          after (unfold reevaluate in e) in
      rw s (
        decide_if-Sent u i ids fresh id allowed db asked o d out
          (finish_wait id wait_count i.now db).1 after
          (wait-Passed ids allowed db traced known id wait_count i.now) rest)
  Delivery-Sent id out sent after (Delivery.dispatched d effects row found e o s) = rw s (
      dispatch_attempt-Sent u i ids fresh id allowed db d effects after
        (nothing-Passed ids allowed db traced known) e)
  Delivery-Sent id out sent after (Delivery.dead_lettered message_id now changed row found e o s) =
      rw s (
        quiet-Sent u i ids fresh id allowed db after (
          after-result (Passed ids allowed db) (handle_dead_letter (some id) message_id now db)
            changed after e (dead_letter-Passed ids allowed db traced known id message_id now)))

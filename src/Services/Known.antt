-- ===== src/Services/Known.antt =====
-- What the orders-service knows of a reply in flight.
use mathlib.Core.List.{Memᴰ}
use mathlib.Core.Path.{subst}
use rule2llm_orch_lab.Prelude.{
  ℕ, ◌≤◌, ◌≡◌, refl, ap, arith, Bool, true, Option, none, some, List, Post,
}
use rule2llm_orch_lab.Prelude.Table.{get}
use rule2llm_orch_lab.Contract.Vocabulary.{EventType}
use rule2llm_orch_lab.Contract.Envelope.{MessageEnvelope}
use rule2llm_orch_lab.Orders.Db.{OrdersDb, TaskRow, EventRow}
use rule2llm_orch_lab.Orders.Trajectory.{latest_request}
use rule2llm_orch_lab.Orders.Executor.{Supply}
use rule2llm_orch_lab.Orders.EventHandler.{is_success}
use rule2llm_orch_lab.Orders.StateBuilder.{Observation}
use rule2llm_orch_lab.Orders.Orchestrator.{Setup, DecisionOutcome}
use rule2llm_orch_lab.Orders.Consumers.{handle_event}
use rule2llm_orch_lab.Orders.Invariant.{created}
use rule2llm_orch_lab.Orders.Invariant.Events.{Echoes}
use rule2llm_orch_lab.Orders.System.{EngineReturns, Settled}
use rule2llm_orch_lab.Orders.System.Messages.{handle_event-Settled}
use rule2llm_orch_lab.Orders.System.Runs.{Step}
use rule2llm_orch_lab.Orders.Numbering.{Traced, Recorded-le, Recorded-latest, IsOnRecord, seq_of}
use rule2llm_orch_lab.Services.{World, IsWorld, IsReply, Reserved, Delivery}

-- A reply on record names the target of the latest request, if it answers that one,
IsOnRecord-Echoes :
    (m : MessageEnvelope) (db : OrdersDb)
    → Traced m.task_id db
    → IsOnRecord m db
    → Echoes m (latest_request m.task_id db.task_events)
IsOnRecord-Echoes m db traced recorded = go (latest_request m.task_id db.task_events) refl
  where
    go : (r : Option EventRow) → latest_request m.task_id db.task_events ≡ r → Echoes m r
    go none e = tt
    go (some latest) e =
        Recorded-latest m.task_id m.event_seq m.target db.task_events latest traced.0 recorded e

-- and belongs to a task that exists.
IsOnRecord-row :
    (m : MessageEnvelope) (db : OrdersDb)
    → Traced m.task_id db
    → IsOnRecord m db
    → (row : TaskRow) × (get m.task_id db.tasks ≡ some row)
IsOnRecord-row m db traced recorded = go (get m.task_id db.tasks) refl
  where
    go :
        (t : Option TaskRow)
        → get m.task_id db.tasks ≡ t
        → (row : TaskRow) × (get m.task_id db.tasks ≡ some row)
    go none e =
        let le = Recorded-le m.task_id m.event_seq m.target db.task_events traced.0 recorded in
        let zero : seq_of (get m.task_id db.tasks) ≡ 0 = ap seq_of e in
        absurd (omega (arith, le.0, le.1, traced.1, zero))
    go (some row) e = (row, e)

module _ (u : Setup) (w : World) (world : IsWorld u.config w) where
  -- What a reply in flight is to the orders-service
  pub reply_facts :
      (m : MessageEnvelope)
      → Memᴰ m w.replies
      → IsReply w.ids w.orders w.inventory m
        × Echoes m (latest_request m.task_id w.orders.task_events)
        × ((row : TaskRow) × (get m.task_id w.orders.tasks ≡ some row))
  reply_facts m has =
      let r = world.answers m has in
      let traced = world.traced m.task_id in
      (
        r,
        IsOnRecord-Echoes m w.orders traced r.on_record,
        IsOnRecord-row m w.orders traced r.on_record,
      )

  -- A success in flight is backed by a reservation.
  pub reply-Reserved :
      (m : MessageEnvelope)
      → Memᴰ m w.replies
      → is_success m.event_type ≡ true
      → Reserved w.inventory m.task_id
  reply-Reserved m has success =
      let backed = (world.answers m has).backed in
      let (row, found, p) = backed.1 (is_success-type m.event_type success) in (row, found)
    where
      is_success-type :
          (t : EventType) → is_success t ≡ true → t ≡ EventType.stock_reservation_succeeded
      is_success-type t h = ground arith

  -- Whatever reply is delivered, fresh or again, soon or late, it is handled without a raise.
  pub reply-Settled :
      EngineReturns u
      → (o : Observation) (i : Supply) (decision_id : ℕ) (m : MessageEnvelope) (redelivered : Bool)
      → Memᴰ m w.replies
      → created (get m.task_id w.orders.tasks) ≤ o.now
      → Post
          (Settled u.config m.task_id w.orders)
          (handle_event u o i decision_id m redelivered w.orders)
  reply-Settled returns o i decision_id m redelivered has clock =
      let (r, echo, (row, found)) = reply_facts m has in
      handle_event-Settled u returns o i decision_id w.orders world.inv m redelivered row found
        (subst (λ t. created t ≤ o.now) found clock) r.handled r.backed.0 echo

  -- A delivery is a step of the orders-service.
  pub Delivery-Step :
      (i : Supply) (id : ℕ) (out : Option DecisionOutcome) (sent : List MessageEnvelope)
      (after : OrdersDb)
      → Delivery u i w.replies w.orders id out sent after
      → Step u w.orders id out after
  Delivery-Step i id out sent after (Delivery.opened execution now items view a fits e same o s) =
      Step.created execution now items view a fits e same o
  Delivery-Step i id out sent after (Delivery.first_decided o d x row found clock ready e same s) =
      Step.decided o i d x row found clock ready e same
  Delivery-Step i id out sent after (Delivery.replied o d m redelivered has clock e same s) =
      let (r, echo, (row, found)) = reply_facts m has in
      Step.event o i d m redelivered row found (subst (λ t. created t ≤ o.now) found clock)
        r.handled r.backed.0 echo e same
  Delivery-Step i id out sent after (Delivery.timed_out o d request row found clock e s) =
      Step.timed_out o i d request row found clock e
  Delivery-Step i id out sent after (Delivery.reevaluated o d wait_count row found clock e s) =
      Step.reevaluated o i d wait_count row found clock e
  Delivery-Step i id out sent after (Delivery.dispatched d effects row found e o s) =
      Step.dispatched i d effects row found e o
  Delivery-Step i id out sent after
        (Delivery.dead_lettered message_id now changed row found e o s) =
      Step.dead_lettered i message_id now changed row found e o

-- ===== src/Services.antt =====
-- The two services together: both databases, the messages between them, and the identifiers drawn. The
-- broker may deliver a message late, in any order and more than once, or lose it.
pub mod Opening
pub mod Sending
pub mod Answers
pub mod Known
pub mod Reach
pub mod Safety
use mathlib.Core.List.{Memᴰ}
use rule2llm_orch_lab.Prelude.{
  ℕ, ◌≤◌, ◌<◌, ◌≡◌, ◌++◌, Bool, true, false, Option, none, some, List, [], ◌∷◌, ok,
}
use rule2llm_orch_lab.Prelude.Table.{Table, get, insert}
use rule2llm_orch_lab.Contract.Vocabulary.{EventType, Target}
use rule2llm_orch_lab.Contract.Config.{MessagingConfig}
use rule2llm_orch_lab.Contract.Envelope.{
  Item, MessageEnvelope, is_message, validate_payload, reservation_request,
}
use rule2llm_orch_lab.Orders.Db.{OrdersDb, TaskRow}
use rule2llm_orch_lab.Orders.Repositories.{OrderView, create_order_with_task}
use rule2llm_orch_lab.Orders.Executor.{Supply, Effect}
use rule2llm_orch_lab.Orders.EventHandler.{is_handled}
use rule2llm_orch_lab.Orders.Internal.{handle_dead_letter}
use rule2llm_orch_lab.Orders.StateBuilder.{Observation}
use rule2llm_orch_lab.Orders.Orchestrator.{Setup, DecisionOutcome, handle_decision_point}
use rule2llm_orch_lab.Orders.Consumers.{handle_event, timeout_check, dispatch_attempt, reevaluate}
use rule2llm_orch_lab.Orders.Invariant.{RowReady, created}
use rule2llm_orch_lab.Orders.System.{Inv}
use rule2llm_orch_lab.Orders.Numbering.{Traced, IsOnRecord}
use rule2llm_orch_lab.Orders.Numbering.Quiet.{is_completed}
use rule2llm_orch_lab.Orders.Numbering.Known.{Drawn, AreKnown}
use rule2llm_orch_lab.Orders.Numbering.Published.{requests_of, IsSent}
use rule2llm_orch_lab.Orders.Numbering.Sent.{requests_if}
use rule2llm_orch_lab.Inventory.Db.{InventoryDb, ReservationRow, ProcessedRow}
use rule2llm_orch_lab.Inventory.Processing.{FaultControl, before_reservation}
use rule2llm_orch_lab.Inventory.Service.{Draw, RequestResult, process_reservation_request}
use rule2llm_orch_lab.Inventory.Store.{IsStore, Backed}

-- Everything that was published stays in flight.
pub record World : Type 0 where
  pub orders : OrdersDb
  pub inventory : InventoryDb
  pub requests : List MessageEnvelope
  pub replies : List MessageEnvelope
  pub ids : Table Drawn

abbrev pub for_request : ℕ → Drawn
for_request id = record { task_id = id; is_reply = false }

abbrev pub for_reply : ℕ → Drawn
for_reply id = record { task_id = id; is_reply = true }

-- The requests that a decision point has published
abbrev pub sent_of : Option DecisionOutcome → List MessageEnvelope
sent_of none = []
sent_of (some x) = requests_of x.execution.effects

-- One message at the orders-service, or one call of its API, for task `id`: the outcome of the decision
-- point that it opened, and the requests that were published.
pub data Delivery (u : Setup) (i : Supply) (replies : List MessageEnvelope) (db : OrdersDb) (id : ℕ)
    (out : Option DecisionOutcome) (sent : List MessageEnvelope) (after : OrdersDb) : Type 0 where
  opened :
      (execution_id now : ℕ) (items : List Item) (view : OrderView)
      → 0 < u.config.max_attempts
      → validate_payload EventType.stock_reservation_requested (reservation_request 0 items) ≡ true
      → create_order_with_task execution_id items now db ≡ (ok view, after)
      → id ≡ view.task_id
      → out ≡ none
      → sent ≡ []
      → Delivery u i replies db id out sent after
  first_decided :
      (o : Observation) (decision_id : ℕ) (outcome : DecisionOutcome) (row : TaskRow)
      → get id db.tasks ≡ some row
      → row.created_at ≤ o.now
      → RowReady row
      → handle_decision_point u o i id decision_id db ≡ (ok outcome, after)
      → out ≡ some outcome
      → sent ≡ sent_of out
      → Delivery u i replies db id out sent after
  -- Any reply in flight, fresh or delivered again
  replied :
      (o : Observation) (decision_id : ℕ) (m : MessageEnvelope) (redelivered : Bool)
      → Memᴰ m replies
      → created (get m.task_id db.tasks) ≤ o.now
      → handle_event u o i decision_id m redelivered db ≡ (ok out, after)
      → id ≡ m.task_id
      → sent ≡ sent_of out
      → Delivery u i replies db id out sent after
  timed_out :
      (o : Observation) (decision_id request : ℕ) (row : TaskRow)
      → get id db.tasks ≡ some row
      → row.created_at ≤ o.now
      → timeout_check u o i decision_id id request db ≡ (ok out, after)
      → sent ≡ sent_of out
      → Delivery u i replies db id out sent after
  reevaluated :
      (o : Observation) (decision_id wait_count : ℕ) (row : TaskRow)
      → get id db.tasks ≡ some row
      → row.created_at ≤ o.now
      → reevaluate u o i decision_id id wait_count db ≡ (ok out, after)
      → sent ≡ sent_of out
      → Delivery u i replies db id out sent after
  dispatched :
      (decision_id : ℕ) (effects : Option (List Effect)) (row : TaskRow)
      → get id db.tasks ≡ some row
      → dispatch_attempt u i id decision_id db ≡ (ok effects, after)
      → out ≡ none
      → sent ≡ requests_if effects
      → Delivery u i replies db id out sent after
  dead_lettered :
      (message_id : Option ℕ) (now : ℕ) (changed : Bool) (row : TaskRow)
      → get id db.tasks ≡ some row
      → handle_dead_letter (some id) message_id now db ≡ (ok changed, after)
      → out ≡ none
      → sent ≡ []
      → Delivery u i replies db id out sent after

-- The draw of shared/faults.py
abbrev pub Sampled : Type 0
Sampled = ℕ → ℕ → ℕ → ℕ → Bool

-- One move of either service. An identifier that is drawn was not drawn before.
pub data Move (u : Setup) (sampled : Sampled) (w : World) (id : ℕ) (out : Option DecisionOutcome)
    (after : World) : Type 0 where
  delivered :
      (i : Supply) (sent : List MessageEnvelope) (orders : OrdersDb)
      → get i.message_id w.ids ≡ none
      → Delivery u i w.replies w.orders id out sent orders
      → after ≡ record {
        orders = orders;
        inventory = w.inventory;
        requests = sent ++ w.requests;
        replies = w.replies;
        ids = insert i.message_id (for_request id) w.ids;
      }
      → Move u sampled w id out after
  answered :
      (fault : Option FaultControl) (d : Draw) (request : MessageEnvelope) (order_id : ℕ)
      (items : List Item) (result : RequestResult) (inventory : InventoryDb)
      → Memᴰ request w.requests
      → request.payload ≡ reservation_request order_id items
      → get d.message_id w.ids ≡ none
      → process_reservation_request
          (before_reservation sampled fault request)
          d
          request
          order_id
          items
          w.inventory
        ≡ (ok result, inventory)
      → id ≡ request.task_id
      → out ≡ none
      → after ≡ record {
        orders = w.orders;
        inventory = inventory;
        requests = w.requests;
        replies = result.reply ∷ w.replies;
        ids = insert d.message_id (for_reply request.task_id) w.ids;
      }
      → Move u sampled w id out after

-- A reply that was published: it answers a request on record, under an identifier that was drawn for
-- it, and a success is backed by a reservation.
pub record IsReply (ids : Table Drawn) (orders : OrdersDb) (inventory : InventoryDb)
    (m : MessageEnvelope) : Type 0 where
  pub handled : is_handled m.event_type ≡ true
  pub on_record : IsOnRecord m orders
  pub drawn : get m.message_id ids ≡ some (for_reply m.task_id)
  pub backed : Backed inventory m

abbrev pub Reserved : InventoryDb → ℕ → Type 0
Reserved inventory j = (row : ReservationRow) × (get j inventory.reservations ≡ some row)

-- What the two services keep together
pub record IsWorld (c : MessagingConfig) (w : World) : Type 0 where
  pub inv : Inv c w.orders
  pub store : IsStore w.inventory
  pub traced : (j : ℕ) → Traced j w.orders
  pub known : AreKnown w.ids w.orders
  pub sent : (m : MessageEnvelope) → Memᴰ m w.requests → IsSent w.ids w.orders m
  pub answers : (m : MessageEnvelope) → Memᴰ m w.replies → IsReply w.ids w.orders w.inventory m
  pub stored :
      (k : ℕ) (row : ProcessedRow)
      → get k w.inventory.processed_messages ≡ some row
      → IsReply w.ids w.orders w.inventory row.response
  -- An order is confirmed only where its items are reserved.
  pub completed : (j : ℕ) → is_completed (get j w.orders.tasks) ≡ true → Reserved w.inventory j

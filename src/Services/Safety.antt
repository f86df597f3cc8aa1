-- ===== src/Services/Safety.antt =====
-- What the clients of the two services can rely on, in every world that a run from the first one reaches.
use mathlib.Core.List.{Memᴰ}
use rule2llm_orch_lab.Prelude.{
  ℕ, String, ◌+◌, ◌≤◌, ◌≡◌, Bool, true, Option, none, some, List, Post, Post-mono,
}
use rule2llm_orch_lab.Prelude.Table.{get}
use rule2llm_orch_lab.Contract.Config.{MessagingConfig}
use rule2llm_orch_lab.Contract.Envelope.{Item, MessageEnvelope}
use rule2llm_orch_lab.Orders.Executor.{Supply}
use rule2llm_orch_lab.Orders.StateBuilder.{Observation}
use rule2llm_orch_lab.Orders.Orchestrator.{Setup}
use rule2llm_orch_lab.Orders.Consumers.{handle_event}
use rule2llm_orch_lab.Orders.Invariant.{created}
use rule2llm_orch_lab.Orders.System.{EngineReturns, Settled}
use rule2llm_orch_lab.Orders.System.Runs.{Trace, decisions_of}
use rule2llm_orch_lab.Orders.System.Rules.{rules_setup, rules_returns}
use rule2llm_orch_lab.Orders.Numbering.{IsOnRecord}
use rule2llm_orch_lab.Orders.Numbering.Quiet.{is_completed}
use rule2llm_orch_lab.Inventory.Db.{ReservationRow}
use rule2llm_orch_lab.Inventory.Processing.{FaultControl, before_reservation}
use rule2llm_orch_lab.Inventory.Service.{Draw, process_reservation_request}
use rule2llm_orch_lab.Inventory.Store.{Backed}
use rule2llm_orch_lab.Services.{World, IsWorld, Reserved, Sampled}
use rule2llm_orch_lab.Services.Answers.{answer-Answered}
use rule2llm_orch_lab.Services.Known.{reply-Settled}
use rule2llm_orch_lab.Services.Reach.{
  Moves, first_world, first_world-IsWorld, Moves-IsWorld, Moves-decisions_bounded,
}

module _ (u : Setup) (returns : EngineReturns u) (sampled : Sampled) (stock : List String)
    (trace : Trace) (w : World) (moves : Moves u sampled (first_world stock) trace w) where
  abbrev world : IsWorld u.config w
  world =
      Moves-IsWorld u returns sampled (first_world stock) trace w moves
        (first_world-IsWorld u.config stock)

  -- In every world that the two services reach from the first one, however the messages were ordered,
  -- repeated, delayed or lost, a task that is completed in `orders.db` has a reservation in
  -- `inventory.db`, if the engine returns an output in every coherent state.
  pub completed-Reserved :
      (j : ℕ) → is_completed (get j w.orders.tasks) ≡ true → Reserved w.inventory j
  completed-Reserved = world.completed

  -- In every world that the two services reach from the first one, if the engine returns an output in
  -- every coherent state, any reply that was ever published can be delivered, for the first time or
  -- again: not before the creation of its task, it is handled without a raise, with its decision
  -- point, and the database settles.
  pub reply_handled :
      (o : Observation) (i : Supply) (decision_id : ℕ) (m : MessageEnvelope) (redelivered : Bool)
      → Memᴰ m w.replies
      → created (get m.task_id w.orders.tasks) ≤ o.now
      → Post
          (Settled u.config m.task_id w.orders)
          (handle_event u o i decision_id m redelivered w.orders)
  reply_handled = reply-Settled u w world returns

  -- In every world that the two services reach from the first one, if the engine returns an output in
  -- every coherent state, any request that was ever published can be delivered, for the first time or
  -- again, under any fault and with an identifier that was not drawn before: it is answered without a
  -- raise, the answer is in the contract and answers a request on record in `orders.db`, a success is
  -- backed by a reservation, and no reservation is lost.
  pub request_answered :
      (fault : Option FaultControl) (d : Draw) (request : MessageEnvelope) (order_id : ℕ)
      (items : List Item)
      → Memᴰ request w.requests
      → get d.message_id w.ids ≡ none
      → Post
          (λ out after.
            Backed after out.reply
            × IsOnRecord out.reply w.orders
            × ((j : ℕ) (row : ReservationRow)
                → get j w.inventory.reservations ≡ some row
                → get j after.reservations ≡ some row))
          (process_reservation_request
            (before_reservation sampled fault request)
            d
            request
            order_id
            items
            w.inventory)
  request_answered fault d request order_id items has undrawn =
      Post-mono _ _
        (process_reservation_request (before_reservation sampled fault request) d request order_id
          items w.inventory)
        (λ out after a. (a.reply.backed, a.reply.on_record, a.grown))
        (answer-Answered sampled fault d request order_id items w.ids w.orders w.inventory
          world.store world.stored (world.sent request has) undrawn)

-- With the rules engine nothing is assumed of the replies or of the engine: in every run of the two
-- services from the first world a task sees at most `max_attempts + max_waits + 1` decisions other than
-- `ABORT`.
pub rules_services_bounded :
    (c : MessagingConfig) (limit : ℕ) (sampled : Sampled) (stock : List String) (j : ℕ)
    (trace : Trace) (w : World)
    → Moves (rules_setup c limit) sampled (first_world stock) trace w
    → decisions_of j trace ≤ c.max_attempts + c.max_waits + 1
rules_services_bounded c limit sampled stock j trace w moves =
    Moves-decisions_bounded (rules_setup c limit) (rules_returns c limit) sampled j
      (first_world stock) trace w moves (first_world-IsWorld c stock)

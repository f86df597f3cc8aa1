-- ===== src/Services/Reach.antt =====
-- The worlds that the two services reach.
use mathlib.Core.List.{Memᴰ}
use mathlib.Core.Path.{subst}
use rule2llm_orch_lab.Prelude.{
  ℕ, String, ℕ_discrete, ◌+◌, ◌≤◌, ◌≡◌, ◌++◌, inl, inr, refl, sym, arith, Option, none, some, List,
  [], ◌∷◌,
}
use rule2llm_orch_lab.Prelude.Table.{Table, get, insert, get-insert_old}
use rule2llm_orch_lab.Contract.Config.{MessagingConfig}
use rule2llm_orch_lab.Contract.Envelope.{MessageEnvelope}
use rule2llm_orch_lab.Orders.Db.{OrdersDb}
use rule2llm_orch_lab.Orders.Executor.{Supply}
use rule2llm_orch_lab.Orders.Orchestrator.{Setup, DecisionOutcome}
use rule2llm_orch_lab.Orders.Invariant.{budget}
use rule2llm_orch_lab.Orders.Invariant.Creation.{free_number}
use rule2llm_orch_lab.Orders.System.{EngineReturns, Settled, budget_within}
use rule2llm_orch_lab.Orders.System.Runs.{Step-Settled, Trace, decisions_of, step_paid, Post-result}
use rule2llm_orch_lab.Orders.System.Rules.{Inv-empty}
use rule2llm_orch_lab.Orders.Numbering.{Numbered, last_seq, IsOnRecord}
use rule2llm_orch_lab.Orders.Numbering.Known.{Drawn, KnownRows, AreKnown-drawn}
use rule2llm_orch_lab.Orders.Numbering.Published.{IsSent, AllSent}
use rule2llm_orch_lab.Inventory.Db.{InventoryDb}
use rule2llm_orch_lab.Inventory.Processing.{before_reservation}
use rule2llm_orch_lab.Inventory.Service.{RequestResult, process_reservation_request}
use rule2llm_orch_lab.Services.{
  World, IsWorld, IsReply, Reserved, Delivery, Move, Sampled, for_request, for_reply,
}
use rule2llm_orch_lab.Services.Sending.{Delivery-Sent}
use rule2llm_orch_lab.Services.Answers.{Answered, answer-Answered, IsReply-later, IsSent-later}
use rule2llm_orch_lab.Services.Known.{reply-Reserved, Delivery-Step}

AllSent-Memᴰ :
    (ids : Table Drawn) (db : OrdersDb) (sent rest : List MessageEnvelope)
    → AllSent ids db sent
    → ((m : MessageEnvelope) → Memᴰ m rest → IsSent ids db m)
    → (m : MessageEnvelope) → Memᴰ m (sent ++ rest)
    → IsSent ids db m
AllSent-Memᴰ ids db [] rest all old m has = old m has
AllSent-Memᴰ ids db (x ∷ xs) rest all old m (Memᴰ.head e) = subst (IsSent ids db) (sym e) all.0
AllSent-Memᴰ ids db (x ∷ xs) rest all old m (Memᴰ.tail has) =
    AllSent-Memᴰ ids db xs rest all.1 old m has

module _ (u : Setup) (returns : EngineReturns u) (w : World) (world : IsWorld u.config w) where
  delivered-IsWorld :
      (i : Supply) (fresh : get i.message_id w.ids ≡ none) (id : ℕ) (out : Option DecisionOutcome)
      (sent : List MessageEnvelope) (orders : OrdersDb)
      → Delivery u i w.replies w.orders id out sent orders
      → IsWorld u.config (record {
        orders = orders;
        inventory = w.inventory;
        requests = sent ++ w.requests;
        replies = w.replies;
        ids = insert i.message_id (for_request id) w.ids;
      })
  delivered-IsWorld i fresh id out sent orders step =
      let ids : Table Drawn = insert i.message_id (for_request id) w.ids in
      let (p, all) =
        Delivery-Sent u i w.ids fresh (Reserved w.inventory) w.orders world.traced world.known
          (free_number u.config w.orders world.inv.every) w.replies
          (λ m has. ((world.answers m has).drawn, reply-Reserved u w world m has)) id out sent
          orders step in
      let drawn : (k : ℕ) (d : Drawn) → get k w.ids ≡ some d → get k ids ≡ some d =
        λ k d. get-insert_old k i.message_id (for_request id) d w.ids in
      let kept : (m : MessageEnvelope) → IsOnRecord m w.orders → IsOnRecord m orders =
        λ m. p.on_record m.task_id m.event_seq m.target in
      record {
        inv =
            (Step-Settled u returns w.orders world.inv id out orders
              (Delivery-Step u w world i id out sent orders step)).0;
        store = world.store;
        traced = p.traced;
        known = p.known;
        sent =
            AllSent-Memᴰ ids orders sent w.requests all
              (λ m has. IsSent-later w.ids ids w.orders orders m drawn (kept m) (world.sent m has));
        answers = λ m has.
            IsReply-later w.ids ids w.orders orders w.inventory w.inventory m drawn (kept m)
              (λ j row h. h) (world.answers m has);
        stored = λ k row has.
            IsReply-later w.ids ids w.orders orders w.inventory w.inventory row.response drawn
              (kept row.response) (λ j row' h. h) (world.stored k row has);
        completed = λ j done. elim (p.completed j done) [
          | inl before ↦ world.completed j before
          | inr allowed ↦ allowed
        ];
      }

  answered-IsWorld :
      (d : ℕ) (task : ℕ) (result : RequestResult) (inventory : InventoryDb)
      → Answered (insert d (for_reply task) w.ids) w.orders w.inventory result inventory
      → IsWorld u.config (record {
        orders = w.orders;
        inventory = inventory;
        requests = w.requests;
        replies = result.reply ∷ w.replies;
        ids = insert d (for_reply task) w.ids;
      })
  answered-IsWorld d task result inventory a =
      let ids : Table Drawn = insert d (for_reply task) w.ids in
      let drawn : (k : ℕ) (x : Drawn) → get k w.ids ≡ some x → get k ids ≡ some x =
        λ k x. get-insert_old k d (for_reply task) x w.ids in
      let later : (m : MessageEnvelope) → Memᴰ m w.replies → IsReply ids w.orders inventory m =
        λ m has.
          IsReply-later w.ids ids w.orders w.orders w.inventory inventory m drawn (λ h. h) a.grown
            (world.answers m has) in
      record {
        inv = world.inv;
        store = a.store;
        traced = world.traced;
        known = AreKnown-drawn w.ids d (for_reply task) w.orders world.known;
        sent =
            λ m has. IsSent-later w.ids ids w.orders w.orders m drawn (λ h. h) (world.sent m has);
        answers =
            reply_or_older result.reply w.replies (IsReply ids w.orders inventory) a.reply later;
        stored = a.stored;
        completed =
            λ j done. let (row, found) = world.completed j done in (row, a.grown j row found);
      }
    where
      reply_or_older :
          (x : MessageEnvelope) (xs : List MessageEnvelope) (P : MessageEnvelope → Type 0)
          → P x
          → ((m : MessageEnvelope) → Memᴰ m xs → P m)
          → (m : MessageEnvelope) → Memᴰ m (x ∷ xs)
          → P m
      reply_or_older x xs P new old m (Memᴰ.head e) = subst P (sym e) new
      reply_or_older x xs P new old m (Memᴰ.tail has) = old m has

  -- A move of either service keeps what they keep together, and pays its decision from the budget of
  -- its task.
  pub Move-IsWorld :
      (sampled : Sampled) (id : ℕ) (out : Option DecisionOutcome) (after : World)
      → Move u sampled w id out after
      → IsWorld u.config after × Settled u.config id w.orders out after.orders
  Move-IsWorld sampled id out after (Move.delivered i sent orders fresh step e) = rw e (
    delivered-IsWorld i fresh id out sent orders step,
    Step-Settled u returns w.orders world.inv id out orders
        (Delivery-Step u w world i id out sent orders step),
  )
  Move-IsWorld sampled id out after
        (Move.answered fault d request order_id items result inventory has p undrawn e same o a) =
      rw (a, o)
        (
          answered-IsWorld d.message_id request.task_id result inventory (
              Post-result
                (Answered (insert d.message_id (for_reply request.task_id) w.ids) w.orders
                  w.inventory)
                (process_reservation_request (before_reservation sampled fault request) d request
                  order_id items w.inventory)
                result inventory e
                (answer-Answered sampled fault d request order_id items w.ids w.orders w.inventory
                  world.store world.stored (world.sent request has) undrawn)),
          (world.inv, omega arith, λ j other. refl),
        )

-- The moves of a run, with the task and the outcome of each
pub data Moves (u : Setup) (sampled : Sampled) : World → Trace → World → Type 0 where
  done : (w : World) → Moves u sampled w [] w
  next :
      (w mid after : World) (id : ℕ) (out : Option DecisionOutcome) (trace : Trace)
      → Move u sampled w id out mid
      → Moves u sampled mid trace after
      → Moves u sampled w ((id, out) ∷ trace) after

-- Both services with the stock of the experiment, before the first order
abbrev pub first_world : List String → World
first_world stock = record {
  orders = record { orders = []; tasks = []; processed_events = []; task_events = [] };
  inventory = record { stock = stock; reservations = []; processed_messages = [] };
  requests = [];
  replies = [];
  ids = [];
}

-- Nothing has happened yet, so nothing can be wrong.
pub first_world-IsWorld :
    (c : MessagingConfig) (stock : List String) → IsWorld c (first_world stock)
first_world-IsWorld c stock = record {
  inv = Inv-empty c;
  store =
      unfold get in
      record { backed = λ k row has. ground arith; all_reserved = λ k row has. ground arith };
  traced = λ j. unfold get Numbered last_seq in (tt, refl, λ no. absurd (no refl));
  known = unfold KnownRows in tt;
  sent = λ m has. elim has [ ];
  answers = λ m has. elim has [ ];
  stored = λ k row has. unfold get in ground arith;
  completed = λ j done. unfold get in ground arith;
}

module _ (u : Setup) (returns : EngineReturns u) (sampled : Sampled) where
  -- However the messages between the services are ordered, repeated, delayed or lost, the worlds that
  -- they reach keep what the first one keeps.
  pub Moves-IsWorld :
      (w : World) (trace : Trace) (after : World)
      → Moves u sampled w trace after
      → IsWorld u.config w
      → IsWorld u.config after
  Moves-IsWorld w trace after (Moves.done _) world = world
  Moves-IsWorld w trace after (Moves.next _ mid _ id out rest move moves) world =
      Moves-IsWorld mid rest after moves (Move-IsWorld u returns w world sampled id out mid move).0

  Moves-paid :
      (j : ℕ) (w : World) (trace : Trace) (after : World)
      → Moves u sampled w trace after
      → IsWorld u.config w
      → decisions_of j trace + budget u.config (get j after.orders.tasks)
        ≤ budget u.config (get j w.orders.tasks)
  unfolding decisions_of
  Moves-paid j w trace after (Moves.done _) world = omega arith
  Moves-paid j w trace after (Moves.next _ mid _ id out rest move moves) world =
      let (later, settled) = Move-IsWorld u returns w world sampled id out mid move in
      step_paid u j id w.orders mid.orders out (decisions_of j rest)
        (budget u.config (get j after.orders.tasks)) (ℕ_discrete j id) settled
        (Moves-paid j mid rest after moves later)

  pub Moves-decisions_bounded :
      (j : ℕ) (w : World) (trace : Trace) (after : World)
      → Moves u sampled w trace after
      → IsWorld u.config w
      → decisions_of j trace ≤ u.config.max_attempts + u.config.max_waits + 1
  Moves-decisions_bounded j w trace after moves world =
      omega
        (arith, Moves-paid j w trace after moves world, budget_within u.config w.orders world.inv j)

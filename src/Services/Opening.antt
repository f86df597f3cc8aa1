-- ===== src/Services/Opening.antt =====
-- The first transaction of a message, and the decision point that may follow it, seen from the messages.
use rule2llm_orch_lab.Prelude.{
  ℕ, ◌≡◌, ◌⊎◌, inl, inr, arith, Bool, true, false, Option, none, some, List, ok,
}
use rule2llm_orch_lab.Prelude.Table.{Table, get, insert, get-insert_self}
use rule2llm_orch_lab.Contract.Vocabulary.{Target}
use rule2llm_orch_lab.Contract.Envelope.{Item, MessageEnvelope}
use rule2llm_orch_lab.Orders.Db.{OrdersDb}
use rule2llm_orch_lab.Orders.Repositories.{
  create_order_with_task, next_order_number, is_event_processed,
}
use rule2llm_orch_lab.Orders.Executor.{Supply, execute}
use rule2llm_orch_lab.Orders.EventHandler.{handle_inventory_event, is_success}
use rule2llm_orch_lab.Orders.Internal.{register_timeout, finish_wait, handle_dead_letter}
use rule2llm_orch_lab.Orders.StateBuilder.{Observation}
use rule2llm_orch_lab.Orders.Orchestrator.{Setup, DecisionOutcome, handle_decision_point, carry_out}
use rule2llm_orch_lab.Orders.Numbering.{Traced, Recorded, first_seq}
use rule2llm_orch_lab.Orders.Numbering.Handlers.{
  timeout-Traced, timeout-Recorded, wait-Traced, wait-Recorded, dead_letter-Traced,
  dead_letter-Recorded, create-Traced, create-Recorded,
}
use rule2llm_orch_lab.Orders.Numbering.Quiet.{is_completed}
use rule2llm_orch_lab.Orders.Numbering.Events.{event-Traced, event-Kept}
use rule2llm_orch_lab.Orders.Numbering.Known.{
  Drawn, AreKnown, AreKnown-drawn, timeout-Known, wait-Known, dead_letter-Known, create-Known,
  event-Known, Owned-drawn, first_seq-unprocessed, first_seq-undrawn,
}
use rule2llm_orch_lab.Orders.Numbering.Decided.{Follows}
use rule2llm_orch_lab.Orders.Numbering.Completed.{
  timeout-CompletedIf, wait-CompletedIf, dead_letter-CompletedIf, create-CompletedIf,
  event-CompletedIf,
}
use rule2llm_orch_lab.Services.{for_request, for_reply}

-- The messages on record have kept their numbers and their identifiers, and a task that was completed
-- meanwhile was allowed to be.
pub record Passed (ids : Table Drawn) (allowed : ℕ → Type 0) (db after : OrdersDb) : Type 0 where
  pub traced : (j : ℕ) → Traced j after
  pub known : AreKnown ids after
  pub on_record :
      (j seq : ℕ) (target : Option Target)
      → Recorded j seq target db.task_events
      → Recorded j seq target after.task_events
  pub completed :
      (j : ℕ)
      → is_completed (get j after.tasks) ≡ true
      → (is_completed (get j db.tasks) ≡ true) ⊎ allowed j

module _ (ids : Table Drawn) (allowed : ℕ → Type 0) (db : OrdersDb) (traced : (j : ℕ) → Traced j db)
    (known : AreKnown ids db) where
  pub nothing-Passed : Passed ids allowed db db
  nothing-Passed = record {
    traced = traced;
    known = known;
    on_record = λ j seq target h. h;
    completed = λ j. inl;
  }

  abbrev IfAllowed : ℕ → Type 0
  IfAllowed j = (is_completed (get j db.tasks) ≡ true) ⊎ allowed j

  pub timeout-Passed :
      (id request now : ℕ) → Passed ids allowed db (register_timeout id request now db).1
  timeout-Passed id request now = record {
    traced = λ j. timeout-Traced id now db j (traced j) request;
    known = timeout-Known ids id now request db known;
    on_record = λ j seq target h. timeout-Recorded id now db j seq target h request;
    completed = λ j. timeout-CompletedIf (IfAllowed j) j id request now db inl;
  }

  pub wait-Passed :
      (id wait_count now : ℕ) → Passed ids allowed db (finish_wait id wait_count now db).1
  wait-Passed id wait_count now = record {
    traced = λ j. wait-Traced id now db j (traced j) wait_count;
    known = wait-Known ids id now wait_count db known;
    on_record = λ j seq target h. wait-Recorded id now db j seq target h wait_count;
    completed = λ j. wait-CompletedIf (IfAllowed j) j id wait_count now db inl;
  }

  pub dead_letter-Passed :
      (id : ℕ) (message_id : Option ℕ) (now : ℕ)
      → Passed ids allowed db (handle_dead_letter (some id) message_id now db).1
  dead_letter-Passed id message_id now = record {
    traced = λ j. dead_letter-Traced id now db j (traced j) message_id;
    known = dead_letter-Known ids id now message_id db known;
    on_record = λ j seq target h. dead_letter-Recorded id now db j seq target h message_id;
    completed = λ j. dead_letter-CompletedIf (IfAllowed j) j id message_id now db inl;
  }

  pub create-Passed :
      (execution_id now : ℕ) (items : List Item)
      → get (next_order_number db.orders) db.tasks ≡ none
      → Passed ids allowed db (create_order_with_task execution_id items now db).1
  create-Passed execution_id now items free = record {
    traced = λ j. create-Traced execution_id now items db j (traced j) free;
    known = create-Known ids (next_order_number db.orders) now execution_id items db known;
    on_record = λ j seq target h.
        create-Recorded (next_order_number db.orders) now db j seq target h execution_id items;
    completed = λ j. create-CompletedIf (IfAllowed j) j execution_id now items db free inl;
  }

  unprocessed :
      (k task : ℕ)
      → get k ids ≡ some (for_reply task)
      → is_event_processed db k ≡ false
      → first_seq task k db.task_events ≡ none
  unfolding is_event_processed
  unprocessed k task drawn new =
      first_seq-unprocessed ids db.processed_events db.task_events task k task known drawn
        (ground arith)

  -- A reply whose identifier was drawn for it
  pub event-Passed :
      (m : MessageEnvelope) (redelivered : Bool) (now : ℕ)
      → get m.message_id ids ≡ some (for_reply m.task_id)
      → (is_success m.event_type ≡ true → allowed m.task_id)
      → Passed ids allowed db (handle_inventory_event m redelivered now db).1
  event-Passed m redelivered now drawn backed = record {
    traced = λ j.
        event-Traced j m redelivered now db (traced j)
          (Owned-drawn ids db.processed_events db.task_events m.message_id (for_reply m.task_id)
            known drawn)
          (unprocessed m.message_id m.task_id drawn);
    known = event-Known ids m redelivered now drawn db known;
    on_record = λ j seq target. event-Kept j seq target m redelivered now db;
    completed = λ j.
        event-CompletedIf (IfAllowed j) j m now (λ success same. inr (rw same (backed success)))
          redelivered db inl;
  }

-- A further action, under an identifier that is drawn for it
pub Passed-Follows :
    (ids : Table Drawn) (allowed : ℕ → Type 0) (db mid after : OrdersDb) (id k : ℕ)
    → get k ids ≡ none
    → Passed ids allowed db mid
    → Follows id k mid after
    → Passed (insert k (for_request id) ids) allowed db after
Passed-Follows ids allowed db mid after id k fresh p f = record {
  traced = λ j.
      f.traced
        (λ task. first_seq-undrawn ids mid.processed_events mid.task_events task k p.known fresh) j
        (p.traced j);
  known =
      f.known (insert k (for_request id) ids) (get-insert_self k (for_request id) ids fresh)
        (AreKnown-drawn ids k (for_request id) mid p.known);
  on_record = λ j seq target h. f.on_record j seq target (p.on_record j seq target h);
  completed = λ j done. p.completed j (f.completed j done);
}

pub Passed-drawn :
    (ids : Table Drawn) (allowed : ℕ → Type 0) (db after : OrdersDb) (k : ℕ) (d : Drawn)
    → Passed ids allowed db after
    → Passed (insert k d ids) allowed db after
Passed-drawn ids allowed db after k d p = record {
  traced = p.traced;
  known = AreKnown-drawn ids k d after p.known;
  on_record = p.on_record;
  completed = p.completed;
}

module _ (u : Setup) (o : Observation) (i : Supply) (id decision_id : ℕ) (db after : OrdersDb) where
  -- A decision point that returned has carried out a decision.
  pub decision_point-executed :
      (x : DecisionOutcome)
      → handle_decision_point u o i id decision_id db ≡ (ok x, after)
      → execute u.config i x.executed id decision_id db ≡ (ok x.execution, after)
  unfolding handle_decision_point carry_out
  decision_point-executed x e = grind arith

-- ===== src/Services/Answers.antt =====
-- What an answer of the inventory-service does to the messages between the services.
use mathlib.Core.Path.{subst}
use rule2llm_orch_lab.Prelude.{
  ℕ, String, settle, ℕ_discrete, ◌≡◌, ◌∙◌, inl, inr, sym, arith, true, Option, none, some, List, [],
  ◌∷◌, ok, err, Post, Option-cases, Result,
}
use rule2llm_orch_lab.Prelude.Table.{Table, get, insert, get-insert_self, get-insert_old}
use rule2llm_orch_lab.Contract.Vocabulary.{TaskResult}
use rule2llm_orch_lab.Contract.Envelope.{Item, MessageEnvelope, build_envelope}
use rule2llm_orch_lab.Orders.Db.{OrdersDb}
use rule2llm_orch_lab.Orders.EventHandler.{is_handled}
use rule2llm_orch_lab.Orders.Numbering.{IsOnRecord}
use rule2llm_orch_lab.Orders.Numbering.Known.{Drawn}
use rule2llm_orch_lab.Orders.Numbering.Published.{IsSent}
use rule2llm_orch_lab.Inventory.Db.{
  InventoryDb, ReservationRow, ProcessedRow, insert_processed_message,
}
use rule2llm_orch_lab.Inventory.Processing.{FaultControl, before_reservation}
use rule2llm_orch_lab.Inventory.Service.{
  RequestResult, Draw, process_reservation_request, answer_request, reserve, reserve_unharmed,
  reserve_now, finish,
}
use rule2llm_orch_lab.Inventory.Store.{IsStore, Served}
use rule2llm_orch_lab.Inventory.Answers.{process-Served, Served-IsStore, duplicate}
use rule2llm_orch_lab.Services.{for_request, for_reply, IsReply, Sampled}

-- A fresh answer has the identifier that was drawn for it, and one of the two types that the orders-
-- service handles.
abbrev Fresh : Draw → RequestResult → InventoryDb → Type 0
Fresh d out after = (out.reply.message_id ≡ d.message_id) × (is_handled out.reply.event_type ≡ true)

abbrev IfFresh : Draw → Result RequestResult × InventoryDb → Type 0
IfFresh d (ok out, after) = Fresh d out after
IfFresh d (err e, after) = Unit

module _ (d : Draw) (request : MessageEnvelope) (order_id : ℕ) (items : List Item)
    (db : InventoryDb) (fresh : get request.message_id db.processed_messages ≡ none) where
  unharmed-Fresh :
      (row : Option ReservationRow) (skus : List String)
      → IfFresh d (reserve_unharmed row skus d request order_id items db)
  unfolding reserve_unharmed reserve_now finish build_envelope insert_processed_message
  unharmed-Fresh none [] = ground arith
  unharmed-Fresh none (s ∷ ss) = ground arith
  unharmed-Fresh (some row) skus = ground arith

  reserve-Fresh :
      (injected : Option TaskResult) → IfFresh d (reserve injected d request order_id items db)
  unfolding reserve finish build_envelope insert_processed_message
  reserve-Fresh none = unharmed-Fresh _ _
  reserve-Fresh (some failure) = ground arith

  settle-Fresh : (r : Result RequestResult × InventoryDb) → IfFresh d r → IfFresh d (settle r db)
  settle-Fresh (ok out, after) h = h
  settle-Fresh (err e, after) h = tt

  pub process-Fresh :
      (injected : Option TaskResult)
      → IfFresh d (process_reservation_request injected d request order_id items db)
  unfolding process_reservation_request answer_request
  process-Fresh injected =
      rw fresh
        (settle-Fresh (reserve injected d request order_id items db) (reserve-Fresh injected))

-- What was published stays what it is.
pub IsReply-later :
    (ids later : Table Drawn) (orders after : OrdersDb) (inventory stock : InventoryDb)
    (m : MessageEnvelope)
    → ((k : ℕ) (d : Drawn) → get k ids ≡ some d → get k later ≡ some d)
    → (IsOnRecord m orders → IsOnRecord m after)
    → ((j : ℕ) (row : ReservationRow)
        → get j inventory.reservations ≡ some row
        → get j stock.reservations ≡ some row)
    → IsReply ids orders inventory m
    → IsReply later after stock m
IsReply-later ids later orders after inventory stock m drawn kept grown r = record {
  handled = r.handled;
  on_record = kept r.on_record;
  drawn = drawn m.message_id (for_reply m.task_id) r.drawn;
  backed = (
    r.backed.0,
    λ success. let (row, found, p) = r.backed.1 success in (row, grown _ row found, p),
  );
}

pub IsSent-later :
    (ids later : Table Drawn) (orders after : OrdersDb) (m : MessageEnvelope)
    → ((k : ℕ) (d : Drawn) → get k ids ≡ some d → get k later ≡ some d)
    → (IsOnRecord m orders → IsOnRecord m after)
    → IsSent ids orders m
    → IsSent later after m
IsSent-later ids later orders after m drawn kept s = record {
  message = s.message;
  is_request = s.is_request;
  on_record = kept s.on_record;
  drawn = drawn m.message_id (for_request m.task_id) s.drawn;
}

-- What the inventory-service leaves, with the answer that it publishes
pub record Answered (ids : Table Drawn) (orders : OrdersDb) (db : InventoryDb) (out : RequestResult)
    (after : InventoryDb) : Type 0 where
  pub store : IsStore after
  pub grown :
      (j : ℕ) (row : ReservationRow)
      → get j db.reservations ≡ some row
      → get j after.reservations ≡ some row
  pub reply : IsReply ids orders after out.reply
  pub stored :
      (k : ℕ) (row : ProcessedRow)
      → get k after.processed_messages ≡ some row
      → IsReply ids orders after row.response

-- The answer to a request, once it is published
module _ (sampled : Sampled) (fault : Option FaultControl) (d : Draw) (request : MessageEnvelope)
    (order_id : ℕ) (items : List Item) (ids : Table Drawn) (orders : OrdersDb) (db : InventoryDb)
    (store : IsStore db)
    (stored : (k : ℕ) (row : ProcessedRow)
      → get k db.processed_messages ≡ some row
      → IsReply ids orders db row.response)
    (sent : IsSent ids orders request) (undrawn : get d.message_id ids ≡ none) where
  abbrev later_ids : Table Drawn
  later_ids = insert d.message_id (for_reply request.task_id) ids

  kept : (k : ℕ) (x : Drawn) → get k ids ≡ some x → get k later_ids ≡ some x
  kept k x has = get-insert_old k d.message_id (for_reply request.task_id) x ids has

  again :
      (m : MessageEnvelope) (after : InventoryDb)
      → ((j : ℕ) (row : ReservationRow)
          → get j db.reservations ≡ some row
          → get j after.reservations ≡ some row)
      → IsReply ids orders db m
      → IsReply later_ids orders after m
  again m after = IsReply-later ids later_ids orders orders db after m kept (λ h. h)

  named :
      (out : RequestResult) (after : InventoryDb)
      → Served request db out after
      → Fresh d out after
      → IsReply later_ids orders after out.reply
  named out after served fresh = record {
    handled = fresh.1;
    on_record = rw (served.names.0, served.names.1, served.names.3) sent.on_record;
    drawn =
        rw (fresh.0, served.names.0)
          (get-insert_self d.message_id (for_reply request.task_id) ids undrawn);
    backed = served.backed;
  }

  Served-Answered :
      (out : RequestResult) (after : InventoryDb)
      → Served request db out after
      → Fresh d out after
      → Answered later_ids orders db out after
  Served-Answered out after served fresh = record {
    store = Served-IsStore request db out after store served;
    grown = served.grown;
    reply = named out after served fresh;
    stored = λ k row has. elim (ℕ_discrete k request.message_id) [
      | yes e ↦
          let same : row.response ≡ out.reply =
            let (mine, found, p) = served.stored in
            let one : get request.message_id after.processed_messages ≡ some row =
              subst (λ k. get k after.processed_messages ≡ some row) e has in
            cc in
          subst (IsReply later_ids orders after) (sym same) (named out after served fresh)
      | no ne ↦ again row.response after served.grown (stored k row (sym (served.kept k ne) ∙ has))
    ];
  }

  -- Every request that is published is answered, and the answers stay answers.
  pub answer-Answered : Post (Answered later_ids orders db) (
      process_reservation_request
        (before_reservation sampled fault request)
        d
        request
        order_id
        items
        db)
  answer-Answered = elim (Option-cases (get request.message_id db.processed_messages)) [
    | inl fresh ↦
        go _ (process-Served d request order_id items db store sent.message fresh sampled fault) (
          process-Fresh d request order_id items db fresh
            (before_reservation sampled fault request))
    | inr (previous, has) ↦
        rw
          (duplicate request db previous has (before_reservation sampled fault request) d order_id
            items)
          (record {
            store = store;
            grown = λ j row h. h;
            reply =
                again previous.response db (λ j row h. h) (stored request.message_id previous has);
            stored = λ k row found. again row.response db (λ j row h. h) (stored k row found);
          })
  ]
    where
      go :
          (r : Result RequestResult × InventoryDb)
          → Post (Served request db) r
          → IfFresh d r
          → Post (Answered later_ids orders db) r
      go (ok out, after) served fresh = Served-Answered out after served fresh
      go (err e, after) served fresh = served

-- ===== src/Inventory/Answers.antt =====
-- The requests that the inventory-service answers, fresh ones and redelivered ones.
use mathlib.Core.Path.{subst}
use rule2llm_orch_lab.Prelude.{
  ℕ, ℕ_discrete, String, ◌≡◌, refl, sym, ◌∙◌, inl, inr, Bool, true, Option, none, some, List, [],
  ◌∷◌, Post, Post-transaction, Post-mono, Option-cases, Result, ok, map,
}
use rule2llm_orch_lab.Prelude.Table.{get}
use rule2llm_orch_lab.Contract.Vocabulary.{TaskResult}
use rule2llm_orch_lab.Contract.Envelope.{Item, MessageEnvelope, is_message, is_failure_reason}
use rule2llm_orch_lab.Inventory.Db.{
  InventoryDb, ReservationRow, ProcessedRow, unknown_skus, if_reserved,
}
use rule2llm_orch_lab.Inventory.Processing.{FaultControl, before_reservation, injected_transient}
use rule2llm_orch_lab.Inventory.Service.{
  RequestOutcome, RequestResult, Draw, reserve, reserve_unharmed, answer_request,
  process_reservation_request,
}
use rule2llm_orch_lab.Inventory.Store.{
  Backed, IsStore, Served, failed-Served, succeeded-Served, reserved-Served,
}

module _ (d : Draw) (request : MessageEnvelope) (order_id : ℕ) (items : List Item)
    (db : InventoryDb) (store : IsStore db) (message : is_message request ≡ true)
    (fresh : get request.message_id db.processed_messages ≡ none) where
  unharmed-Served :
      (t : Option ReservationRow) (unknown : List String)
      → get request.task_id db.reservations ≡ t
      → Post
          (Served request db)
          (reserve_unharmed (if_reserved t) unknown d request order_id items db)
  unfolding reserve_unharmed
  unharmed-Served none [] e = reserved-Served d request order_id items db store message fresh e
  unharmed-Served none (sku ∷ skus) e =
      failed-Served d request order_id items db store message fresh RequestOutcome.invalid_data
        TaskResult.invalid_data refl
  unharmed-Served (some row) unknown e = rw (store.all_reserved request.task_id row e) (
      succeeded-Served d request order_id items db store message fresh
        RequestOutcome.already_reserved row db refl e (λ k old has. has) store.all_reserved)

  reserve-Served :
      (injected : Option TaskResult)
      → ((failure : TaskResult) → injected ≡ some failure → is_failure_reason failure ≡ true)
      → Post (Served request db) (reserve injected d request order_id items db)
  unfolding reserve
  reserve-Served none allowed =
      unharmed-Served (get request.task_id db.reservations)
        (unknown_skus db.stock (map (λ (i : Item). i.sku) items)) refl
  reserve-Served (some failure) allowed =
      failed-Served d request order_id items db store message fresh RequestOutcome.transient_error
        failure (allowed failure refl)

  -- A request in the contract whose message was not processed yet raises nothing, whatever fault is
  -- active: its answer is in the contract, names the request and is stored; a success is backed by a
  -- reservation of the task with the same order and route; no reservation is lost.
  pub process-Served :
      (sampled : ℕ → ℕ → ℕ → ℕ → Bool) (fault : Option FaultControl)
      → Post (Served request db) (
          process_reservation_request
            (before_reservation sampled fault request)
            d
            request
            order_id
            items
            db)
  unfolding process_reservation_request answer_request
  process-Served sampled fault =
      Post-transaction (Served request db)
        (λ s.
          answer_request (get request.message_id s.processed_messages)
            (before_reservation sampled fault request) d request order_id items s)
        db
        (rw fresh (
          reserve-Served (before_reservation sampled fault request)
            (λ failure e. rw (injected_transient sampled fault request failure e) refl)))

stored_reply :
    (db : InventoryDb) (reply : MessageEnvelope) (k : ℕ) (row stored : ProcessedRow)
    → get k db.processed_messages ≡ some stored
    → stored.response ≡ reply
    → get k db.processed_messages ≡ some row
    → row.response ≡ reply
stored_reply db reply k row stored a e b = cc

-- What a fresh answer leaves is a store again.
pub Served-IsStore :
    (request : MessageEnvelope) (db : InventoryDb) (out : RequestResult) (after : InventoryDb)
    → IsStore db
    → Served request db out after
    → IsStore after
Served-IsStore request db out after store served = record {
  backed = λ k row has. elim (ℕ_discrete k request.message_id) [
    | yes e ↦
        let same : row.response ≡ out.reply =
          stored_reply after out.reply k row served.stored.0 (rw e served.stored.1) served.stored.2
            has in
        subst (Backed after) (sym same) served.backed
    | no ne ↦
        let old = store.backed k row (sym (served.kept k ne) ∙ has) in
        (old.0, λ success. let (r, found, p) = old.1 success in (r, served.grown _ r found, p))
  ];
  all_reserved = served.all_reserved;
}

pub duplicate :
    (request : MessageEnvelope) (db : InventoryDb) (previous : ProcessedRow)
    → get request.message_id db.processed_messages ≡ some previous
    → (injected : Option TaskResult) (d : Draw) (order_id : ℕ) (items : List Item)
    → process_reservation_request injected d request order_id items db
      ≡ (ok (record { outcome = RequestOutcome.duplicate_message; reply = previous.response }), db)
unfolding process_reservation_request answer_request
duplicate request db previous has injected d order_id items = rw has refl

module _ (sampled : ℕ → ℕ → ℕ → ℕ → Bool) (fault : Option FaultControl) (d : Draw)
    (request : MessageEnvelope) (order_id : ℕ) (items : List Item) (db : InventoryDb)
    (store : IsStore db) (message : is_message request ≡ true) where
  abbrev first : Result RequestResult × InventoryDb
  first =
      process_reservation_request (before_reservation sampled fault request) d request order_id
        items db

  -- Every request in the contract, fresh or not, is answered without a raise; the answer is in the
  -- contract, a success is backed by a reservation of its task, and the store stays one.
  pub process-IsStore : Post (λ out after. IsStore after × Backed after out.reply) first
  process-IsStore = elim (Option-cases (get request.message_id db.processed_messages)) [
    | inl fresh ↦
        Post-mono (Served request db) (λ out after. IsStore after × Backed after out.reply) first
          (λ out after served. (Served-IsStore request db out after store served, served.backed))
          (process-Served d request order_id items db store message fresh sampled fault)
    | inr (previous, has) ↦
        rw
          (duplicate request db previous has (before_reservation sampled fault request) d order_id
            items)
          (store, store.backed request.message_id previous has)
  ]

  -- A message that is delivered again gets the same answer again, and changes nothing, whatever the
  -- fault, the clock and the identifiers of the second delivery are.
  pub redelivery_repeats :
      Post
        (λ out after.
          (injected : Option TaskResult) (again : Draw)
          → process_reservation_request injected again request order_id items after ≡ (
            ok (record { outcome = RequestOutcome.duplicate_message; reply = out.reply }),
            after,
          ))
        first
  redelivery_repeats = elim (Option-cases (get request.message_id db.processed_messages)) [
    | inl fresh ↦
        Post-mono (Served request db)
          (λ out after.
            (injected : Option TaskResult) (again : Draw)
            → process_reservation_request injected again request order_id items after ≡ (
              ok (record { outcome = RequestOutcome.duplicate_message; reply = out.reply }),
              after,
            ))
          first
          (λ out after served injected again.
            let (row, has, same) = served.stored in
            rw⁻¹ same (duplicate request after row has injected again order_id items))
          (process-Served d request order_id items db store message fresh sampled fault)
    | inr (previous, has) ↦
        rw
          (duplicate request db previous has (before_reservation sampled fault request) d order_id
            items)
          (λ injected again. duplicate request db previous has injected again order_id items)
  ]

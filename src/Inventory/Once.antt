-- ===== src/Inventory/Once.antt =====
-- When the inventory-service reserves, and how often
-- (services/inventory/app/reservation/service.py).
use mathlib.Core.Logic.{◌↔◌}
use rule2llm_orch_lab.Prelude.{
  ℕ, String, ◌≡◌, ◌≢◌, ◌≤◌, ◌+◌, refl, Bool, Option, none, some, List, [], ◌∷◌, arith, Result, ok,
  err, map, if◌then◌else◌, ◌==◌,
}
use rule2llm_orch_lab.Prelude.Table.{get, get-insert_self, get-insert_ne}
use rule2llm_orch_lab.Contract.Vocabulary.{TaskResult}
use rule2llm_orch_lab.Contract.Envelope.{Item, MessageEnvelope, build_envelope}
use rule2llm_orch_lab.Inventory.Db.{
  InventoryDb, ReservationRow, ProcessedRow, unknown_skus, insert_processed_message,
  insert_reservation,
}
use rule2llm_orch_lab.Inventory.Processing.{FaultControl, before_reservation}
use rule2llm_orch_lab.Inventory.Service.{
  RequestOutcome, RequestResult, Draw, reserve, reserve_now, reserve_unharmed, answer_request,
  process_reservation_request, finish,
}

-- One request, with the fault that is active and what is drawn for it
pub record Call : Type 0 where
  pub fault : Option FaultControl
  pub draw : Draw
  pub request : MessageEnvelope
  pub order_id : ℕ
  pub items : List Item

abbrev pub serve : (ℕ → ℕ → ℕ → ℕ → Bool) → Call → InventoryDb → Result RequestResult × InventoryDb
serve sampled x db =
    process_reservation_request (before_reservation sampled x.fault x.request) x.draw x.request
      x.order_id x.items db

-- A reservation that was made
abbrev reservations : Result RequestResult → ℕ
reservations (ok out) = elim out.outcome [ RequestOutcome.reserved ↦ 1 | _ ↦ 0 ]
reservations (err e) = 0

-- How often a sequence of requests reserves for task `j`
unfoldable pub times_reserved : (ℕ → ℕ → ℕ → ℕ → Bool) → ℕ → List Call → InventoryDb → ℕ
times_reserved sampled j [] db = 0
times_reserved sampled j (x ∷ xs) db =
    (if x.request.task_id == j then reservations (serve sampled x db).0 else 0)
    + times_reserved sampled j xs (serve sampled x db).1

-- What a task may still reserve
abbrev pub free : Option ReservationRow → ℕ
free none = 1
free (some row) = 0

module _ (d : Draw) (request : MessageEnvelope) (order_id : ℕ) (items : List Item) (j : ℕ)
    (db : InventoryDb) where
  abbrev Paid : Result RequestResult × InventoryDb → Type 0
  Paid r =
      (if request.task_id == j then reservations r.0 else 0) + free (get j r.1.reservations)
      ≤ free (get j db.reservations)

  answer-Paid :
      (injected : Option TaskResult) (p : Option ProcessedRow) (t : Option ReservationRow)
      (unknown : List String)
      → get request.message_id db.processed_messages ≡ p
      → get request.task_id db.reservations ≡ t
      → unknown_skus db.stock (map (λ (i : Item). i.sku) items) ≡ unknown
      → Paid (process_reservation_request injected d request order_id items db)
  unfolding process_reservation_request answer_request reserve reserve_unharmed reserve_now finish
      insert_processed_message insert_reservation build_envelope
  answer-Paid injected (some p) t unknown a b e = ground arith
  answer-Paid (some f) none t unknown a b e = ground arith
  answer-Paid none none (some row) unknown a b e = ground arith
  answer-Paid none none none (sku ∷ skus) a b e = ground arith
  answer-Paid none none none [] a b e = grind (arith, get-insert_self, get-insert_ne)

-- However often a task is asked for, under any messages, faults, draws and items, in the contract or
-- not: it is reserved at most once, and not at all if it has a reservation already.
pub reserved_at_most_once :
    (sampled : ℕ → ℕ → ℕ → ℕ → Bool) (j : ℕ) (calls : List Call) (db : InventoryDb)
    → times_reserved sampled j calls db ≤ free (get j db.reservations)
unfolding times_reserved
reserved_at_most_once sampled j [] db = omega arith
reserved_at_most_once sampled j (x ∷ xs) db =
    let after = (serve sampled x db).1 in
    let paid =
      answer-Paid x.draw x.request x.order_id x.items j db
        (before_reservation sampled x.fault x.request)
        (get x.request.message_id db.processed_messages) (get x.request.task_id db.reservations)
        (unknown_skus db.stock (map (λ (i : Item). i.sku) x.items)) refl refl refl in
    omega (arith, paid, reserved_at_most_once sampled j xs after)

module _ (sampled : ℕ → ℕ → ℕ → ℕ → Bool) (x : Call) (db : InventoryDb) where
  -- What a request needs to reserve
  abbrev pub MayReserve : Type 0
  MayReserve =
      (get x.request.message_id db.processed_messages ≡ none)
      × (before_reservation sampled x.fault x.request ≡ none)
      × (get x.request.task_id db.reservations ≡ none)
      × (unknown_skus db.stock (map (λ (i : Item). i.sku) x.items) ≡ [])

  abbrev pub ReservesIff : RequestResult → InventoryDb → Type 0
  ReservesIff out after =
      (out.outcome ≡ RequestOutcome.reserved ↔ MayReserve)
      × (out.outcome ≢ RequestOutcome.reserved → after.reservations ≡ db.reservations)

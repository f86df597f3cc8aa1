-- ===== src/Inventory/Store.antt =====
-- What `process_reservation_request` of services/inventory/app/reservation/service.py leaves in
-- `inventory.db`, one branch at a time.
use mathlib.Core.Path.{subst}
use rule2llm_orch_lab.Prelude.{
  sym, ℕ, ◌≡◌, ◌≢◌, refl, ap, ◌∙◌, true, none, some, List, arith, Post, ok, ◌>>=◌,
}
use rule2llm_orch_lab.Prelude.Table.{get, insert, get-insert_self, get-insert_ne, get-insert_old}
use rule2llm_orch_lab.Contract.Vocabulary.{EventType, TaskResult}
use rule2llm_orch_lab.Contract.Envelope.{
  Item, MessageEnvelope, reservation_result, is_message, is_failure_reason, build_envelope,
  validate_payload,
}
use rule2llm_orch_lab.Inventory.Db.{
  InventoryDb, ReservationRow, ProcessedRow, ProcessingResult, ReservationStatus,
  insert_reservation, insert_processed_message,
}
use rule2llm_orch_lab.Inventory.Service.{
  RequestOutcome, RequestResult, Draw, failed_event, succeeded_event, reserve_by_route, finish,
  reserve_now,
}

-- A success is backed by a reservation of its task, with the same order and route.
abbrev pub Backed : InventoryDb → MessageEnvelope → Type 0
Backed db reply =
    (is_message reply ≡ true)
    × (reply.event_type ≡ EventType.stock_reservation_succeeded
        → (row : ReservationRow) × (get reply.task_id db.reservations ≡ some row)
          × (reply.payload ≡ reservation_result row.order_id row.route))

-- Every stored answer is backed, and every row of `reservations` is a reservation.
pub record IsStore (db : InventoryDb) : Type 0 where
  pub backed :
      (message_id : ℕ) (row : ProcessedRow)
      → get message_id db.processed_messages ≡ some row
      → Backed db row.response
  pub all_reserved :
      (task_id : ℕ) (row : ReservationRow)
      → get task_id db.reservations ≡ some row
      → row.status ≡ ReservationStatus.reserved

-- The answer to a fresh request names it.
abbrev pub Names : MessageEnvelope → MessageEnvelope → Type 0
Names request reply =
    (reply.task_id ≡ request.task_id)
    × (reply.event_seq ≡ request.event_seq)
    × (reply.attempt_number ≡ request.attempt_number)
    × (reply.target ≡ request.target)

-- What a fresh request leaves: its answer is stored, and no reservation that was there is lost.
pub record Served (request : MessageEnvelope) (db : InventoryDb) (out : RequestResult)
    (after : InventoryDb) : Type 0 where
  pub names : Names request out.reply
  pub backed : Backed after out.reply
  pub stored :
      (row : ProcessedRow) × (get request.message_id after.processed_messages ≡ some row)
      × (row.response ≡ out.reply)
  pub kept :
      (message_id : ℕ)
      → message_id ≢ request.message_id
      → get message_id after.processed_messages ≡ get message_id db.processed_messages
  pub grown :
      (task_id : ℕ) (row : ReservationRow)
      → get task_id db.reservations ≡ some row
      → get task_id after.reservations ≡ some row
  pub all_reserved :
      (task_id : ℕ) (row : ReservationRow)
      → get task_id after.reservations ≡ some row
      → row.status ≡ ReservationStatus.reserved

-- The row that `finish` writes
abbrev processed_row : Draw → MessageEnvelope → ProcessingResult → MessageEnvelope → ProcessedRow
processed_row d request result reply = record {
  task_id = request.task_id;
  event_type = request.event_type;
  result = result;
  response = reply;
  processed_at = d.now;
}

-- The row that `reserve_now` writes
abbrev reservation_row : Draw → MessageEnvelope → ℕ → List Item → ReservationRow
reservation_row d request order_id items = record {
  order_id = order_id;
  status = ReservationStatus.reserved;
  route = (reserve_by_route request.target items).route;
  items = items;
  created_at = d.now;
}

finish-stores :
    (d : Draw) (request : MessageEnvelope) (outcome : RequestOutcome) (result : ProcessingResult)
    (reply : MessageEnvelope) (mid : InventoryDb)
    → get request.message_id mid.processed_messages ≡ none
    → finish d request outcome result reply mid ≡ (
      ok (record { outcome = outcome; reply = reply }),
      record mid {
        processed_messages =
            insert request.message_id (processed_row d request result reply) mid.processed_messages;
      },
    )
unfolding finish insert_processed_message
finish-stores d request outcome result reply mid fresh = ground arith

module _ (d : Draw) (request : MessageEnvelope) (db : InventoryDb)
    (fresh : get request.message_id db.processed_messages ≡ none) where
  -- Once the reservations are right, the answer is stored.
  finish-Served :
      (outcome : RequestOutcome) (result : ProcessingResult) (reply : MessageEnvelope)
      (mid : InventoryDb)
      → mid.processed_messages ≡ db.processed_messages
      → Names request reply
      → Backed mid reply
      → ((task_id : ℕ) (row : ReservationRow)
          → get task_id db.reservations ≡ some row
          → get task_id mid.reservations ≡ some row)
      → ((task_id : ℕ) (row : ReservationRow)
          → get task_id mid.reservations ≡ some row
          → row.status ≡ ReservationStatus.reserved)
      → Post (Served request db) (finish d request outcome result reply mid)
  finish-Served outcome result reply mid same names backed grown all =
      let e : get request.message_id mid.processed_messages ≡ none = cc in
      subst (Post (Served request db)) (sym (finish-stores d request outcome result reply mid e))
        (record {
          names = names;
          backed = backed;
          stored = (_, get-insert_self request.message_id _ mid.processed_messages e, refl);
          kept = λ k other.
              get-insert_ne k request.message_id _ mid.processed_messages other
              ∙ ap (λ t. get k t) same;
          grown = grown;
          all_reserved = all;
        })

module _ (d : Draw) (request : MessageEnvelope) (order_id : ℕ) (items : List Item)
    (db : InventoryDb) (store : IsStore db) (message : is_message request ≡ true)
    (fresh : get request.message_id db.processed_messages ≡ none) where
  pub failed-Served :
      (outcome : RequestOutcome) (reason : TaskResult)
      → is_failure_reason reason ≡ true
      → Post (Served request db) (
          (failed_event d request order_id reason >>= λ reply.
          finish d request outcome ProcessingResult.failed reply)
            db)
  unfolding build_envelope is_message validate_payload
  failed-Served outcome reason allowed =
      grind (arith, finish-Served d request db fresh, store.all_reserved)

  pub succeeded-Served :
      (outcome : RequestOutcome) (row : ReservationRow) (mid : InventoryDb)
      → mid.processed_messages ≡ db.processed_messages
      → get request.task_id mid.reservations ≡ some row
      → ((task_id : ℕ) (old : ReservationRow)
          → get task_id db.reservations ≡ some old
          → get task_id mid.reservations ≡ some old)
      → ((task_id : ℕ) (old : ReservationRow)
          → get task_id mid.reservations ≡ some old
          → old.status ≡ ReservationStatus.reserved)
      → Post (Served request db) (
          (succeeded_event d request row.order_id row.route >>= λ reply.
          finish d request outcome ProcessingResult.succeeded reply)
            mid)
  unfolding build_envelope is_message validate_payload
  succeeded-Served outcome row mid same has grown all =
      grind (arith, finish-Served d request db fresh, has, grown, all)

  reserve_now-reserves :
      get request.task_id db.reservations ≡ none
      → reserve_now d request order_id items db
        ≡ (succeeded_event d request order_id (reserve_by_route request.target items).route
              >>= λ reply.
                  finish d request RequestOutcome.reserved ProcessingResult.succeeded reply)
            (record db {
              reservations =
                  insert request.task_id (reservation_row d request order_id items) db.reservations;
            })
  unfolding reserve_now insert_reservation
  reserve_now-reserves free = ground arith

  pub reserved-Served :
      get request.task_id db.reservations ≡ none
      → Post (Served request db) (reserve_now d request order_id items db)
  reserved-Served free =
      let row = reservation_row d request order_id items in
      let mid : InventoryDb = record db {
        reservations = insert request.task_id row db.reservations;
      } in
      subst (Post (Served request db)) (sym (reserve_now-reserves free)) (
        succeeded-Served RequestOutcome.reserved row mid refl
          (get-insert_self request.task_id row db.reservations free)
          (λ k old has. get-insert_old k request.task_id row old db.reservations has)
          (λ k old has. grind (arith, get-insert_self, get-insert_ne, store.all_reserved)))

-- ===== src/Inventory/Service.antt =====
-- services/inventory/app/reservation: `service.py`, `primary.py` and `fallback.py`, the answer to one
-- request. The answer is published after the commit.
use rule2llm_orch_lab.Prelude.{
  ℕ, String, Option, none, some, List, [], ◌∷◌, Action, pure, gets, transaction, ◌>>=◌, ◌>>◌, map,
}
use rule2llm_orch_lab.Contract.Vocabulary.{EventType, TaskResult, Target}
use rule2llm_orch_lab.Contract.Envelope.{
  Item, ReservationRoute, MessageEnvelope, Payload, reservation_result, reservation_failed,
  build_envelope,
}
use rule2llm_orch_lab.Inventory.Db.{
  InventoryDb, ReservationRow, ReservationStatus, ProcessedRow, ProcessingResult,
  find_processed_message, find_reservation, unknown_skus, insert_reservation,
  insert_processed_message,
}

-- `RequestOutcome`
pub data RequestOutcome : Type 0 where
  reserved duplicate_message already_reserved invalid_data transient_error : RequestOutcome

-- `RequestResult`
pub record RequestResult : Type 0 where
  pub outcome : RequestOutcome
  pub reply : MessageEnvelope

-- The identifier and the time that `build_envelope` draws, and `now`.
pub record Draw : Type 0 where
  pub message_id : ℕ
  pub published_at : ℕ
  pub now : ℕ

-- `ReservationOutcome`
pub record ReservationOutcome : Type 0 where
  pub route : ReservationRoute
  pub status : ReservationStatus

-- `reserve_primary`
abbrev pub reserve_primary : List Item → ReservationOutcome
reserve_primary items = record {
  route = ReservationRoute.primary;
  status = ReservationStatus.reserved;
}

-- `reserve_fallback`
abbrev pub reserve_fallback : List Item → ReservationOutcome
reserve_fallback items = record {
  route = ReservationRoute.fallback;
  status = ReservationStatus.reserved;
}

-- `_reserve_by_route`
abbrev pub reserve_by_route : Option Target → List Item → ReservationOutcome
reserve_by_route (some Target.inventory_fallback) items = reserve_fallback items
reserve_by_route _ items = reserve_primary items

-- `_route_name`
abbrev pub route_name : Option Target → ReservationRoute
route_name (some Target.inventory_fallback) = ReservationRoute.fallback
route_name _ = ReservationRoute.primary

-- What the two answers share: the request is repeated, with a fresh identifier.
abbrev pub answer : Draw → MessageEnvelope → EventType → Payload → MessageEnvelope
answer d request event_type payload = record {
  execution_id = request.execution_id;
  message_id = d.message_id;
  task_id = request.task_id;
  event_type = event_type;
  event_seq = request.event_seq;
  attempt_number = request.attempt_number;
  published_at = d.published_at;
  decision_id = request.decision_id;
  target = request.target;
  payload = payload;
}

-- `_succeeded_event`
abbrev pub succeeded_event :
    Draw → MessageEnvelope → ℕ → ReservationRoute → Action InventoryDb MessageEnvelope
succeeded_event d request order_id route db = (
  build_envelope
      (answer d request EventType.stock_reservation_succeeded (reservation_result order_id route)),
  db,
)

-- `_failed_event`
abbrev pub failed_event :
    Draw → MessageEnvelope → ℕ → TaskResult → Action InventoryDb MessageEnvelope
failed_event d request order_id reason db = (
  build_envelope (
      answer d request EventType.stock_reservation_failed
        (reservation_failed order_id (route_name request.target) reason)),
  db,
)

-- The last statements of `_reserve`: the message is processed, with its answer.
unfoldable pub finish :
    Draw
    → MessageEnvelope
    → RequestOutcome
    → ProcessingResult
    → MessageEnvelope
    → Action InventoryDb RequestResult
unfolding insert_processed_message
finish d request outcome result reply = do
  insert_processed_message request.message_id (record {
    task_id = request.task_id;
    event_type = request.event_type;
    result = result;
    response = reply;
    processed_at = d.now;
  })
  pure (record { outcome = outcome; reply = reply })

-- The branch of `_reserve` that reserves
unfoldable pub reserve_now :
    Draw → MessageEnvelope → ℕ → List Item → Action InventoryDb RequestResult
unfolding finish insert_reservation build_envelope
reserve_now d request order_id items = do
  let reservation = reserve_by_route request.target items
  reply ← succeeded_event d request order_id reservation.route
  insert_reservation request.task_id (record {
    order_id = order_id;
    status = ReservationStatus.reserved;
    route = reservation.route;
    items = items;
    created_at = d.now;
  })
  finish d request RequestOutcome.reserved ProcessingResult.succeeded reply

-- The branches of `_reserve` where no fault was injected
unfoldable pub reserve_unharmed :
    Option ReservationRow
    → List String
    → Draw
    → MessageEnvelope
    → ℕ
    → List Item
    → Action InventoryDb RequestResult
unfolding finish reserve_now build_envelope
reserve_unharmed (some existing) unknown d request order_id items = do
  reply ← succeeded_event d request existing.order_id existing.route
  finish d request RequestOutcome.already_reserved ProcessingResult.succeeded reply
reserve_unharmed none (sku ∷ skus) d request order_id items = do
  reply ← failed_event d request order_id TaskResult.invalid_data
  finish d request RequestOutcome.invalid_data ProcessingResult.failed reply
reserve_unharmed none [] d request order_id items = reserve_now d request order_id items

-- `_reserve`, of a request for `items` of the order `order_id`
unfoldable pub reserve :
    Option TaskResult → Draw → MessageEnvelope → ℕ → List Item → Action InventoryDb RequestResult
unfolding finish reserve_unharmed unknown_skus build_envelope
reserve (some injected) d request order_id items = do
  reply ← failed_event d request order_id injected
  finish d request RequestOutcome.transient_error ProcessingResult.failed reply
reserve none d request order_id items = do
  existing ← gets (find_reservation request.task_id)
  unknown ← gets (λ db. unknown_skus db.stock (map (λ (i : Item). i.sku) items))
  reserve_unharmed existing unknown d request order_id items

-- The body of the transaction
unfoldable pub answer_request :
    Option ProcessedRow
    → Option TaskResult
    → Draw
    → MessageEnvelope
    → ℕ
    → List Item
    → Action InventoryDb RequestResult
unfolding reserve
answer_request (some previous) injected d request order_id items =
    pure (record { outcome = RequestOutcome.duplicate_message; reply = previous.response })
answer_request none injected d request order_id items = reserve injected d request order_id items

-- `process_reservation_request`, after `before_reservation`
unfoldable pub process_reservation_request :
    Option TaskResult → Draw → MessageEnvelope → ℕ → List Item → Action InventoryDb RequestResult
unfolding answer_request
process_reservation_request injected d request order_id items = transaction (do
  previous ← gets (find_processed_message request.message_id)
  answer_request previous injected d request order_id items)

-- ===== src/Tests/Inventory.antt =====
-- The inventory-service: a request, its redelivery and a further attempt of its task.
use rule2llm_orch_lab.Prelude.{
  ℕ, ltb, ◌≤◌, List, ◌≡◌, refl, Bool, true, Option, none, some, [], ◌∷◌, Post, ok,
}
use rule2llm_orch_lab.Prelude.Table.{get, insert}
use rule2llm_orch_lab.Contract.Vocabulary.{EventType, Target, TaskResult}
use rule2llm_orch_lab.Contract.Envelope
use rule2llm_orch_lab.Contract.Envelope.{
  MessageEnvelope, ReservationRoute, reservation_request, reservation_result, reservation_failed,
  is_message,
}
use rule2llm_orch_lab.Inventory.Db
use rule2llm_orch_lab.Inventory.Db.{InventoryDb, ReservationRow, ReservationStatus}
use rule2llm_orch_lab.Inventory.Processing.{
  FaultControl, FaultType, before_reservation, other_route_unharmed,
}
use rule2llm_orch_lab.Inventory.Service
use rule2llm_orch_lab.Inventory.Service.{
  Draw, RequestOutcome, RequestResult, process_reservation_request,
}
use rule2llm_orch_lab.Inventory.Store.{IsStore, Backed, Served}
use rule2llm_orch_lab.Inventory.Answers.{process-Served, process-IsStore, redelivery_repeats}
use rule2llm_orch_lab.Inventory.Once.{Call, times_reserved, reserved_at_most_once}
use rule2llm_orch_lab.Tests.Data.{items}

abbrev stocked : InventoryDb
stocked = record { stock = "SKU-001" ∷ "SKU-002" ∷ []; reservations = []; processed_messages = [] }

abbrev request : MessageEnvelope
request = record {
  execution_id = 1;
  message_id = 100;
  task_id = 1;
  event_type = EventType.stock_reservation_requested;
  event_seq = 2;
  attempt_number = 1;
  published_at = 10;
  decision_id = some 7;
  target = some Target.inventory_primary;
  payload = reservation_request 1 items;
}

-- A second attempt, and a request to the other route
abbrev second : MessageEnvelope
second = record request { message_id = 101; event_seq = 4; attempt_number = 2 }

abbrev detour : MessageEnvelope
detour = record request { target = some Target.inventory_fallback }

abbrev third : MessageEnvelope
third = record detour { message_id = 102; event_seq = 6; attempt_number = 3 }

abbrev fault : FaultControl
fault = record {
  type = FaultType.intermittent_error;
  target = Target.inventory_primary;
  failure_probability = 50;
  seed = 42;
}

-- A draw that every attempt but the first loses
abbrev sampled : ℕ → ℕ → ℕ → ℕ → Bool
sampled seed task_id attempt probability = ltb 1 attempt

abbrev draw : Draw
draw = record { message_id = 900; published_at = 11; now = 11 }

stocked-IsStore : IsStore stocked
unfolding get
stocked-IsStore = record { backed = λ k row h. cc; all_reserved = λ k row h. cc }

request-is_message : is_message request ≡ true
unfolding is_message Envelope.validate_payload Envelope.are_items
request-is_message = refl

second-is_message : is_message second ≡ true
unfolding is_message Envelope.validate_payload Envelope.are_items
second-is_message = refl

request_fresh : get 100 stocked.processed_messages ≡ none
unfolding get
request_fresh = refl

abbrev reserved_db : InventoryDb
reserved_db =
    (process_reservation_request (before_reservation sampled (some fault) request) draw request 1
      items stocked).1

abbrev reservation : ReservationRow
reservation = record {
  order_id = 1;
  status = ReservationStatus.reserved;
  route = ReservationRoute.primary;
  items = items;
  created_at = 11;
}

reserved_found : get 1 reserved_db.reservations ≡ some reservation
unfolding get insert before_reservation is_message Envelope.validate_payload Envelope.are_items
    Envelope.build_envelope Db.unknown_skus Db.insert_reservation Db.insert_processed_message
    Service.finish Service.reserve_now Service.reserve_unharmed Service.reserve
    Service.answer_request Service.process_reservation_request
reserved_found = refl

second_fresh : get 101 reserved_db.processed_messages ≡ none
unfolding get insert before_reservation is_message Envelope.validate_payload Envelope.are_items
    Envelope.build_envelope Db.unknown_skus Db.insert_reservation Db.insert_processed_message
    Service.finish Service.reserve_now Service.reserve_unharmed Service.reserve
    Service.answer_request Service.process_reservation_request
second_fresh = refl

process-Served_example : Post (Served request stocked) (
    process_reservation_request
      (before_reservation sampled (some fault) request)
      draw
      request
      1
      items
      stocked)
process-Served_example =
    process-Served draw request 1 items stocked stocked-IsStore request-is_message request_fresh
      sampled (some fault)

process-IsStore_example :
    Post
      (λ out after. IsStore after × Backed after out.reply)
      (process_reservation_request
        (before_reservation sampled (some fault) request)
        draw
        request
        1
        items
        stocked)
process-IsStore_example =
    process-IsStore sampled (some fault) draw request 1 items stocked stocked-IsStore
      request-is_message

redelivery_repeats_example :
    Post
      (λ out after.
        (injected : Option TaskResult) (again : Draw)
        → process_reservation_request injected again request 1 items after
          ≡ (ok (record { outcome = RequestOutcome.duplicate_message; reply = out.reply }), after))
      (process_reservation_request
        (before_reservation sampled (some fault) request)
        draw
        request
        1
        items
        stocked)
redelivery_repeats_example =
    redelivery_repeats sampled (some fault) draw request 1 items stocked stocked-IsStore
      request-is_message

-- The request, its redelivery, a second attempt under the fault and one to the other route
abbrev calls : List Call
calls =
    record { fault = some fault; draw = draw; request = request; order_id = 1; items = items }
    ∷ record { fault = none; draw = draw; request = request; order_id = 1; items = items }
    ∷ record { fault = some fault; draw = draw; request = second; order_id = 1; items = items }
    ∷ record { fault = none; draw = draw; request = third; order_id = 1; items = items }
    ∷ []

reserved_one_time : times_reserved sampled 1 calls stocked ≡ 1
unfolding times_reserved get insert before_reservation is_message Envelope.validate_payload
    Envelope.are_items Envelope.build_envelope Db.unknown_skus Db.insert_reservation
    Db.insert_processed_message Service.finish Service.reserve_now Service.reserve_unharmed
    Service.reserve Service.answer_request Service.process_reservation_request
reserved_one_time = refl

reserved_at_most_once_example : times_reserved sampled 1 calls stocked ≤ 1
unfolding get
reserved_at_most_once_example = reserved_at_most_once sampled 1 calls stocked

abbrev call : Call
call = record { fault = some fault; draw = draw; request = request; order_id = 1; items = items }

detour_unharmed : before_reservation sampled (some fault) detour ≡ none
detour_unharmed = other_route_unharmed sampled fault detour (λ e. cc)

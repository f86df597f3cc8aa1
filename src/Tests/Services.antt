-- ===== src/Tests/Services.antt =====
-- Both services, from a new order to its confirmation.
use mathlib.Core.List.{Memᴰ}
use rule2llm_orch_lab.Prelude.{
  ℕ, String, ◌≤◌, ◌≡◌, refl, Bool, true, false, none, some, List, [], ◌∷◌, Post, ok, arith, ltb,
}
use rule2llm_orch_lab.Prelude.Table.{get, insert, update}
use rule2llm_orch_lab.Contract.Vocabulary.{EventType, Target}
use rule2llm_orch_lab.Contract.Envelope
use rule2llm_orch_lab.Contract.Envelope.{MessageEnvelope, is_message, reservation_request}
use rule2llm_orch_lab.Contract.Decision
use rule2llm_orch_lab.Engine.Rules
use rule2llm_orch_lab.Engine.Validator
use rule2llm_orch_lab.Orders.Db.{OrdersDb, TaskRow}
use rule2llm_orch_lab.Orders.Repositories
use rule2llm_orch_lab.Orders.Executor
use rule2llm_orch_lab.Orders.Executor.{Supply}
use rule2llm_orch_lab.Orders.Orchestrator
use rule2llm_orch_lab.Orders.Orchestrator.{handle_decision_point, DecisionOutcome}
use rule2llm_orch_lab.Orders.StateBuilder
use rule2llm_orch_lab.Orders.StateBuilder.{build, snapshot}
use rule2llm_orch_lab.Contract.SystemState.{SystemState}
use rule2llm_orch_lab.Reports.Records.{States, check_state, no_task}
use rule2llm_orch_lab.Reports.Records.Recorded.{state_line}
use rule2llm_orch_lab.Reports.Records.Reached.{recorded_state_passes, unknown_state_reported}
use rule2llm_orch_lab.Orders.EventHandler
use rule2llm_orch_lab.Orders.Consumers
use rule2llm_orch_lab.Orders.Consumers.{handle_event}
use rule2llm_orch_lab.Orders.Invariant
use rule2llm_orch_lab.Orders.System.{Settled}
use rule2llm_orch_lab.Orders.System.Runs.{Trace, decisions_of}
use rule2llm_orch_lab.Orders.System.Rules.{rules_returns}
use rule2llm_orch_lab.Orders.Numbering.{IsOnRecord}
use rule2llm_orch_lab.Orders.Numbering.Quiet.{is_completed}
use rule2llm_orch_lab.Orders.Numbering.Published.{requests_of}
use rule2llm_orch_lab.Inventory.Db
use rule2llm_orch_lab.Inventory.Db.{InventoryDb, ReservationRow}
use rule2llm_orch_lab.Inventory.Processing.{before_reservation}
use rule2llm_orch_lab.Inventory.Service
use rule2llm_orch_lab.Inventory.Service.{
  Draw, RequestOutcome, RequestResult, process_reservation_request,
}
use rule2llm_orch_lab.Inventory.Store.{Backed}
use rule2llm_orch_lab.Services.{
  World, Move, Delivery, Reserved, for_request, for_reply, sent_of, IsWorld,
}
use rule2llm_orch_lab.Services.Reach.{Moves, first_world, first_world-IsWorld, Moves-IsWorld}
use rule2llm_orch_lab.Services.Safety.{
  completed-Reserved, reply_handled, request_answered, rules_services_bounded,
}
use rule2llm_orch_lab.Reports.Artifacts.{export_task_events}
use rule2llm_orch_lab.Reports.Trajectories.{check_trajectories, trajectory}
use rule2llm_orch_lab.Reports.Trajectories.Passing.{OneExecution}
use rule2llm_orch_lab.Reports.Trajectories.Reached.{trajectories_pass}
use rule2llm_orch_lab.Tests.Data.{
  config, setup, items, seen, supply, new_db, busy_db, success, new_row,
}
use rule2llm_orch_lab.Tests.Orders.{
  items_fit, new_view, new_created, new_found, new_ready, first_outcome, first_decided,
}

abbrev stock : List String
stock = "SKU-001" ∷ "SKU-002" ∷ []

abbrev sampled : ℕ → ℕ → ℕ → ℕ → Bool
sampled seed task_id attempt probability = ltb 1 attempt

abbrev request : MessageEnvelope
request = record {
  execution_id = 1;
  message_id = 100;
  task_id = 1;
  event_type = EventType.stock_reservation_requested;
  event_seq = 2;
  attempt_number = 1;
  published_at = 10;
  decision_id = some 7;
  target = some Target.inventory_primary;
  payload = reservation_request 1 items;
}

abbrev draw : Draw
draw = record { message_id = 200; published_at = 12; now = 12 }

abbrev creation : Supply
creation = record supply { message_id = 99 }

abbrev reception : Supply
reception = record supply { message_id = 101 }

abbrev again : Draw
again = record { message_id = 201; published_at = 13; now = 13 }

abbrev stocked : InventoryDb
stocked = (first_world stock).inventory

abbrev reserved_db : InventoryDb
reserved_db =
    (process_reservation_request (before_reservation sampled none request) draw request 1 items
      stocked).1

abbrev first_answer : RequestResult
first_answer = record { outcome = RequestOutcome.reserved; reply = success }

answered :
    process_reservation_request
      (before_reservation sampled none request)
      draw
      request
      1
      items
      stocked
    ≡ (ok first_answer, reserved_db)
unfolding get insert update Repositories.create_order_with_task Executor.run_continue
    Executor.run_retry Executor.execute Orchestrator.carry_out Orchestrator.handle_decision_point
    StateBuilder.build EventHandler.apply_success EventHandler.apply_failure
    EventHandler.apply_event EventHandler.handle_new EventHandler.receive
    EventHandler.handle_inventory_event Consumers.decide_if Consumers.handle_event Rules.decide
    Validator.validate Decision.parse_action Decision.resolve_action before_reservation is_message
    Envelope.validate_payload Envelope.are_items Envelope.build_envelope Db.unknown_skus
    Db.insert_reservation Db.insert_processed_message Service.finish Service.reserve_now
    Service.reserve_unharmed Service.reserve Service.answer_request
    Service.process_reservation_request requests_of
answered = refl

abbrev confirmed_db : OrdersDb
confirmed_db = (handle_event setup seen reception 8 success false busy_db).1

confirmed : handle_event setup seen reception 8 success false busy_db ≡ (ok none, confirmed_db)
unfolding get insert update Repositories.create_order_with_task Executor.run_continue
    Executor.run_retry Executor.execute Orchestrator.carry_out Orchestrator.handle_decision_point
    StateBuilder.build EventHandler.apply_success EventHandler.apply_failure
    EventHandler.apply_event EventHandler.handle_new EventHandler.receive
    EventHandler.handle_inventory_event Consumers.decide_if Consumers.handle_event Rules.decide
    Validator.validate Decision.parse_action Decision.resolve_action before_reservation is_message
    Envelope.validate_payload Envelope.are_items Envelope.build_envelope Db.unknown_skus
    Db.insert_reservation Db.insert_processed_message Service.finish Service.reserve_now
    Service.reserve_unharmed Service.reserve Service.answer_request
    Service.process_reservation_request requests_of
confirmed = refl

-- The order is created, its request sent, answered and confirmed.
abbrev w0 : World
w0 = first_world stock

abbrev w1 : World
w1 = record w0 { orders = new_db; ids = insert 99 (for_request 1) w0.ids }

abbrev w2 : World
w2 = record w1 {
  orders = busy_db;
  requests = request ∷ [];
  ids = insert 100 (for_request 1) w1.ids;
}

abbrev w3 : World
w3 = record w2 {
  inventory = reserved_db;
  replies = success ∷ [];
  ids = insert 200 (for_reply 1) w2.ids;
}

abbrev pub w4 : World
w4 = record w3 { orders = confirmed_db; ids = insert 101 (for_request 1) w3.ids }

abbrev trace : Trace
trace = (1, none) ∷ (1, some first_outcome) ∷ (1, none) ∷ (1, none) ∷ []

first_sent : request ∷ [] ≡ sent_of (some first_outcome)
unfolding get insert update Repositories.create_order_with_task Executor.run_continue
    Executor.run_retry Executor.execute Orchestrator.carry_out Orchestrator.handle_decision_point
    StateBuilder.build EventHandler.apply_success EventHandler.apply_failure
    EventHandler.apply_event EventHandler.handle_new EventHandler.receive
    EventHandler.handle_inventory_event Consumers.decide_if Consumers.handle_event Rules.decide
    Validator.validate Decision.parse_action Decision.resolve_action before_reservation is_message
    Envelope.validate_payload Envelope.are_items Envelope.build_envelope Db.unknown_skus
    Db.insert_reservation Db.insert_processed_message Service.finish Service.reserve_now
    Service.reserve_unharmed Service.reserve Service.answer_request
    Service.process_reservation_request requests_of
first_sent = refl

fresh_ids :
    (get 99 w0.ids ≡ none)
    × (get 100 w1.ids ≡ none)
    × (get 200 w2.ids ≡ none)
    × (get 101 w3.ids ≡ none)
    × (get 201 w4.ids ≡ none)
unfolding get insert
fresh_ids = (refl, refl, refl, refl, refl)

clock : Invariant.created (get 1 busy_db.tasks) ≤ 10
unfolding get insert update Repositories.create_order_with_task Executor.run_continue
    Executor.run_retry Executor.execute Orchestrator.carry_out Orchestrator.handle_decision_point
    StateBuilder.build EventHandler.apply_success EventHandler.apply_failure
    EventHandler.apply_event EventHandler.handle_new EventHandler.receive
    EventHandler.handle_inventory_event Consumers.decide_if Consumers.handle_event Rules.decide
    Validator.validate Decision.parse_action Decision.resolve_action before_reservation is_message
    Envelope.validate_payload Envelope.are_items Envelope.build_envelope Db.unknown_skus
    Db.insert_reservation Db.insert_processed_message Service.finish Service.reserve_now
    Service.reserve_unharmed Service.reserve Service.answer_request
    Service.process_reservation_request requests_of
clock = omega arith

later_clock : Invariant.created (get 1 confirmed_db.tasks) ≤ 10
unfolding get insert update Repositories.create_order_with_task Executor.run_continue
    Executor.run_retry Executor.execute Orchestrator.carry_out Orchestrator.handle_decision_point
    StateBuilder.build EventHandler.apply_success EventHandler.apply_failure
    EventHandler.apply_event EventHandler.handle_new EventHandler.receive
    EventHandler.handle_inventory_event Consumers.decide_if Consumers.handle_event Rules.decide
    Validator.validate Decision.parse_action Decision.resolve_action before_reservation is_message
    Envelope.validate_payload Envelope.are_items Envelope.build_envelope Db.unknown_skus
    Db.insert_reservation Db.insert_processed_message Service.finish Service.reserve_now
    Service.reserve_unharmed Service.reserve Service.answer_request
    Service.process_reservation_request requests_of
later_clock = omega arith

moves : Moves setup sampled w0 trace w4
moves =
    Moves.next w0 w1 w4 1 none _
      (Move.delivered creation [] new_db fresh_ids.0
        (Delivery.opened 1 0 items new_view (omega arith) items_fit new_created refl refl refl)
        refl)
      (Moves.next w1 w2 w4 1 (some first_outcome) _
        (Move.delivered supply (request ∷ []) busy_db fresh_ids.1
          (Delivery.first_decided seen 7 first_outcome new_row new_found (omega arith) new_ready
            first_decided refl first_sent)
          refl)
        (Moves.next w2 w3 w4 1 none _
          (Move.answered none draw request 1 items first_answer reserved_db (Memᴰ.head refl) refl
            fresh_ids.2 answered refl refl refl)
          (Moves.next w3 w4 w4 1 none _
            (Move.delivered reception [] confirmed_db fresh_ids.3
              (Delivery.replied seen 8 success false (Memᴰ.head refl) clock confirmed refl refl)
              refl)
            (Moves.done w4))))

confirmed_task : is_completed (get 1 w4.orders.tasks) ≡ true
unfolding get insert update Repositories.create_order_with_task Executor.run_continue
    Executor.run_retry Executor.execute Orchestrator.carry_out Orchestrator.handle_decision_point
    StateBuilder.build EventHandler.apply_success EventHandler.apply_failure
    EventHandler.apply_event EventHandler.handle_new EventHandler.receive
    EventHandler.handle_inventory_event Consumers.decide_if Consumers.handle_event Rules.decide
    Validator.validate Decision.parse_action Decision.resolve_action before_reservation is_message
    Envelope.validate_payload Envelope.are_items Envelope.build_envelope Db.unknown_skus
    Db.insert_reservation Db.insert_processed_message Service.finish Service.reserve_now
    Service.reserve_unharmed Service.reserve Service.answer_request
    Service.process_reservation_request requests_of
confirmed_task = refl

one_execution : OneExecution 1 w4.orders.task_events
unfolding get insert update Repositories.create_order_with_task Executor.run_continue
    Executor.run_retry Executor.execute Orchestrator.carry_out Orchestrator.handle_decision_point
    StateBuilder.build EventHandler.apply_success EventHandler.apply_failure
    EventHandler.apply_event EventHandler.handle_new EventHandler.receive
    EventHandler.handle_inventory_event Consumers.decide_if Consumers.handle_event Rules.decide
    Validator.validate Decision.parse_action Decision.resolve_action before_reservation is_message
    Envelope.validate_payload Envelope.are_items Envelope.build_envelope Db.unknown_skus
    Db.insert_reservation Db.insert_processed_message Service.finish Service.reserve_now
    Service.reserve_unharmed Service.reserve Service.answer_request
    Service.process_reservation_request requests_of
one_execution = (refl, (refl, (refl, (refl, tt))))

Moves-IsWorld_example : IsWorld config w4
Moves-IsWorld_example =
    Moves-IsWorld setup (rules_returns config 5) sampled w0 trace w4 moves
      (first_world-IsWorld config stock)

completed-Reserved_example : Reserved w4.inventory 1
completed-Reserved_example =
    completed-Reserved setup (rules_returns config 5) sampled stock trace w4 moves 1 confirmed_task

-- The reply is delivered once more,
reply_handled_example :
    Post (Settled config 1 w4.orders) (handle_event setup seen reception 9 success true w4.orders)
reply_handled_example =
    reply_handled setup (rules_returns config 5) sampled stock trace w4 moves seen reception 9
      success true (Memᴰ.head refl) later_clock

-- and so is the request.
request_answered_example :
    Post
      (λ out after.
        Backed after out.reply
        × IsOnRecord out.reply w4.orders
        × ((j : ℕ) (row : ReservationRow)
            → get j w4.inventory.reservations ≡ some row
            → get j after.reservations ≡ some row))
      (process_reservation_request
        (before_reservation sampled none request)
        again
        request
        1
        items
        w4.inventory)
request_answered_example =
    request_answered setup (rules_returns config 5) sampled stock trace w4 moves none again request
      1 items (Memᴰ.head refl) fresh_ids.4

trajectories_pass_example : check_trajectories 1 (export_task_events 1 w4.orders.task_events) ≡ []
trajectories_pass_example =
    trajectories_pass setup (rules_returns config 5) sampled stock trace w4 moves 1 one_execution

abbrev confirmed_row : TaskRow
confirmed_row = elim (get 1 w4.orders.tasks) [ none ↦ new_row | some row ↦ row ]

abbrev confirmed_state : SystemState
confirmed_state = snapshot config 5 seen w4.orders.task_events 1 confirmed_row

confirmed_built : build config 5 seen w4.orders 1 ≡ ok confirmed_state
unfolding StateBuilder.snapshot get insert update Repositories.create_order_with_task
    Executor.run_continue Executor.run_retry Executor.execute Orchestrator.carry_out
    Orchestrator.handle_decision_point StateBuilder.build EventHandler.apply_success
    EventHandler.apply_failure EventHandler.apply_event EventHandler.handle_new EventHandler.receive
    EventHandler.handle_inventory_event Consumers.decide_if Consumers.handle_event Rules.decide
    Validator.validate Decision.parse_action Decision.resolve_action before_reservation is_message
    Envelope.validate_payload Envelope.are_items Envelope.build_envelope Db.unknown_skus
    Db.insert_reservation Db.insert_processed_message Service.finish Service.reserve_now
    Service.reserve_unharmed Service.reserve Service.answer_request
    Service.process_reservation_request requests_of
confirmed_built = refl

confirmed_own : confirmed_state.execution_id ≡ 1
unfolding StateBuilder.snapshot get insert update Repositories.create_order_with_task
    Executor.run_continue Executor.run_retry Executor.execute Orchestrator.carry_out
    Orchestrator.handle_decision_point StateBuilder.build EventHandler.apply_success
    EventHandler.apply_failure EventHandler.apply_event EventHandler.handle_new EventHandler.receive
    EventHandler.handle_inventory_event Consumers.decide_if Consumers.handle_event Rules.decide
    Validator.validate Decision.parse_action Decision.resolve_action before_reservation is_message
    Envelope.validate_payload Envelope.are_items Envelope.build_envelope Db.unknown_skus
    Db.insert_reservation Db.insert_processed_message Service.finish Service.reserve_now
    Service.reserve_unharmed Service.reserve Service.answer_request
    Service.process_reservation_request requests_of
confirmed_own = refl

abbrev no_states : States
no_states = record { errors = []; state_tasks = [] }

no_state_yet : get confirmed_state.state_id no_states.state_tasks ≡ none
unfolding get
no_state_yet = refl

recorded_state_passes_example :
    check_state 1
      (λ j. trajectory j (export_task_events 1 w4.orders.task_events))
      (state_line confirmed_state)
      (some confirmed_state)
      no_states
    ≡ record no_states { state_tasks = (confirmed_state.state_id, 1) ∷ [] }
recorded_state_passes_example =
    recorded_state_passes setup (rules_returns config 5) sampled stock trace w4 moves seen 1 1
      confirmed_state no_states confirmed_built one_execution confirmed_own no_state_yet

abbrev stray_state : SystemState
stray_state = record confirmed_state { task_id = 2 }

stray_unknown : get 2 w4.orders.tasks ≡ none
unfolding get insert update Repositories.create_order_with_task Executor.run_continue
    Executor.run_retry Executor.execute Orchestrator.carry_out Orchestrator.handle_decision_point
    StateBuilder.build EventHandler.apply_success EventHandler.apply_failure
    EventHandler.apply_event EventHandler.handle_new EventHandler.receive
    EventHandler.handle_inventory_event Consumers.decide_if Consumers.handle_event Rules.decide
    Validator.validate Decision.parse_action Decision.resolve_action before_reservation is_message
    Envelope.validate_payload Envelope.are_items Envelope.build_envelope Db.unknown_skus
    Db.insert_reservation Db.insert_processed_message Service.finish Service.reserve_now
    Service.reserve_unharmed Service.reserve Service.answer_request
    Service.process_reservation_request requests_of
stray_unknown = refl

stray_own : stray_state.execution_id ≡ 1
unfolding StateBuilder.snapshot get insert update Repositories.create_order_with_task
    Executor.run_continue Executor.run_retry Executor.execute Orchestrator.carry_out
    Orchestrator.handle_decision_point StateBuilder.build EventHandler.apply_success
    EventHandler.apply_failure EventHandler.apply_event EventHandler.handle_new EventHandler.receive
    EventHandler.handle_inventory_event Consumers.decide_if Consumers.handle_event Rules.decide
    Validator.validate Decision.parse_action Decision.resolve_action before_reservation is_message
    Envelope.validate_payload Envelope.are_items Envelope.build_envelope Db.unknown_skus
    Db.insert_reservation Db.insert_processed_message Service.finish Service.reserve_now
    Service.reserve_unharmed Service.reserve Service.answer_request
    Service.process_reservation_request requests_of
stray_own = refl

unknown_state_reported_example :
    check_state 1
      (λ j. trajectory j (export_task_events 1 w4.orders.task_events))
      (state_line stray_state)
      (some stray_state)
      no_states
    ≡ record {
      errors = no_task stray_state.state_id ∷ [];
      state_tasks = (stray_state.state_id, 2) ∷ [];
    }
unknown_state_reported_example =
    unknown_state_reported setup (rules_returns config 5) sampled stock trace w4 moves 1 stray_state
      no_states stray_unknown one_execution stray_own no_state_yet

rules_services_bounded_example : decisions_of 1 trace ≤ 6
rules_services_bounded_example = rules_services_bounded config 5 sampled stock 1 trace w4 moves

-- ===== src/Tests/Orders.antt =====
-- The orders-service: one order, from its creation to the answer of its first request.
use rule2llm_orch_lab.Prelude.{
  ℕ, ◌≤◌, ◌≡◌, ◌≢◌, refl, true, false, Option, none, some, [], ◌∷◌, Post, Post-state, ok, err,
  ℕ_discrete, arith,
}
use rule2llm_orch_lab.Prelude.Table.{get, insert, update}
use rule2llm_orch_lab.Contract.Vocabulary.{EventType, OrderStatus}
use rule2llm_orch_lab.Contract.Envelope.{validate_payload, reservation_request, is_message}
use rule2llm_orch_lab.Orders.Executor
use rule2llm_orch_lab.Orders.Orchestrator
use rule2llm_orch_lab.Orders.StateBuilder
use rule2llm_orch_lab.Orders.EventHandler
use rule2llm_orch_lab.Orders.Consumers
use rule2llm_orch_lab.Engine.Rules
use rule2llm_orch_lab.Engine.Validator
use rule2llm_orch_lab.Contract.Decision
use rule2llm_orch_lab.Orders.Trajectory
use rule2llm_orch_lab.Orders.Trajectory.{latest_request}
use rule2llm_orch_lab.Orders.Repositories
use rule2llm_orch_lab.Orders.Repositories.{OrderView, create_order_with_task, next_order_number}
use rule2llm_orch_lab.Orders.Invariant.{budget, row_budget, RowReady}
use rule2llm_orch_lab.Orders.Orchestrator.{DecisionOutcome, handle_decision_point}
use rule2llm_orch_lab.Orders.Consumers.{
  handle_event, timeout_check, dispatch_attempt, reevaluate, create_order,
}
use rule2llm_orch_lab.Orders.Internal.{handle_dead_letter}
use rule2llm_orch_lab.Orders.System.{Inv, Settled}
use rule2llm_orch_lab.Orders.System.Points.{decision_point-Settled}
use rule2llm_orch_lab.Orders.System.Messages.{
  handle_event-Settled, timeout_check-Settled, reevaluate-Settled,
}
use rule2llm_orch_lab.Orders.System.Others.{
  create-Settled, create_order-Settled, dispatch_attempt-Settled, dead_letter-Settled,
}
use rule2llm_orch_lab.Engine.Rules.{policy}
use rule2llm_orch_lab.Orders.Invariant.Events.{Echoes}
use rule2llm_orch_lab.Orders.System.Runs.{
  Run, Step, Trace, decisions_of, Run-Inv, Run-decisions_bounded,
}
use rule2llm_orch_lab.Orders.System.Rules.{
  rules_bounded, rules_returns, Inv-empty, rules_never_refused,
}
use rule2llm_orch_lab.Orders.Db.{OrderRow}
use rule2llm_orch_lab.Orders.Invariant.DeadLetters.{DeadLettered}
use rule2llm_orch_lab.Tests.Data.{
  config, setup, items, seen, supply, empty, new_db, busy_db, failure, new_row, busy_row,
  failed_row, failed_db,
}

pub items_fit :
    validate_payload EventType.stock_reservation_requested (reservation_request 0 items) ≡ true
unfolding validate_payload
items_fit = refl

pub new-Inv : Inv config new_db
new-Inv =
    let (view, e, h) =
      Post-state _ (create_order_with_task 1 items 0 empty)
        (create-Settled config 1 0 items empty (Inv-empty config) (omega arith) items_fit) in
    h.3.0

pub new_found : get 1 new_db.tasks ≡ some new_row
unfolding create_order_with_task get insert Trajectory.record_event Repositories.insert_order
    Repositories.insert_task Repositories.next_order_number Repositories.max_key
new_found = refl

pub new_ready : RowReady new_row
new_ready = record { live = refl; failed_primary = λ e. cc; fresh = λ e. refl; not_ok = λ e. cc }

-- The first decision point of a new task settles.
decision_point_example :
    Post
      (λ out after. Settled config 1 new_db (some out) after)
      (handle_decision_point setup seen supply 1 7 new_db)
decision_point_example =
    decision_point-Settled setup (rules_returns config 5) seen supply 1 7 new_db new-Inv new_row
      new_found (omega arith) new_ready

pub busy-Inv : Inv config busy_db
busy-Inv =
    let (out, e, h) =
      Post-state _ (handle_decision_point setup seen supply 1 7 new_db) decision_point_example in
    h.0

pub busy_found : get 1 busy_db.tasks ≡ some busy_row
unfolding get insert update Repositories.create_order_with_task Executor.run_continue
    Executor.run_retry Executor.execute Orchestrator.carry_out Orchestrator.handle_decision_point
    StateBuilder.build EventHandler.apply_success EventHandler.apply_failure
    EventHandler.apply_event EventHandler.handle_new EventHandler.receive
    EventHandler.handle_inventory_event Consumers.decide_if Consumers.handle_event Rules.decide
    Validator.validate Decision.parse_action Decision.resolve_action
busy_found = refl

failed_found : get 1 failed_db.tasks ≡ some failed_row
unfolding get insert update Repositories.create_order_with_task Executor.run_continue
    Executor.run_retry Executor.execute Orchestrator.carry_out Orchestrator.handle_decision_point
    StateBuilder.build EventHandler.apply_success EventHandler.apply_failure
    EventHandler.apply_event EventHandler.handle_new EventHandler.receive
    EventHandler.handle_inventory_event Consumers.decide_if Consumers.handle_event Rules.decide
    Validator.validate Decision.parse_action Decision.resolve_action
failed_found = refl

-- What the first decision executed
abbrev pub first_outcome : DecisionOutcome
first_outcome = elim (handle_decision_point setup seen supply 1 7 new_db).0 [
  | ok out ↦ out
  | err e ↦ record {
    state = StateBuilder.snapshot config 5 seen [] 1 new_row;
    validation = Decision.valid;
    executed = Decision.llm_timeout_abort;
    execution = record {
      action = Decision.abort;
      changed_state = false;
      published_message_ids = [];
      effects = [];
    };
  }
]

first_action : first_outcome.executed.action ≡ Decision.continue
unfolding get insert update Repositories.create_order_with_task Executor.run_continue
    Executor.run_retry Executor.execute Orchestrator.carry_out Orchestrator.handle_decision_point
    StateBuilder.build EventHandler.apply_success EventHandler.apply_failure
    EventHandler.apply_event EventHandler.handle_new EventHandler.receive
    EventHandler.handle_inventory_event Consumers.decide_if Consumers.handle_event Rules.decide
    Validator.validate Decision.parse_action Decision.resolve_action
first_action = refl

pub first_decided : handle_decision_point setup seen supply 1 7 new_db ≡ (ok first_outcome, busy_db)
unfolding get insert update Repositories.create_order_with_task Executor.run_continue
    Executor.run_retry Executor.execute Orchestrator.carry_out Orchestrator.handle_decision_point
    StateBuilder.build EventHandler.apply_success EventHandler.apply_failure
    EventHandler.apply_event EventHandler.handle_new EventHandler.receive
    EventHandler.handle_inventory_event Consumers.decide_if Consumers.handle_event Rules.decide
    Validator.validate Decision.parse_action Decision.resolve_action
first_decided = refl

-- The step that creates the order, and the one that sends its first request
abbrev pub new_view : OrderView
new_view = record { order_id = 1; status = OrderStatus.pending; task_id = 1 }

pub new_created : create_order_with_task 1 items 0 empty ≡ (ok new_view, new_db)
unfolding get insert update Repositories.create_order_with_task Executor.run_continue
    Executor.run_retry Executor.execute Orchestrator.carry_out Orchestrator.handle_decision_point
    StateBuilder.build EventHandler.apply_success EventHandler.apply_failure
    EventHandler.apply_event EventHandler.handle_new EventHandler.receive
    EventHandler.handle_inventory_event Consumers.decide_if Consumers.handle_event Rules.decide
    Validator.validate Decision.parse_action Decision.resolve_action
new_created = refl

failure_out : Option DecisionOutcome
failure_out = elim (handle_event setup seen supply 8 failure false busy_db).0 [
  | ok out ↦ out
  | err e ↦ none
]

failure_handled :
    handle_event setup seen supply 8 failure false busy_db ≡ (ok failure_out, failed_db)
unfolding failure_out get insert update Repositories.create_order_with_task Executor.run_continue
    Executor.run_retry Executor.execute Orchestrator.carry_out Orchestrator.handle_decision_point
    StateBuilder.build EventHandler.apply_success EventHandler.apply_failure
    EventHandler.apply_event EventHandler.handle_new EventHandler.receive
    EventHandler.handle_inventory_event Consumers.decide_if Consumers.handle_event Rules.decide
    Validator.validate Decision.parse_action Decision.resolve_action
failure_handled = refl

failure_echo : Echoes failure (latest_request 1 busy_db.task_events)
unfolding get insert update Repositories.create_order_with_task Executor.run_continue
    Executor.run_retry Executor.execute Orchestrator.carry_out Orchestrator.handle_decision_point
    StateBuilder.build EventHandler.apply_success EventHandler.apply_failure
    EventHandler.apply_event EventHandler.handle_new EventHandler.receive
    EventHandler.handle_inventory_event Consumers.decide_if Consumers.handle_event Rules.decide
    Validator.validate Decision.parse_action Decision.resolve_action
failure_echo e = refl

pub failure-is_message : is_message failure ≡ true
unfolding get insert update Repositories.create_order_with_task Executor.run_continue
    Executor.run_retry Executor.execute Orchestrator.carry_out Orchestrator.handle_decision_point
    StateBuilder.build EventHandler.apply_success EventHandler.apply_failure
    EventHandler.apply_event EventHandler.handle_new EventHandler.receive
    EventHandler.handle_inventory_event Consumers.decide_if Consumers.handle_event Rules.decide
    Validator.validate Decision.parse_action Decision.resolve_action
failure-is_message = refl

-- The trace of a creation, a first decision and a failure that is retried
abbrev trace : Trace
trace = (1, none) ∷ (1, some first_outcome) ∷ (1, failure_out) ∷ []

run : Run setup empty trace failed_db
run =
    Run.next empty new_db failed_db 1 none _
      (Step.created 1 0 items new_view (omega arith) items_fit new_created refl refl)
      (Run.next new_db busy_db failed_db 1 (some first_outcome) _
        (Step.decided seen supply 7 first_outcome new_row new_found (omega arith) new_ready
          first_decided refl)
        (Run.next busy_db failed_db failed_db 1 failure_out _
          (Step.event seen supply 8 failure false busy_row busy_found (omega arith) refl
            failure-is_message failure_echo failure_handled refl)
          (Run.done failed_db)))

two_decisions : decisions_of 1 trace ≡ 2
unfolding failure_out decisions_of get insert update Repositories.create_order_with_task
    Executor.run_continue Executor.run_retry Executor.execute Orchestrator.carry_out
    Orchestrator.handle_decision_point StateBuilder.build EventHandler.apply_success
    EventHandler.apply_failure EventHandler.apply_event EventHandler.handle_new EventHandler.receive
    EventHandler.handle_inventory_event Consumers.decide_if Consumers.handle_event Rules.decide
    Validator.validate Decision.parse_action Decision.resolve_action ℕ_discrete
two_decisions = refl

rules_bounded_example : decisions_of 1 trace ≤ 6
rules_bounded_example = rules_bounded config 5 1 trace failed_db run

Run-decisions_bounded_example : decisions_of 1 trace ≤ 6
Run-decisions_bounded_example =
    Run-decisions_bounded setup (rules_returns config 5) 1 empty trace failed_db run
      (Inv-empty config)

Run-Inv_example : Inv config failed_db
Run-Inv_example =
    Run-Inv setup (rules_returns config 5) empty trace failed_db run (Inv-empty config)

rules_never_refused_example :
    Post
      (λ out after. policy config out.state ≡ ok out.executed)
      (handle_decision_point setup seen supply 1 7 new_db)
rules_never_refused_example =
    rules_never_refused config 5 seen supply 1 7 new_db new-Inv new_row new_found (omega arith)
      new_ready

handle_event_example :
    Post (Settled config 1 busy_db) (handle_event setup seen supply 8 failure false busy_db)
handle_event_example =
    handle_event-Settled setup (rules_returns config 5) seen supply 8 busy_db busy-Inv failure false
      busy_row busy_found (omega arith) refl failure-is_message failure_echo

timeout_check_example :
    Post (Settled config 1 busy_db) (timeout_check setup seen supply 8 1 100 busy_db)
timeout_check_example =
    timeout_check-Settled setup (rules_returns config 5) seen supply 8 busy_db busy-Inv 1 100
      busy_row busy_found (omega arith)

reevaluate_example : Post (Settled config 1 busy_db) (reevaluate setup seen supply 8 1 1 busy_db)
reevaluate_example =
    reevaluate-Settled setup (rules_returns config 5) seen supply 8 busy_db busy-Inv 1 1 busy_row
      busy_found (omega arith)

dispatch_attempt_example :
    Post (λ effects. Settled config 1 failed_db none) (dispatch_attempt setup supply 1 8 failed_db)
dispatch_attempt_example =
    dispatch_attempt-Settled setup supply failed_db Run-Inv_example 1 failed_row failed_found 8

dead_letter-Settled_example :
    (order : OrderRow) × (get 1 busy_db.orders ≡ some order)
    × Post
        (λ changed after.
          DeadLettered 1 (some 100) 20 busy_db busy_row order changed after
          × (budget config (get 1 after.tasks) ≡ row_budget config busy_row)
          × Settled config 1 busy_db none after)
        (handle_dead_letter (some 1) (some 100) 20 busy_db)
dead_letter-Settled_example =
    dead_letter-Settled setup supply busy_db busy-Inv 1 busy_row busy_found (some 100) 20

create_order_example :
    Post
      (λ view after.
        (view.task_id ≡ 1)
        × Inv config after
        × (budget config (get view.task_id after.tasks) ≤ 6)
        × ((j : ℕ) → j ≢ view.task_id → get j after.tasks ≡ get j empty.tasks))
      (create_order setup seen supply 7 1 items empty)
unfolding Repositories.next_order_number Repositories.max_key
create_order_example =
    create_order-Settled setup (rules_returns config 5) seen supply 7 1 items empty
      (Inv-empty config) (omega arith) items_fit (omega arith)

-- ===== src/Tests/Ended.antt =====
-- A task that has ended, and a timeout check that comes too late.
use rule2llm_orch_lab.Prelude.{
  ◌≡◌, refl, true, false, none, some, [], ◌∷◌, Post, Post-state, ok, arith,
}
use rule2llm_orch_lab.Orders.Repositories
use rule2llm_orch_lab.Orders.Executor
use rule2llm_orch_lab.Orders.Orchestrator
use rule2llm_orch_lab.Orders.StateBuilder
use rule2llm_orch_lab.Orders.EventHandler
use rule2llm_orch_lab.Orders.Internal
use rule2llm_orch_lab.Orders.Consumers
use rule2llm_orch_lab.Engine.Rules
use rule2llm_orch_lab.Engine.Validator
use rule2llm_orch_lab.Contract.Decision
use rule2llm_orch_lab.Contract.Vocabulary
use rule2llm_orch_lab.Prelude.Table.{get, insert, update}
use rule2llm_orch_lab.Contract.Vocabulary.{TaskStatus, Target}
use rule2llm_orch_lab.Contract.Envelope.{is_message}
use rule2llm_orch_lab.Engine.Output.{EngineOutput}
use rule2llm_orch_lab.Contract.SystemState.{SystemState}
use rule2llm_orch_lab.Orders.Db.{OrdersDb, TaskRow}
use rule2llm_orch_lab.Orders.Trajectory.{latest_request}
use rule2llm_orch_lab.Orders.StateBuilder.{snapshot}
use rule2llm_orch_lab.Orders.Invariant.Events.{Echoes}
use rule2llm_orch_lab.Orders.Invariant.Ended.{status_of}
use rule2llm_orch_lab.Orders.Invariant.Points.{Decided, decision_point-Decided}
use rule2llm_orch_lab.Orders.Orchestrator.{handle_decision_point, DecisionOutcome}
use rule2llm_orch_lab.Orders.Consumers.{handle_event, timeout_check}
use rule2llm_orch_lab.Orders.System.{Inv, Inv-Known, Settled}
use rule2llm_orch_lab.Orders.System.Messages.{handle_event-Settled}
use rule2llm_orch_lab.Orders.System.Runs.{Run, Step, decisions_of}
use rule2llm_orch_lab.Orders.System.Rules.{rules_returns}
use rule2llm_orch_lab.Orders.System.Ended.{ended_forever}
use rule2llm_orch_lab.Tests.Data.{
  config, setup, seen, supply, new_db, busy_db, done_db, success, new_row, busy_row,
}
use rule2llm_orch_lab.Tests.Orders.{new-Inv, new_found, new_ready, busy-Inv, busy_found}

success_echo : Echoes success (latest_request 1 busy_db.task_events)
unfolding get insert update Repositories.create_order_with_task Executor.run_continue
    Executor.run_retry Executor.execute Orchestrator.carry_out Orchestrator.handle_decision_point
    StateBuilder.build EventHandler.apply_success EventHandler.apply_failure
    EventHandler.apply_event EventHandler.handle_new EventHandler.receive
    EventHandler.handle_inventory_event Consumers.decide_if Consumers.handle_event Rules.decide
    Validator.validate Decision.parse_action Decision.resolve_action
success_echo e = refl

success-is_message : is_message success ≡ true
unfolding get insert update Repositories.create_order_with_task Executor.run_continue
    Executor.run_retry Executor.execute Orchestrator.carry_out Orchestrator.handle_decision_point
    StateBuilder.build EventHandler.apply_success EventHandler.apply_failure
    EventHandler.apply_event EventHandler.handle_new EventHandler.receive
    EventHandler.handle_inventory_event Consumers.decide_if Consumers.handle_event Rules.decide
    Validator.validate Decision.parse_action Decision.resolve_action
success-is_message = refl

done-Settled :
    Post (Settled config 1 busy_db) (handle_event setup seen supply 8 success false busy_db)
done-Settled =
    handle_event-Settled setup (rules_returns config 5) seen supply 8 busy_db busy-Inv success false
      busy_row busy_found (omega arith) refl success-is_message success_echo

done-Inv : Inv config done_db
done-Inv =
    let (out, e, h) =
      Post-state _ (handle_event setup seen supply 8 success false busy_db) done-Settled in
    h.0

abbrev done_row : TaskRow
done_row = record busy_row {
  status = TaskStatus.completed;
  current_event_seq = 4;
  last_result = some Vocabulary.TaskResult.ok;
}

done_found : get 1 done_db.tasks ≡ some done_row
unfolding get insert update Repositories.create_order_with_task Executor.run_continue
    Executor.run_retry Executor.execute Orchestrator.carry_out Orchestrator.handle_decision_point
    StateBuilder.build EventHandler.apply_success EventHandler.apply_failure
    EventHandler.apply_event EventHandler.handle_new EventHandler.receive
    EventHandler.handle_inventory_event Consumers.decide_if Consumers.handle_event Rules.decide
    Validator.validate Decision.parse_action Decision.resolve_action
done_found = refl

late_check :
    (db : OrdersDb)
    → get 1 db.tasks ≡ some done_row
    → timeout_check setup seen supply 9 1 100 db ≡ (ok none, db)
unfolding timeout_check Internal.register_timeout Consumers.decide_if
late_check db found = ground arith

late-Run : Run setup done_db ((1, none) ∷ []) done_db
late-Run =
    Run.next done_db done_db done_db 1 none []
      (Step.timed_out seen supply 9 100 done_row done_found (omega arith)
        (late_check done_db done_found))
      (Run.done done_db)

done_status : status_of (get 1 done_db.tasks) ≡ some TaskStatus.completed
unfolding get insert update Repositories.create_order_with_task Executor.run_continue
    Executor.run_retry Executor.execute Orchestrator.carry_out Orchestrator.handle_decision_point
    StateBuilder.build EventHandler.apply_success EventHandler.apply_failure
    EventHandler.apply_event EventHandler.handle_new EventHandler.receive
    EventHandler.handle_inventory_event Consumers.decide_if Consumers.handle_event Rules.decide
    Validator.validate Decision.parse_action Decision.resolve_action
done_status = refl

ended_forever_example :
    (status_of (get 1 done_db.tasks) ≡ some TaskStatus.completed)
    × (decisions_of 1 ((1, none) ∷ []) ≡ 0)
ended_forever_example =
    ended_forever setup (rules_returns config 5) 1 TaskStatus.completed refl done_db
      ((1, none) ∷ []) done_db late-Run done-Inv done_status

-- What the rules engine proposes for a new task
abbrev first_output : EngineOutput
first_output = record {
  proposal = some (record {
    action = some "CONTINUE";
    target = some "inventory.primary";
    reason_code = some "NORMAL_FLOW";
  });
  failure = none;
}

abbrev first_state : SystemState
first_state = snapshot config 5 seen new_db.task_events 1 new_row

first_answer : setup.engine first_state ≡ ok first_output
unfolding get insert update Repositories.create_order_with_task Executor.run_continue
    Executor.run_retry Executor.execute Orchestrator.carry_out Orchestrator.handle_decision_point
    StateBuilder.build EventHandler.apply_success EventHandler.apply_failure
    EventHandler.apply_event EventHandler.handle_new EventHandler.receive
    EventHandler.handle_inventory_event Consumers.decide_if Consumers.handle_event Rules.decide
    Validator.validate Decision.parse_action Decision.resolve_action
first_answer = refl

decision_point-Decided_example :
    Post
      (Decided config first_state 1 new_row first_output new_db)
      (handle_decision_point setup seen supply 1 7 new_db)
decision_point-Decided_example =
    let k = Inv-Known config new_db 1 new_row new-Inv new_found in
    decision_point-Decided setup seen supply 1 7 new_db new_row k.order new_found k.has_order
      k.sound k.counted (omega arith) new_ready first_output first_answer

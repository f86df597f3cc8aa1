-- ===== src/Tests/Llm.antt =====
-- The LLM engine: texts that spell a decision, timeouts and failures.
use rule2llm_orch_lab.Prelude.{
  ℕ, ℕ_discrete, String, ◌≤◌, ◌≡◌, ◌≢◌, ◌⊎◌, inl, inr, refl, Option, none, some, [], ◌∷◌, ok, err,
  Error, arith, str_eq, if◌then◌else◌, Post, false,
}
use rule2llm_orch_lab.Prelude.Table.{get, insert, update}
use rule2llm_orch_lab.Contract.Vocabulary.{Target}
use rule2llm_orch_lab.Contract.Json
use rule2llm_orch_lab.Contract.Json.{Json, lookup}
use rule2llm_orch_lab.Contract.Decision
use rule2llm_orch_lab.Contract.Decision.{Decision, invalid_decision_abort, llm_timeout_abort}
use rule2llm_orch_lab.Contract.SystemState.{SystemState}
use rule2llm_orch_lab.Engine.Validator
use rule2llm_orch_lab.Engine.Rules
use rule2llm_orch_lab.Engine.Validator.Soundness.{IsAdmissible}
use rule2llm_orch_lab.Engine.Llm.{
  Exchange, body, timed_out, url_timed_out, url_failed, generate, llm_decide, output_of,
  parse_decision, parse_value,
}
use rule2llm_orch_lab.Engine.Llm.Laws.{json_of, executed_for, llm_executes}
use rule2llm_orch_lab.Engine.Llm.Spelling.{SpellsAdmissible, llm_executes_only}
use rule2llm_orch_lab.Engine.Llm.Exchanges.{GivesText, IsAnswered, HasCounts}
use rule2llm_orch_lab.Orders.Db.{OrdersDb}
use rule2llm_orch_lab.Orders.Repositories
use rule2llm_orch_lab.Orders.Executor
use rule2llm_orch_lab.Orders.EventHandler
use rule2llm_orch_lab.Orders.StateBuilder
use rule2llm_orch_lab.Orders.StateBuilder.{snapshot}
use rule2llm_orch_lab.Orders.Trajectory.{latest_request}
use rule2llm_orch_lab.Orders.Orchestrator
use rule2llm_orch_lab.Orders.Orchestrator.{Setup, DecisionOutcome, handle_decision_point}
use rule2llm_orch_lab.Orders.Consumers
use rule2llm_orch_lab.Orders.Consumers.{handle_event}
use rule2llm_orch_lab.Orders.Invariant.{Ended}
use rule2llm_orch_lab.Orders.Invariant.Events.{Echoes}
use rule2llm_orch_lab.Orders.System.{Inv, Settled}
use rule2llm_orch_lab.Orders.System.Runs.{Run, Step, Trace, decisions_of}
use rule2llm_orch_lab.Orders.System.Llm.{llm_setup, llm_bounded, llm_timeout_ends, llm_point}
use rule2llm_orch_lab.Tests.Data.{
  config, items, seen, supply, empty, new_db, new_row, busy_row, failure,
}
use rule2llm_orch_lab.Tests.Engine.{retry, retry-IsDecision}
use rule2llm_orch_lab.Tests.Engine
use rule2llm_orch_lab.Tests.Orders.{
  items_fit, new_view, new_created, new_found, new_ready, new-Inv, first_outcome,
  failure-is_message,
}

abbrev after_failure : SystemState
after_failure = Engine.failed

abbrev go : Decision
go = record {
  action = Decision.continue;
  target = some Target.inventory_primary;
  reason_code = "NORMAL_FLOW";
}

abbrev new_state : SystemState
new_state = snapshot config 5 seen new_db.task_events 1 new_row

-- A reader that knows two texts
abbrev loads : String → Option Json
loads t =
    if str_eq t "retry"
    then some (json_of retry)
    else if str_eq t "go"
    then some (json_of go)
    else none

retry-IsAdmissible : IsAdmissible config after_failure retry
retry-IsAdmissible = record {
  contract = retry-IsDecision;
  in_time = λ h. omega arith;
  live = refl;
  fits = ground arith;
}

llm_executes_example :
    executed_for config after_failure (output_of (parse_decision loads "retry")) ≡ ok retry
llm_executes_example = llm_executes config loads after_failure "retry" retry refl retry-IsAdmissible

llm_executes_only_example :
    (d : Decision) × (executed_for config after_failure (output_of (parse_decision loads "retry"))
      ≡ ok d)
    × (SpellsAdmissible config after_failure (loads "retry") d
        ⊎ ((d ≡ invalid_decision_abort)
            × ((e : Decision) → SpellsAdmissible config after_failure (loads "retry") e → ⊥)))
llm_executes_only_example = llm_executes_only config loads after_failure "retry"

abbrev wrote : String → Exchange
wrote t = body (
    Json.object (
      Json.field "response" (Json.text t) (
        Json.field "prompt_eval_count" (Json.number 12)
          (Json.field "eval_count" (Json.number 3) Json.end))))

wrote_text : (t : String) → GivesText (wrote t) t
unfolding lookup
wrote_text t = (_, refl, refl)

wrote_counts : (t : String) → HasCounts (wrote t)
unfolding lookup
wrote_counts t = (tt, tt)

-- A model that starts the first attempt and is too slow afterwards
abbrev after : Option Target → Exchange
after none = wrote "go"
after (some t) = timed_out

abbrev ask : SystemState → Exchange
ask s = after s.task.current_target

ask_counts : (s : SystemState) → HasCounts (ask s)
ask_counts s = go s.task.current_target
  where
    go : (t : Option Target) → HasCounts (after t)
    go none = wrote_counts "go"
    go (some t) = tt

ask-IsAnswered : (s : SystemState) → IsAnswered (ask s)
ask-IsAnswered s = go s.task.current_target
  where
    go : (t : Option Target) → IsAnswered (after t)
    go none = inr ("go", wrote_text "go")
    go (some t) = inl (inl refl)

abbrev slow : SystemState → Exchange
slow s = url_timed_out

abbrev broken : SystemState → Exchange
broken s = url_failed

abbrev llm : Setup
llm = llm_setup config 5 loads ask

abbrev sent_db : OrdersDb
sent_db = (handle_decision_point llm seen supply 1 7 new_db).1

abbrev go_outcome : DecisionOutcome
go_outcome = record first_outcome { executed = go }

go_decided : handle_decision_point llm seen supply 1 7 new_db ≡ (ok go_outcome, sent_db)
unfolding get insert update Repositories.create_order_with_task Executor.run_continue
    Executor.run_retry Executor.execute Orchestrator.carry_out Orchestrator.handle_decision_point
    StateBuilder.build EventHandler.apply_success EventHandler.apply_failure
    EventHandler.apply_event EventHandler.handle_new EventHandler.receive
    EventHandler.handle_inventory_event Consumers.decide_if Consumers.handle_event Rules.decide
    Validator.validate Decision.parse_action Decision.resolve_action llm_decide generate parse_value
    json_of lookup
go_decided = refl

late_out : Option DecisionOutcome
late_out = elim (handle_event llm seen supply 8 failure false sent_db).0 [
  | ok out ↦ out
  | err e ↦ none
]

abbrev late_db : OrdersDb
late_db = (handle_event llm seen supply 8 failure false sent_db).1

sent_found : get 1 sent_db.tasks ≡ some busy_row
unfolding get insert update Repositories.create_order_with_task Executor.run_continue
    Executor.run_retry Executor.execute Orchestrator.carry_out Orchestrator.handle_decision_point
    StateBuilder.build EventHandler.apply_success EventHandler.apply_failure
    EventHandler.apply_event EventHandler.handle_new EventHandler.receive
    EventHandler.handle_inventory_event Consumers.decide_if Consumers.handle_event Rules.decide
    Validator.validate Decision.parse_action Decision.resolve_action llm_decide generate parse_value
    json_of lookup
sent_found = refl

late_handled : handle_event llm seen supply 8 failure false sent_db ≡ (ok late_out, late_db)
unfolding late_out Executor.run_abort get insert update Repositories.create_order_with_task
    Executor.run_continue Executor.run_retry Executor.execute Orchestrator.carry_out
    Orchestrator.handle_decision_point StateBuilder.build EventHandler.apply_success
    EventHandler.apply_failure EventHandler.apply_event EventHandler.handle_new EventHandler.receive
    EventHandler.handle_inventory_event Consumers.decide_if Consumers.handle_event Rules.decide
    Validator.validate Decision.parse_action Decision.resolve_action llm_decide generate parse_value
    json_of lookup
late_handled = refl

sent_echo : Echoes failure (latest_request 1 sent_db.task_events)
unfolding get insert update Repositories.create_order_with_task Executor.run_continue
    Executor.run_retry Executor.execute Orchestrator.carry_out Orchestrator.handle_decision_point
    StateBuilder.build EventHandler.apply_success EventHandler.apply_failure
    EventHandler.apply_event EventHandler.handle_new EventHandler.receive
    EventHandler.handle_inventory_event Consumers.decide_if Consumers.handle_event Rules.decide
    Validator.validate Decision.parse_action Decision.resolve_action llm_decide generate parse_value
    json_of lookup
sent_echo e = refl

-- A creation, a decision that the model wrote, and a failure after which it is too slow
abbrev trace : Trace
trace = (1, none) ∷ (1, some go_outcome) ∷ (1, late_out) ∷ []

run : Run llm empty trace late_db
run =
    Run.next empty new_db late_db 1 none _
      (Step.created 1 0 items new_view (omega arith) items_fit new_created refl refl)
      (Run.next new_db sent_db late_db 1 (some go_outcome) _
        (Step.decided seen supply 7 go_outcome new_row new_found (omega arith) new_ready go_decided
          refl)
        (Run.next sent_db late_db late_db 1 late_out _
          (Step.event seen supply 8 failure false busy_row sent_found (omega arith) refl
            failure-is_message sent_echo late_handled refl)
          (Run.done late_db)))

one_decision : decisions_of 1 trace ≡ 1
unfolding late_out Executor.run_abort decisions_of ℕ_discrete get insert update
    Repositories.create_order_with_task Executor.run_continue Executor.run_retry Executor.execute
    Orchestrator.carry_out Orchestrator.handle_decision_point StateBuilder.build
    EventHandler.apply_success EventHandler.apply_failure EventHandler.apply_event
    EventHandler.handle_new EventHandler.receive EventHandler.handle_inventory_event
    Consumers.decide_if Consumers.handle_event Rules.decide Validator.validate Decision.parse_action
    Decision.resolve_action llm_decide generate parse_value json_of lookup
one_decision = refl

llm_bounded_example : decisions_of 1 trace ≤ 6
llm_bounded_example = llm_bounded config 5 loads ask ask_counts ask-IsAnswered 1 trace late_db run

llm_timeout_ends_example :
    Post
      (λ out after.
        (out.executed ≡ llm_timeout_abort)
        × Ended (get 1 after.tasks)
        × Inv config after
        × ((j : ℕ) → j ≢ 1 → get j after.tasks ≡ get j new_db.tasks))
      (handle_decision_point (llm_setup config 5 loads slow) seen supply 1 7 new_db)
llm_timeout_ends_example =
    llm_timeout_ends config 5 loads slow seen supply 1 7 new_db new-Inv new_row new_found
      (omega arith) new_ready (inr refl)

llm_point_example :
    (IsAnswered (broken new_state)
      → Post
          (λ out after. Settled config 1 new_db (some out) after)
          (handle_decision_point (llm_setup config 5 loads broken) seen supply 1 7 new_db))
    × ((IsAnswered (broken new_state) → ⊥)
        → (e : Error) × (handle_decision_point
              (llm_setup config 5 loads broken)
              seen
              supply
              1
              7
              new_db
            ≡ (err e, new_db)))
llm_point_example =
    llm_point config 5 loads broken seen supply 1 7 new_db new-Inv new_row new_found (omega arith)
      new_ready tt

-- The refused connection does raise.
broken_unanswered : (s : SystemState) → IsAnswered (broken s) → ⊥
broken_unanswered s (inl (inl e)) = cc
broken_unanswered s (inl (inr e)) = cc
broken_unanswered s (inr (t, (fs, e, has))) = cc

broken_raises :
    (e : Error) × (handle_decision_point (llm_setup config 5 loads broken) seen supply 1 7 new_db
      ≡ (err e, new_db))
broken_raises = llm_point_example.1 (broken_unanswered new_state)

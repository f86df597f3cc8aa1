-- ===== src/Orders/Orchestrator.antt =====
-- A decision point: `Orchestrator.handle_decision_point` of
-- services/orders/app/orchestration/orchestrator.py. The engine is a parameter, rules or LLM; it may
-- raise. The records written to `states.jsonl` and `decisions.jsonl` are the outcome's fields.
use rule2llm_orch_lab.Prelude.{ℕ, Result, Action, pure, gets, ◌>>=◌}
use rule2llm_orch_lab.Contract.Config.{MessagingConfig}
use rule2llm_orch_lab.Contract.Decision.{Decision, ValidationResult, resolve_action}
use rule2llm_orch_lab.Contract.SystemState.{SystemState}
use rule2llm_orch_lab.Engine.Output.{EngineOutput, is_timed_out}
use rule2llm_orch_lab.Engine.Validator.{validate}
use rule2llm_orch_lab.Orders.Db.{OrdersDb}
use rule2llm_orch_lab.Orders.Executor.{Supply, ExecutionResult, lift, execute}
use rule2llm_orch_lab.Orders.StateBuilder.{Observation, build}

abbrev pub Engine : Type 0
Engine = SystemState → Result EngineOutput

-- `DecisionOutcome`
pub record DecisionOutcome : Type 0 where
  pub state : SystemState
  pub validation : ValidationResult
  pub executed : Decision
  pub execution : ExecutionResult

-- What the two services are set up with: the configuration and the window of recent events.
pub record Setup : Type 0 where
  pub config : MessagingConfig
  pub recent_events_limit : ℕ
  pub engine : Engine

-- The executor's part of a decision point
unfoldable pub carry_out :
    Setup
    → Supply
    → ℕ
    → ℕ
    → SystemState
    → ValidationResult
    → Decision
    → Action OrdersDb DecisionOutcome
carry_out u i task_id decision_id state validation executed = do
  execution ← execute u.config i executed task_id decision_id
  pure (record {
    state = state;
    validation = validation;
    executed = executed;
    execution = execution;
  })

unfoldable pub handle_decision_point :
    Setup → Observation → Supply → ℕ → ℕ → Action OrdersDb DecisionOutcome
handle_decision_point u o i task_id decision_id = do
  db ← gets (λ db. db)
  state ← lift (build u.config u.recent_events_limit o db task_id)
  output ← lift (u.engine state)
  let validation = validate u.config output.proposal state (is_timed_out output.failure)
  executed ← lift (resolve_action output.proposal validation)
  carry_out u i task_id decision_id state validation executed

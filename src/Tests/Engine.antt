-- ===== src/Tests/Engine.antt =====
-- The engines, the validator and the texts of decisions.
use rule2llm_orch_lab.Prelude.{
  ◌≡◌, ◌↔◌, refl, inl, true, false, none, some, [], ◌∷◌, ok, err, contract_error, Returns, arith,
}
use rule2llm_orch_lab.Contract.Vocabulary
use rule2llm_orch_lab.Contract.Vocabulary.{TaskStatus, TaskResult, Target}
use rule2llm_orch_lab.Contract.Decision
use rule2llm_orch_lab.Contract.Decision.{
  Decision, ProposedDecision, ActionName, model_validate, resolve_action, valid, abort,
}
use rule2llm_orch_lab.Contract.Decision.Texts.{
  proposal_of, IsDecision, model_validate-proposal_of, model_validate_inv,
}
use rule2llm_orch_lab.Contract.SystemState
use rule2llm_orch_lab.Contract.SystemState.{SystemState, TaskView}
use rule2llm_orch_lab.Engine.Rules.{policy, dump, decide}
use rule2llm_orch_lab.Engine.Rules.Laws.{RetryDue, policy_raises_iff, IsSpent, policy_spent-abort}
use rule2llm_orch_lab.Engine.Validator.{validate}
use rule2llm_orch_lab.Engine.Validator.Soundness.{
  IsAdmissible, Executes, validate_iff, resolve-validate,
}
use rule2llm_orch_lab.Engine.Agreement.{IsCoherent, decide_accepted}
use rule2llm_orch_lab.Tests.Data.{config}

-- A task after a failure of its first attempt
abbrev task : TaskView
task = record {
  phase = TaskStatus.dispatched;
  current_service = none;
  current_target = some Target.inventory_primary;
  attempt_number = 1;
  max_attempts = 3;
  wait_count = 0;
  max_waits = 2;
  elapsed_ms = 1200;
}

abbrev pub failed : SystemState
failed = record {
  execution_id = 1;
  task_id = 1;
  state_id = 4;
  timestamp = 1200;
  current_event_seq = 3;
  task = task;
  service = record {
    status = SystemState.degraded;
    latency_ms = none;
    last_result = some TaskResult.transient_error;
  };
  messaging = record { queue_size = 0; redelivered = false };
  alternatives = record {
    fallback_available = true;
    fallback_used = false;
    alternative_targets = Target.inventory_fallback ∷ [];
  };
  recent_events = [];
}

-- The same task with nothing left to spend
abbrev spent : SystemState
spent = record failed {
  task = record task { attempt_number = 3; wait_count = 2 };
  alternatives = record {
    fallback_available = false;
    fallback_used = true;
    alternative_targets = [];
  };
}

abbrev pub retry : Decision
retry = record {
  action = ActionName.retry;
  target = some Target.inventory_primary;
  reason_code = "TRANSIENT_RETRY";
}

abbrev proposed : ProposedDecision
proposed = record {
  action = some "RETRY";
  target = some "inventory.primary";
  reason_code = some "TRANSIENT_RETRY";
}

pub retry-IsDecision : IsDecision retry
unfolding Decision.target_matches_action
retry-IsDecision = record { reason_given = refl; target_fits = refl }

retry_read : model_validate proposed ≡ ok retry
unfolding model_validate Decision.parse_action Decision.read_target Decision.make_decision
    Decision.target_matches_action Vocabulary.parse_target
retry_read = refl

failed-IsCoherent : IsCoherent config failed
failed-IsCoherent = record {
  attempts = refl;
  waits = refl;
  live = refl;
  failed_primary = λ e. refl;
  fresh = λ e. cc;
  never_ok = λ e. cc;
}

spent-IsSpent : IsSpent config spent
spent-IsSpent = record {
  attempts = omega arith;
  waits = omega arith;
  fallback = inl refl;
  past_start = inl refl;
}

validate_iff_example :
    (validate config (some proposed) failed false ≡ valid)
    ↔ ((d : Decision) × (model_validate proposed ≡ ok d) × IsAdmissible config failed d)
validate_iff_example = validate_iff config proposed failed

resolve-validate_example :
    (d : Decision) × (resolve_action (some proposed) (validate config (some proposed) spent false)
      ≡ ok d)
    × Executes config spent (some proposed) false d
resolve-validate_example = resolve-validate config (some proposed) spent false

decide_accepted_example :
    (d : Decision) × (policy config failed ≡ ok d)
    × IsAdmissible config failed d
    × (decide config failed ≡ ok (record { proposal = some (dump d); failure = none }))
    × (validate config (some (dump d)) failed false ≡ valid)
    × (resolve_action (some (dump d)) (validate config (some (dump d)) failed false) ≡ ok d)
decide_accepted_example = decide_accepted config failed failed-IsCoherent

policy_raises_iff_example :
    (policy config failed ≡ err contract_error)
    ↔ (RetryDue config failed × (failed.task.current_target ≡ none))
policy_raises_iff_example = policy_raises_iff config failed

policy_spent-abort_example : Returns (λ d. d.action ≡ abort) (policy config spent)
policy_spent-abort_example = policy_spent-abort config spent spent-IsSpent

model_validate-proposal_of_example : model_validate (proposal_of retry) ≡ ok retry
model_validate-proposal_of_example = model_validate-proposal_of retry retry-IsDecision

model_validate_inv_example : IsDecision retry × (proposed ≡ proposal_of retry)
model_validate_inv_example = model_validate_inv proposed retry retry_read

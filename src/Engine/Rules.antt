-- ===== src/Engine/Rules.antt =====
-- `RulesDecisionEngine` of app/orchestration/rules_engine.py: the first rule that fits decides.
pub mod Laws
use rule2llm_orch_lab.Prelude.{
  String, Bool, true, false, Option, none, some, Result, ok, err, ltb, leb, ◌&&◌, not,
  if◌then◌else◌,
}
use rule2llm_orch_lab.Contract.Vocabulary
use rule2llm_orch_lab.Contract.Vocabulary.{
  TaskStatus, TaskResult, Target, inventory_primary, inventory_fallback, target_value, is_transient,
}
use rule2llm_orch_lab.Contract.Config.{MessagingConfig}
use rule2llm_orch_lab.Contract.Decision.{
  ActionName, action_value, ReasonCode, reason_value, ProposedDecision, Decision, make_decision,
}
use rule2llm_orch_lab.Contract.SystemState.{
  SystemState, ServiceStatus, available, degraded, unavailable,
}
use rule2llm_orch_lab.Engine.Output.{EngineOutput}

-- `service.last_result == TaskResult.INVALID_DATA`, and the same for `FALLBACK_FAILED`
abbrev pub is_invalid_data : Option TaskResult → Bool
is_invalid_data (some TaskResult.invalid_data) = true
is_invalid_data _ = false

abbrev pub is_fallback_failed : Option TaskResult → Bool
is_fallback_failed (some TaskResult.fallback_failed) = true
is_fallback_failed _ = false

-- `service.status == "unavailable"`
abbrev pub is_unavailable : ServiceStatus → Bool
is_unavailable unavailable = true
is_unavailable _ = false

-- `task.phase in NORMAL_FLOW_PHASES`
abbrev pub is_normal_flow : TaskStatus → Bool
is_normal_flow TaskStatus.pending = true
is_normal_flow TaskStatus.waiting = true
is_normal_flow _ = false

-- `_decision`: raises if the target does not fit the action.
unfoldable pub decision : ActionName → Option Target → ReasonCode → Result Decision
unfolding make_decision reason_value
decision action target reason = make_decision action target (reason_value reason)

-- Rules 6 to 8 of `policy`, reached when the task is live, the service up and the queue short.
unfoldable pub policy_by_result : MessagingConfig → SystemState → Result Decision
unfolding decision
policy_by_result c s =
    if is_transient s.service.last_result
    then (if ltb s.task.attempt_number c.max_attempts
        then decision ActionName.retry s.task.current_target ReasonCode.transient_retry
        else if s.alternatives.fallback_available && not s.alternatives.fallback_used
        then decision ActionName.fallback (some inventory_fallback) ReasonCode.primary_exhausted
        else decision ActionName.abort none ReasonCode.attempts_exhausted)
    else if is_normal_flow s.task.phase
    then decision ActionName.continue (some inventory_primary) ReasonCode.normal_flow
    else decision ActionName.abort none ReasonCode.unmapped_state

-- Rules 4 and 5: wait while there is a budget for it.
unfoldable pub policy_by_pressure : MessagingConfig → SystemState → Result Decision
unfolding policy_by_result
policy_by_pressure c s =
    if is_unavailable s.service.status
    then (if ltb s.task.wait_count c.max_waits
        then decision ActionName.wait none ReasonCode.service_unavailable
        else decision ActionName.abort none ReasonCode.service_unavailable_limit)
    else if leb c.queue_high_watermark s.messaging.queue_size
    then (if ltb s.task.wait_count c.max_waits
        then decision ActionName.wait none ReasonCode.queue_pressure
        else decision ActionName.abort none ReasonCode.queue_pressure_limit)
    else policy_by_result c s

unfoldable pub policy : MessagingConfig → SystemState → Result Decision
unfolding policy_by_pressure
policy c s =
    if leb c.task_deadline_ms s.task.elapsed_ms
    then decision ActionName.abort none ReasonCode.task_deadline_exceeded
    else if is_invalid_data s.service.last_result
    then decision ActionName.abort none ReasonCode.invalid_data
    else if is_fallback_failed s.service.last_result
    then decision ActionName.abort none ReasonCode.fallback_failed
    else policy_by_pressure c s

-- `ProposedDecision(**decision.model_dump(mode="json"))`
unfoldable pub dump : Decision → ProposedDecision
unfolding action_value target_value
dump d = record {
  action = some (action_value d.action);
  target = elim d.target [ none ↦ none | some t ↦ some (target_value t) ];
  reason_code = some d.reason_code;
}

-- `RulesDecisionEngine.decide`
unfoldable pub decide : MessagingConfig → SystemState → Result EngineOutput
unfolding policy dump
decide c s = elim (policy c s) [
  | ok d ↦ ok (record { proposal = some (dump d); failure = none })
  | err e ↦ err e
]

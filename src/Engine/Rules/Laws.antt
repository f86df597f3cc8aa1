-- ===== src/Engine/Rules/Laws.antt =====
-- `RulesDecisionEngine.policy` as a whole: its exceptions and its end.
use rule2llm_orch_lab.Prelude.{
  ◌<◌, ◌≤◌, ◌≡◌, ◌↔◌, ◌⊎◌, true, false, none, err, contract_error, arith, Returns,
}
use rule2llm_orch_lab.Contract.Vocabulary.{is_transient}
use rule2llm_orch_lab.Contract.Config.{MessagingConfig}
use rule2llm_orch_lab.Contract.Decision.{abort}
use rule2llm_orch_lab.Contract.SystemState.{SystemState}
use rule2llm_orch_lab.Engine.Rules.{is_unavailable, is_normal_flow, policy}

-- The state in which the policy reaches its rule for a transient failure, with attempts left.
pub record RetryDue (c : MessagingConfig) (s : SystemState) : Type 0 where
  pub in_time : s.task.elapsed_ms < c.task_deadline_ms
  pub failed : is_transient s.service.last_result ≡ true
  pub up : is_unavailable s.service.status ≡ false
  pub short_queue : s.messaging.queue_size < c.queue_high_watermark
  pub attempts_left : s.task.attempt_number < c.max_attempts

-- The policy raises exactly when a retry is due for a task that was never dispatched.
pub policy_raises_iff :
    (c : MessagingConfig) (s : SystemState)
    → (policy c s ≡ err contract_error) ↔ (RetryDue c s × (s.task.current_target ≡ none))
unfolding policy
policy_raises_iff c s = ground arith

-- No budget is left: no attempt, no wait, no fallback, and the task is past its normal flow.
pub record IsSpent (c : MessagingConfig) (s : SystemState) : Type 0 where
  pub attempts : c.max_attempts ≤ s.task.attempt_number
  pub waits : c.max_waits ≤ s.task.wait_count
  pub fallback : (s.alternatives.fallback_available ≡ false) ⊎ (s.alternatives.fallback_used ≡ true)
  pub past_start :
      (is_transient s.service.last_result ≡ true) ⊎ (is_normal_flow s.task.phase ≡ false)

-- With every budget spent the policy aborts, whatever the other signals are.
pub policy_spent-abort :
    (c : MessagingConfig) (s : SystemState)
    → IsSpent c s
    → Returns (λ d. d.action ≡ abort) (policy c s)
unfolding policy
policy_spent-abort c s h = ground arith

-- ===== src/Engine/Agreement.antt =====
-- `RulesDecisionEngine` and `DecisionValidator` together, in the states of a decision point.
use rule2llm_orch_lab.Prelude.{◌≡◌, ◌≢◌, Returns, Returns-ok, true, false, none, some, ok, arith}
use rule2llm_orch_lab.Contract.Vocabulary.{TaskResult, is_transient, is_terminal, inventory_primary}
use rule2llm_orch_lab.Contract.Config.{MessagingConfig}
use rule2llm_orch_lab.Contract.Decision.{Decision, model_validate, resolve_action, valid}
use rule2llm_orch_lab.Contract.Decision.Texts.{proposal_of, model_validate-proposal_of}
use rule2llm_orch_lab.Contract.SystemState.{SystemState}
use rule2llm_orch_lab.Engine.Rules.{policy, dump, decide}
use rule2llm_orch_lab.Engine.Validator.{validate}
use rule2llm_orch_lab.Engine.Validator.Soundness.{IsAdmissible, validate_iff}

-- What the coordination layer guarantees of the state at a decision point.
pub record IsCoherent (c : MessagingConfig) (s : SystemState) : Type 0 where
  pub attempts : s.task.max_attempts ≡ c.max_attempts
  pub waits : s.task.max_waits ≡ c.max_waits
  pub live : is_terminal s.task.phase ≡ false
  pub failed_primary :
      is_transient s.service.last_result ≡ true → s.task.current_target ≡ some inventory_primary
  pub fresh : s.service.last_result ≡ none → s.task.current_target ≡ none
  pub never_ok : s.service.last_result ≢ some TaskResult.ok

-- In a coherent state the policy raises nothing, and its decision is admissible.
pub policy-IsAdmissible :
    (c : MessagingConfig) (s : SystemState)
    → IsCoherent c s
    → Returns (IsAdmissible c s) (policy c s)
unfolding policy
policy-IsAdmissible c s h = ground arith

pub dump-eq-proposal_of : (d : Decision) → dump d ≡ proposal_of d
unfolding dump proposal_of
dump-eq-proposal_of d = ground arith

accepted_of_policy :
    (c : MessagingConfig) (s : SystemState) (d : Decision)
    → policy c s ≡ ok d
    → IsAdmissible c s d
    → (decide c s ≡ ok (record { proposal = some (dump d); failure = none }))
      × (validate c (some (dump d)) s false ≡ valid)
      × (resolve_action (some (dump d)) (validate c (some (dump d)) s false) ≡ ok d)
unfolding decide resolve_action
accepted_of_policy c s d e adm =
    let read : model_validate (dump d) ≡ ok d =
      rw dump-eq-proposal_of (model_validate-proposal_of d adm.contract) in
    let fine : validate c (some (dump d)) s false ≡ valid =
      (validate_iff c (dump d) s).1 (d, read, adm) in
    (rw (e, decide), fine, rw fine read)

-- In a coherent state the rules engine returns, the validator accepts what it proposes, and what is
-- executed is the decision that the policy took, which is admissible.
pub decide_accepted :
    (c : MessagingConfig) (s : SystemState)
    → IsCoherent c s
    → (d : Decision) × (policy c s ≡ ok d)
      × IsAdmissible c s d
      × (decide c s ≡ ok (record { proposal = some (dump d); failure = none }))
      × (validate c (some (dump d)) s false ≡ valid)
      × (resolve_action (some (dump d)) (validate c (some (dump d)) s false) ≡ ok d)
decide_accepted c s h =
    let (d, e, adm) = Returns-ok (IsAdmissible c s) (policy c s) (policy-IsAdmissible c s h) in
    let (run, fine, resolved) = accepted_of_policy c s d e adm in (d, e, adm, run, fine, resolved)

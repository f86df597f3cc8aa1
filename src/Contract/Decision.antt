-- ===== src/Contract/Decision.antt =====
-- shared/decision.py: what an engine proposes, what the executor may run, and `resolve_action`.
pub mod Texts
use rule2llm_orch_lab.Prelude.{
  String, Bool, true, false, Option, none, some, Result, ok, err, contract_error, str_eq, is_some,
  is_none, ◌||◌, ◌&&◌, not, if◌then◌else◌,
}
use rule2llm_orch_lab.Contract.Vocabulary.{
  Target, inventory_primary, inventory_fallback, target_value, parse_target,
}

-- `Action`
pub data ActionName : Type 0 where
  continue retry wait fallback abort : ActionName

unfoldable pub action_value : ActionName → String
action_value continue = "CONTINUE"
action_value retry = "RETRY"
action_value wait = "WAIT"
action_value fallback = "FALLBACK"
action_value abort = "ABORT"

-- `Action(text)`; `none` for a text outside `ALLOWED_ACTIONS`.
unfoldable pub parse_action : String → Option ActionName
parse_action s =
    if str_eq s "CONTINUE"
    then some continue
    else if str_eq s "RETRY"
    then some retry
    else if str_eq s "WAIT"
    then some wait
    else if str_eq s "FALLBACK"
    then some fallback
    else if str_eq s "ABORT"
    then some abort
    else none

-- `ReasonCode`
pub data ReasonCode : Type 0 where
  normal_flow transient_retry primary_exhausted service_unavailable : ReasonCode
  service_unavailable_limit queue_pressure queue_pressure_limit attempts_exhausted : ReasonCode
  fallback_failed invalid_data task_deadline_exceeded unmapped_state invalid_decision : ReasonCode
  llm_decision_timeout : ReasonCode

unfoldable pub reason_value : ReasonCode → String
reason_value normal_flow = "NORMAL_FLOW"
reason_value transient_retry = "TRANSIENT_RETRY"
reason_value primary_exhausted = "PRIMARY_EXHAUSTED"
reason_value service_unavailable = "SERVICE_UNAVAILABLE"
reason_value service_unavailable_limit = "SERVICE_UNAVAILABLE_LIMIT"
reason_value queue_pressure = "QUEUE_PRESSURE"
reason_value queue_pressure_limit = "QUEUE_PRESSURE_LIMIT"
reason_value attempts_exhausted = "ATTEMPTS_EXHAUSTED"
reason_value fallback_failed = "FALLBACK_FAILED"
reason_value invalid_data = "INVALID_DATA"
reason_value task_deadline_exceeded = "TASK_DEADLINE_EXCEEDED"
reason_value unmapped_state = "UNMAPPED_STATE"
reason_value invalid_decision = "INVALID_DECISION"
reason_value llm_decision_timeout = "LLM_DECISION_TIMEOUT"

-- `ValidationErrorCode`
pub data ValidationErrorCode : Type 0 where
  unknown_action unknown_target missing_reason_code invalid_continue_target : ValidationErrorCode
  continue_after_dispatch retry_limit_exceeded invalid_retry_target : ValidationErrorCode
  fallback_retry_limit fallback_not_available fallback_already_used : ValidationErrorCode
  invalid_fallback_target target_not_allowed wait_limit_exceeded : ValidationErrorCode
  task_deadline_exceeded terminal_task malformed_decision llm_decision_timeout : ValidationErrorCode

-- `ProposedDecision`: any texts, or null.
pub record ProposedDecision : Type 0 where
  pub action : Option String
  pub target : Option String
  pub reason_code : Option String

-- `Decision`, a value that pydantic has validated
pub record Decision : Type 0 where
  pub action : ActionName
  pub target : Option Target
  pub reason_code : String

-- `_target_matches_action`
unfoldable pub target_matches_action : ActionName → Option Target → Bool
target_matches_action continue none = true
target_matches_action continue (some inventory_primary) = true
target_matches_action continue (some inventory_fallback) = false
target_matches_action retry t = is_some t
target_matches_action fallback t = is_some t
target_matches_action wait t = is_none t
target_matches_action abort t = is_none t

-- `Decision(action=…, target=…, reason_code=…)` raises unless its validators pass.
unfoldable pub make_decision : ActionName → Option Target → String → Result Decision
unfolding target_matches_action
make_decision action target reason =
    if not (str_eq reason "") && target_matches_action action target
    then ok (record { action = action; target = target; reason_code = reason })
    else err contract_error

-- The field `target` of a document: null, or a member of the enumeration.
unfoldable pub read_target : Option String → Result (Option Target)
unfolding parse_target
read_target none = ok none
read_target (some s) = elim (parse_target s) [ none ↦ err contract_error | some t ↦ ok (some t) ]

-- `Decision.model_validate(proposal.model_dump())`
unfoldable pub model_validate : ProposedDecision → Result Decision
unfolding read_target make_decision
model_validate p = elim p.action [
  | none ↦ err contract_error
  | some a ↦ elim (parse_action a) [
    | none ↦ err contract_error
    | some action ↦ elim (read_target p.target) [
      | err e ↦ err e
      | ok target ↦ elim p.reason_code [
        | none ↦ err contract_error
        | some reason ↦ make_decision action target reason
      ]
    ]
  ]
]

-- `ValidationResult`
pub data ValidationResult : Type 0 where
  valid : ValidationResult
  invalid : ValidationErrorCode → ValidationResult

-- `INVALID_DECISION_ABORT` and `LLM_TIMEOUT_ABORT`
abbrev pub invalid_decision_abort : Decision
invalid_decision_abort = record { action = abort; target = none; reason_code = "INVALID_DECISION" }

abbrev pub llm_timeout_abort : Decision
llm_timeout_abort = record { action = abort; target = none; reason_code = "LLM_DECISION_TIMEOUT" }

unfoldable pub resolve_action : Option ProposedDecision → ValidationResult → Result Decision
unfolding model_validate
resolve_action p (invalid ValidationErrorCode.llm_decision_timeout) = ok llm_timeout_abort
resolve_action p (invalid _) = ok invalid_decision_abort
resolve_action none valid = ok invalid_decision_abort
resolve_action (some p) valid = model_validate p

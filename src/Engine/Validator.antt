-- ===== src/Engine/Validator.antt =====
-- `DecisionValidator` of app/orchestration/validator.py, common to both engines.
pub mod Soundness
use rule2llm_orch_lab.Prelude.{
  String, Bool, true, false, Option, none, some, Result, ok, err, str_eq, ◌==◌, leb, is_some,
  is_none, ◌&&◌, ◌||◌, not, if◌then◌else◌,
}
use rule2llm_orch_lab.Contract.Vocabulary.{Target, target_value, parse_target, is_terminal}
use rule2llm_orch_lab.Contract.Config.{MessagingConfig}
use rule2llm_orch_lab.Contract.Decision
use rule2llm_orch_lab.Contract.Decision.{
  ActionName, continue, retry, wait, fallback, abort, parse_action, ProposedDecision,
  ValidationErrorCode, ValidationResult, valid, invalid,
}
use rule2llm_orch_lab.Contract.SystemState.{SystemState}

-- `DecisionValidator.__init__`: only one attempt in the fallback is supported.
unfoldable pub make_validator : MessagingConfig → Option MessagingConfig
make_validator c = if c.fallback_max_attempts == 1 then some c else none

-- `proposal.target in ALLOWED_TARGETS`
abbrev pub is_allowed_target : Option String → Bool
is_allowed_target none = true
is_allowed_target (some t) = str_eq t "inventory.primary" || str_eq t "inventory.fallback"

-- `not proposal.reason_code`: null or empty
abbrev pub is_blank : Option String → Bool
is_blank none = true
is_blank (some r) = str_eq r ""

-- `proposal.target in (None, PRIMARY)`
abbrev pub is_flow_target : Option String → Bool
is_flow_target none = true
is_flow_target (some t) = str_eq t "inventory.primary"

-- `proposal.target == FALLBACK`
abbrev pub is_fallback_text : Option String → Bool
is_fallback_text none = false
is_fallback_text (some t) = str_eq t "inventory.fallback"

-- `proposal.target is not None and proposal.target == task.current_target`
abbrev pub is_current_target : Option String → Option Target → Bool
is_current_target none current = false
is_current_target (some t) none = false
is_current_target (some t) (some current) = str_eq t (target_value current)

-- The checks on each action, between the deadline and the test of a terminal task.
unfoldable pub action_error : ActionName → Option String → SystemState → Option ValidationErrorCode
action_error continue target s =
    if not (is_flow_target target)
    then some ValidationErrorCode.invalid_continue_target
    else if is_some s.task.current_target
    then some ValidationErrorCode.continue_after_dispatch
    else none
action_error retry target s =
    if leb s.task.max_attempts s.task.attempt_number
    then some ValidationErrorCode.retry_limit_exceeded
    else if not (is_current_target target s.task.current_target)
    then some ValidationErrorCode.invalid_retry_target
    else if is_fallback_text target
    then some ValidationErrorCode.fallback_retry_limit
    else none
action_error fallback target s =
    if not s.alternatives.fallback_available
    then some ValidationErrorCode.fallback_not_available
    else if s.alternatives.fallback_used
    then some ValidationErrorCode.fallback_already_used
    else if not (is_fallback_text target)
    then some ValidationErrorCode.invalid_fallback_target
    else none
action_error wait target s =
    if is_some target
    then some ValidationErrorCode.target_not_allowed
    else if leb s.task.max_waits s.task.wait_count
    then some ValidationErrorCode.wait_limit_exceeded
    else none
action_error abort target s =
    if is_some target then some ValidationErrorCode.target_not_allowed else none

-- The checks that read the state, for an action of the enumeration.
unfoldable pub state_error :
    MessagingConfig → ActionName → Option String → SystemState → Option ValidationErrorCode
unfolding action_error
state_error c action target s =
    if leb c.task_deadline_ms s.task.elapsed_ms && elim action [ abort ↦ false | _ ↦ true ]
    then some ValidationErrorCode.task_deadline_exceeded
    else elim (action_error action target s) [
      | some e ↦ some e
      | none ↦ if is_terminal s.task.phase then some ValidationErrorCode.terminal_task else none
    ]

-- `_first_error`
unfoldable pub first_error :
    MessagingConfig → Option ProposedDecision → SystemState → Option ValidationErrorCode
unfolding state_error
first_error c none s = some ValidationErrorCode.malformed_decision
first_error c (some p) s = elim p.action [
  | none ↦ some ValidationErrorCode.unknown_action
  | some text ↦ elim (parse_action text) [
    | none ↦ some ValidationErrorCode.unknown_action
    | some action ↦
        if not (is_allowed_target p.target)
        then some ValidationErrorCode.unknown_target
        else if is_blank p.reason_code
        then some ValidationErrorCode.missing_reason_code
        else state_error c action p.target s
  ]
]

-- `validate`: `timed_out` says that the engine gave no decision in time.
unfoldable pub validate :
    MessagingConfig → Option ProposedDecision → SystemState → Bool → ValidationResult
unfolding first_error
validate c p s true = invalid ValidationErrorCode.llm_decision_timeout
validate c p s false = elim (first_error c p s) [ none ↦ valid | some e ↦ invalid e ]

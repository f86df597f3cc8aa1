-- ===== src/Engine/Validator/Soundness.antt =====
-- What the validator lets through, said without the validator: a decision of the contract that is
-- admissible in the state.
use rule2llm_orch_lab.Prelude.{
  ◌<◌, String, ◌≡◌, ◌≢◌, ◌↔◌, refl, ap, ◌∙◌, Bool, true, false, Option, none, some, ok, arith,
  str_eq, eq_iff, ◌⊎◌, inl, inr, Bool-cases, Option-cases,
}
use rule2llm_orch_lab.Contract.Vocabulary.{
  Target, inventory_primary, inventory_fallback, target_value, is_terminal,
}
use rule2llm_orch_lab.Contract.Config.{MessagingConfig}
use rule2llm_orch_lab.Contract.Decision.{
  ActionName, continue, retry, wait, fallback, abort, parse_action, Decision, ProposedDecision,
  model_validate, resolve_action, llm_timeout_abort, invalid_decision_abort, ValidationErrorCode,
  valid, invalid, target_matches_action,
}
use rule2llm_orch_lab.Contract.Decision.Texts.{
  parse_action-action_value, parse_action_inv, target_text, proposal_of, IsDecision,
  model_validate-proposal_of, model_validate_inv,
}
use rule2llm_orch_lab.Contract.SystemState.{SystemState}
use rule2llm_orch_lab.Engine.Validator.{
  is_allowed_target, is_current_target, action_error, state_error, first_error, validate,
}

-- What each action requires of its target and of the state.
abbrev pub Admits : ActionName → Option Target → SystemState → Type 0
Admits continue t s = (s.task.current_target ≡ none) × (t ≢ some inventory_fallback)
Admits retry t s =
    (s.task.attempt_number < s.task.max_attempts)
    × (s.task.current_target ≡ some inventory_primary)
    × (t ≡ some inventory_primary)
Admits fallback t s =
    (s.alternatives.fallback_available ≡ true)
    × (s.alternatives.fallback_used ≡ false)
    × (t ≡ some inventory_fallback)
Admits wait t s = (t ≡ none) × (s.task.wait_count < s.task.max_waits)
Admits abort t s = t ≡ none

pub record IsAdmissible (c : MessagingConfig) (s : SystemState) (d : Decision) : Type 0 where
  pub contract : IsDecision d
  pub in_time : d.action ≢ abort → s.task.elapsed_ms < c.task_deadline_ms
  pub live : is_terminal s.task.phase ≡ false
  pub fits : Admits d.action d.target s

is_current_target_iff :
    (t : Target) (current : Option Target)
    → (is_current_target (some (target_value t)) current ≡ true) ↔ (current ≡ some t)
unfolding target_value
is_current_target_iff t none = ground arith
is_current_target_iff inventory_primary (some inventory_primary) = ground arith
is_current_target_iff inventory_primary (some inventory_fallback) = ground arith
is_current_target_iff inventory_fallback (some inventory_primary) = ground arith
is_current_target_iff inventory_fallback (some inventory_fallback) = ground arith

action_error_iff :
    (a : ActionName) (t : Option Target) (s : SystemState)
    → (action_error a (target_text t) s ≡ none) ↔ Admits a t s
unfolding action_error target_text
action_error_iff continue none s = ground arith
action_error_iff continue (some inventory_primary) s = ground arith
action_error_iff continue (some inventory_fallback) s = ground arith
action_error_iff retry none s = ground arith
action_error_iff retry (some inventory_primary) s =
    ground (arith, is_current_target_iff inventory_primary s.task.current_target)
action_error_iff retry (some inventory_fallback) s = ground arith
action_error_iff fallback none s = ground arith
action_error_iff fallback (some inventory_primary) s = ground arith
action_error_iff fallback (some inventory_fallback) s = ground arith
action_error_iff wait none s = ground arith
action_error_iff wait (some t) s = ground arith
action_error_iff abort none s = ground arith
action_error_iff abort (some t) s = ground arith

allowed-target_text : (t : Option Target) → is_allowed_target (target_text t) ≡ true
unfolding target_text
allowed-target_text none = refl
allowed-target_text (some inventory_primary) = refl
allowed-target_text (some inventory_fallback) = refl

allowed_inv :
    (o : Option String) → is_allowed_target o ≡ true → (t : Option Target) × (o ≡ target_text t)
unfolding target_text
allowed_inv none h = (none, refl)
allowed_inv (some x) h = elim (Bool-cases (str_eq x "inventory.primary")) [
  | inl e ↦ (some inventory_primary, ap some ((eq_iff x "inventory.primary").0 e))
  | inr n ↦ (some inventory_fallback, ground (arith, eq_iff x "inventory.fallback"))
]

-- Once a proposal reads as a decision, only the state can speak against it.
first_error-proposal_of :
    (c : MessagingConfig) (s : SystemState) (d : Decision)
    → IsDecision d
    → first_error c (some (proposal_of d)) s ≡ state_error c d.action (target_text d.target) s
unfolding first_error proposal_of
first_error-proposal_of c s d h =
    ground (arith, parse_action-action_value d.action, allowed-target_text d.target)

Admits-matches :
    (a : ActionName) (t : Option Target) (s : SystemState)
    → Admits a t s
    → target_matches_action a t ≡ true
unfolding target_matches_action
Admits-matches continue none s h = refl
Admits-matches continue (some inventory_primary) s h = refl
Admits-matches continue (some inventory_fallback) s h = absurd (h.1 refl)
Admits-matches retry t s h = ground arith
Admits-matches fallback t s h = ground arith
Admits-matches wait t s h = ground arith
Admits-matches abort t s h = ground arith

state_error_iff :
    (c : MessagingConfig) (s : SystemState) (d : Decision)
    → IsDecision d
    → (state_error c d.action (target_text d.target) s ≡ none) ↔ IsAdmissible c s d
unfolding state_error
state_error_iff c s d h = ground (arith, action_error_iff d.action d.target s)

state_error-matches :
    (c : MessagingConfig) (a : ActionName) (t : Option Target) (s : SystemState)
    → state_error c a (target_text t) s ≡ none
    → target_matches_action a t ≡ true
unfolding state_error
state_error-matches c a t s h = ground (arith, action_error_iff a t s, Admits-matches a t s)

-- What passes the checks is the printed form of a decision.
first_error_inv :
    (c : MessagingConfig) (p : ProposedDecision) (s : SystemState)
    → first_error c (some p) s ≡ none
    → (d : Decision) × (p ≡ proposal_of d) × IsDecision d
unfolding first_error
first_error_inv c p s h = elim (Option-cases p.action) [
  | inl bad ↦ absurd (ground arith)
  | inr (text, pa) ↦ elim (Option-cases (parse_action text)) [
    | inl bad ↦ absurd (ground arith)
    | inr (a, known) ↦ elim (Option-cases p.reason_code) [
      | inl bad ↦ absurd (ground arith)
      | inr (r, pr) ↦
          let (t, pt) = allowed_inv p.target (ground arith) in
          (
            record { action = a; target = t; reason_code = r },
            unfold proposal_of in ground (arith, parse_action_inv text a known),
            ground (arith, state_error-matches c a t s),
          )
    ]
  ]
]

-- A proposal is accepted exactly when it reads as a decision of the contract that is admissible in
-- the state: the deadline is open unless it aborts, the task is live, and its action fits the target,
-- the budgets and the fallback.
pub validate_iff :
    (c : MessagingConfig) (p : ProposedDecision) (s : SystemState)
    → (validate c (some p) s false ≡ valid)
      ↔ ((d : Decision) × (model_validate p ≡ ok d) × IsAdmissible c s d)
unfolding validate
validate_iff c p s = (
  λ h.
      let (d, e, i) = first_error_inv c p s (ground arith) in
      (
        d,
        rw e (model_validate-proposal_of d i),
        (state_error_iff c s d i).0 (ground (arith, first_error-proposal_of c s d i)),
      ),
  λ (d, e, adm).
      let (i, pe) = model_validate_inv p d e in
      ground (arith, first_error-proposal_of c s d i, state_error_iff c s d i),
)

-- The checks never answer with the code that is kept for an engine which ran out of time.
action_error-ne-timeout :
    (a : ActionName) (o : Option String) (s : SystemState)
    → action_error a o s ≢ some ValidationErrorCode.llm_decision_timeout
unfolding action_error
action_error-ne-timeout continue o s = ground arith
action_error-ne-timeout retry o s = ground arith
action_error-ne-timeout fallback o s = ground arith
action_error-ne-timeout wait o s = ground arith
action_error-ne-timeout abort o s = ground arith

first_error-ne-timeout :
    (c : MessagingConfig) (p : ProposedDecision) (s : SystemState)
    → first_error c (some p) s ≢ some ValidationErrorCode.llm_decision_timeout
unfolding first_error state_error
first_error-ne-timeout c p s = elim (Option-cases p.action) [
  | inl bad ↦ ground arith
  | inr (text, pa) ↦ elim (Option-cases (parse_action text)) [
    | inl bad ↦ ground arith
    | inr (a, known) ↦ ground (arith, action_error-ne-timeout a p.target s)
  ]
]

resolve-invalid :
    (p : Option ProposedDecision) (e : ValidationErrorCode)
    → e ≢ ValidationErrorCode.llm_decision_timeout
    → resolve_action p (invalid e) ≡ ok invalid_decision_abort
unfolding resolve_action
resolve-invalid p ValidationErrorCode.llm_decision_timeout h = absurd (h refl)
resolve-invalid p _ h = refl

resolve-valid : (p : ProposedDecision) → resolve_action (some p) valid ≡ model_validate p
unfolding resolve_action
resolve-valid p = refl

-- What is executed after an engine answered `p`: the timeout abort if it was late; the proposal
-- itself if the validator accepts it, and then it is admissible; the abort for an invalid decision
-- in every other case.
abbrev pub Executes :
    MessagingConfig → SystemState → Option ProposedDecision → Bool → Decision → Type 0
Executes c s p true d = d ≡ llm_timeout_abort
Executes c s p false d =
    ((p ≡ some (proposal_of d)) × (validate c p s false ≡ valid) × IsAdmissible c s d)
    ⊎ ((validate c p s false ≢ valid) × (d ≡ invalid_decision_abort))

-- Whatever an engine returns, `resolve_action` after `validate` raises nothing and gives the
-- decision that `Executes` describes.
pub resolve-validate :
    (c : MessagingConfig) (p : Option ProposedDecision) (s : SystemState) (late : Bool)
    → (d : Decision) × (resolve_action p (validate c p s late) ≡ ok d) × Executes c s p late d
unfolding validate
resolve-validate c p s true = (llm_timeout_abort, unfold resolve_action in refl, refl)
resolve-validate c none s false = (
  invalid_decision_abort,
  resolve-invalid none ValidationErrorCode.malformed_decision (λ e. cc),
  inr ((λ e. unfold first_error in cc), refl),
)
resolve-validate c (some p) s false = elim (Option-cases (first_error c (some p) s)) [
  | inl fine ↦
      let (d, e, i) = first_error_inv c p s fine in
      (
        d,
        ground (arith, resolve-valid p, model_validate-proposal_of d i),
        inl (
          ap some e,
          ground arith,
          (state_error_iff c s d i).0 (ground (arith, first_error-proposal_of c s d i)),
        ),
      )
  | inr (e, found) ↦ (
    invalid_decision_abort,
    ground
        (arith, resolve-invalid (some p) e (λ t. first_error-ne-timeout c p s (found ∙ ap some t))),
    inr (ground arith, refl),
  )
]

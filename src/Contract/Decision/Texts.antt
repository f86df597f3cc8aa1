-- ===== src/Contract/Decision/Texts.antt =====
-- The texts of actions and targets (shared/decision.py, shared/messaging.py), read and printed.
use rule2llm_orch_lab.Prelude.{
  String, ◌≡◌, refl, inl, inr, true, false, Option, none, some, ok, str_eq, eq_iff, arith,
  Option-cases,
}
use rule2llm_orch_lab.Contract.Vocabulary.{
  Target, inventory_primary, inventory_fallback, target_value,
}
use rule2llm_orch_lab.Contract.Decision.{
  ActionName, continue, retry, wait, fallback, abort, action_value, parse_action, read_target,
  target_matches_action, make_decision, model_validate, Decision, ProposedDecision,
}

pub parse_action-action_value : (a : ActionName) → parse_action (action_value a) ≡ some a
unfolding parse_action action_value
parse_action-action_value continue = refl
parse_action-action_value retry = refl
parse_action-action_value wait = refl
parse_action-action_value fallback = refl
parse_action-action_value abort = refl

pub parse_action_inv : (s : String) (a : ActionName) → parse_action s ≡ some a → s ≡ action_value a
unfolding parse_action action_value
parse_action_inv s a h = ground (
  arith,
  eq_iff s "CONTINUE",
  eq_iff s "RETRY",
  eq_iff s "WAIT",
  eq_iff s "FALLBACK",
  eq_iff s "ABORT",
)

-- A target as the text, or the null, of a document.
unfoldable pub target_text : Option Target → Option String
unfolding target_value
target_text none = none
target_text (some t) = some (target_value t)

pub read_target-target_text : (t : Option Target) → read_target (target_text t) ≡ ok t
unfolding read_target target_text
read_target-target_text none = refl
read_target-target_text (some inventory_primary) = refl
read_target-target_text (some inventory_fallback) = refl

pub read_target_inv :
    (o : Option String) (t : Option Target) → read_target o ≡ ok t → o ≡ target_text t
unfolding read_target target_text
read_target_inv none t h = ground arith
read_target_inv (some s) t h =
    ground (arith, eq_iff s "inventory.primary", eq_iff s "inventory.fallback")

-- The proposal that prints as a given decision.
unfoldable pub proposal_of : Decision → ProposedDecision
unfolding action_value target_text
proposal_of d = record {
  action = some (action_value d.action);
  target = target_text d.target;
  reason_code = some d.reason_code;
}

-- A value of `Decision`: what pydantic's validators have let through.
pub record IsDecision (d : Decision) : Type 0 where
  pub reason_given : str_eq d.reason_code "" ≡ false
  pub target_fits : target_matches_action d.action d.target ≡ true

pub make_decision-IsDecision :
    (a : ActionName) (t : Option Target) (r : String) (d : Decision)
    → make_decision a t r ≡ ok d
    → IsDecision d × (d ≡ record { action = a; target = t; reason_code = r })
unfolding make_decision
make_decision-IsDecision a t r d h = ground arith

-- A decision that is printed and read again is the same decision.
pub model_validate-proposal_of :
    (d : Decision) → IsDecision d → model_validate (proposal_of d) ≡ ok d
unfolding model_validate make_decision proposal_of
model_validate-proposal_of d h =
    ground (arith, parse_action-action_value d.action, read_target-target_text d.target)

-- What is read as a decision was the printed form of one.
pub model_validate_inv :
    (p : ProposedDecision) (d : Decision)
    → model_validate p ≡ ok d
    → IsDecision d × (p ≡ proposal_of d)
unfolding model_validate make_decision proposal_of
model_validate_inv p d h = elim (Option-cases p.action) [
  | inl bad ↦ ground arith
  | inr (a, pa) ↦ ground (arith, parse_action_inv a d.action, read_target_inv p.target d.target)
]

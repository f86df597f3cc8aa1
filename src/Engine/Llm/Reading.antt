-- ===== src/Engine/Llm/Reading.antt =====
-- Which JSON objects spell a decision, against `parse_decision`
-- (services/orders/app/llm/decision_parser.py).
use rule2llm_orch_lab.Prelude.{
  String, ◌≡◌, ◌↔◌, ◌⊎◌, inl, inr, refl, false, Option, none, some, arith, Bool, str_eq, true, ap,
  ◌&&◌, if◌then◌else◌, eq_iff,
}
use rule2llm_orch_lab.Contract.Vocabulary.{Target, target_value}
use rule2llm_orch_lab.Contract.Json
use rule2llm_orch_lab.Contract.Json.{Json, Fields, lookup, all_fields}
use rule2llm_orch_lab.Contract.Decision.{Decision, ProposedDecision, action_value}
use rule2llm_orch_lab.Contract.Decision.Texts.{proposal_of, target_text}
use rule2llm_orch_lab.Engine.Llm.{proposal_of_fields}
use rule2llm_orch_lab.Contract.Json.{text_of, as_text, is_text_or_null}
use rule2llm_orch_lab.Engine.Llm.{is_contract_field, field_is_text}

-- The fields are those of the contract, and their values are texts or null.
unfoldable pub OnlyFields : Fields → Type 0
OnlyFields Json.end = Unit
OnlyFields (Json.field k v fs) =
    ((k ≡ "action") ⊎ (k ≡ "target") ⊎ (k ≡ "reason_code"))
    × ((v ≡ Json.null) ⊎ ((t : String) × (v ≡ Json.text t)))
    × OnlyFields fs

-- A target is spelled by its text, and no target by null or by no field.
abbrev pub SpellsTarget : Option Json → Option Target → Type 0
SpellsTarget v none = (v ≡ none) ⊎ (v ≡ some Json.null)
SpellsTarget v (some t) = v ≡ some (Json.text (target_value t))

-- An object spells a decision if it has its action and its reason, its target and no other field.
pub record Spells (fs : Fields) (d : Decision) : Type 0 where
  pub action : lookup "action" fs ≡ some (Json.text (action_value d.action))
  pub target : SpellsTarget (lookup "target" fs) d.target
  pub reason : lookup "reason_code" fs ≡ some (Json.text d.reason_code)
  pub only : OnlyFields fs

contract_key :
    (k : String) (v : Json)
    → (is_contract_field k v ≡ true) ↔ ((k ≡ "action") ⊎ (k ≡ "target") ⊎ (k ≡ "reason_code"))
contract_key k v = ground (arith, eq_iff k "action", eq_iff k "target", eq_iff k "reason_code")

text_or_null :
    (v : Json) → (is_text_or_null v ≡ true) ↔ ((v ≡ Json.null) ⊎ ((t : String) × (v ≡ Json.text t)))
text_or_null Json.null = (λ h. inl refl, λ h. refl)
text_or_null (Json.text t) = (λ h. inr (t, refl), λ h. refl)
text_or_null (Json.boolean b) = (λ h. ground arith, λ h. ground arith)
text_or_null (Json.number n) = (λ h. ground arith, λ h. ground arith)
text_or_null (Json.array xs) = (λ h. ground arith, λ h. ground arith)
text_or_null (Json.object fs) = (λ h. ground arith, λ h. ground arith)

and_true : (a b : Bool) → (a && b ≡ true) ↔ ((a ≡ true) × (b ≡ true))
and_true true b = (λ h. (refl, h), λ h. h.1)
and_true false b = (λ h. ground arith, λ h. h.0)

pub OnlyFields-iff :
    (fs : Fields)
    → ((all_fields is_contract_field fs ≡ true) × (all_fields field_is_text fs ≡ true))
      ↔ OnlyFields fs
unfolding all_fields OnlyFields
OnlyFields-iff Json.end = (λ h. tt, λ h. (refl, refl))
OnlyFields-iff (Json.field k v fs) = (
  λ h.
      let (key, keys) =
        (and_true (is_contract_field k v) (all_fields is_contract_field fs)).0 h.0 in
      let (value, values) = (and_true (field_is_text k v) (all_fields field_is_text fs)).0 h.1 in
      ((contract_key k v).0 key, (text_or_null v).0 value, (OnlyFields-iff fs).0 (keys, values)),
  λ h.
      let (keys, values) = (OnlyFields-iff fs).1 h.2 in
      (
        (and_true (is_contract_field k v) (all_fields is_contract_field fs)).1
            ((contract_key k v).1 h.0, keys),
        (and_true (field_is_text k v) (all_fields field_is_text fs)).1
            ((text_or_null v).1 h.1, values),
      ),
)

text_of_inv : (v : Option Json) (t : String) → text_of v ≡ some t → v ≡ some (Json.text t)
text_of_inv none t h = ground arith
text_of_inv (some Json.null) t h = ground arith
text_of_inv (some (Json.boolean b)) t h = ground arith
text_of_inv (some (Json.number n)) t h = ground arith
text_of_inv (some (Json.text u)) t h = ground arith
text_of_inv (some (Json.array xs)) t h = ground arith
text_of_inv (some (Json.object fs)) t h = ground arith

-- A field of such an object that has no text is null.
no_text_inv :
    (key : String) (fs : Fields)
    → OnlyFields fs
    → text_of (lookup key fs) ≡ none
    → (lookup key fs ≡ none) ⊎ (lookup key fs ≡ some Json.null)
unfolding OnlyFields lookup
no_text_inv key Json.end only h = inl refl
no_text_inv key (Json.field k v fs) only h = go (str_eq k key) (no_text_inv key fs only.2) only.1 h
  where
    go :
        (b : Bool)
        → (text_of (lookup key fs) ≡ none
            → (lookup key fs ≡ none) ⊎ (lookup key fs ≡ some Json.null))
        → ((v ≡ Json.null) ⊎ ((t : String) × (v ≡ Json.text t)))
        → text_of (if b then some v else lookup key fs) ≡ none
        → ((if b then some v else lookup key fs) ≡ none)
          ⊎ ((if b then some v else lookup key fs) ≡ some Json.null)
    go false rest value h = rest h
    go true rest (inl e) h = inr (ap some e)
    go true rest (inr (t, e)) h = ground arith

-- What the parser reads out of an object is what the object spells.
pub proposal_iff :
    (fs : Fields) (d : Decision)
    → (OnlyFields fs × (proposal_of_fields fs ≡ proposal_of d)) ↔ Spells fs d
unfolding proposal_of_fields proposal_of target_text
proposal_iff fs d = (λ h. spells h, λ h. (h.only, proposed h))
  where
    target_of :
        (t : Option Target)
        → OnlyFields fs
        → text_of (lookup "target" fs) ≡ target_text t
        → SpellsTarget (lookup "target" fs) t
    target_of none only e = no_text_inv "target" fs only e
    target_of (some t) only e = text_of_inv (lookup "target" fs) (target_value t) e

    target_back :
        (t : Option Target)
        → SpellsTarget (lookup "target" fs) t
        → text_of (lookup "target" fs) ≡ target_text t
    target_back none (inl e) = ap text_of e
    target_back none (inr e) = ap text_of e
    target_back (some t) e = ap text_of e

    spells : OnlyFields fs × (proposal_of_fields fs ≡ proposal_of d) → Spells fs d
    spells (only, e) = record {
      action =
          text_of_inv (lookup "action" fs) (action_value d.action)
            (ap (λ (p : ProposedDecision). p.action) e);
      target = target_of d.target only (ap (λ (p : ProposedDecision). p.target) e);
      reason =
          text_of_inv (lookup "reason_code" fs) d.reason_code
            (ap (λ (p : ProposedDecision). p.reason_code) e);
      only = only;
    }

    proposed : Spells fs d → proposal_of_fields fs ≡ proposal_of d
    proposed h =
        let a : text_of (lookup "action" fs) ≡ some (action_value d.action) = ap text_of h.action in
        let b : text_of (lookup "target" fs) ≡ target_text d.target =
          target_back d.target h.target in
        let c : text_of (lookup "reason_code" fs) ≡ some d.reason_code = ap text_of h.reason in
        rw (a, b, c) refl

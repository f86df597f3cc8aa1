-- ===== src/Engine/Llm/Spelling.antt =====
-- What a text of the model can make the coordination layer execute
-- (services/orders/app/llm/decision_parser.py).
use rule2llm_orch_lab.Prelude.{
  String, ◌≡◌, ◌≢◌, ◌⊎◌, inl, inr, refl, false, Option, none, some, ok, true, sym, ◌∙◌, Bool-cases,
}
use mathlib.Core.Path.{subst}
use rule2llm_orch_lab.Engine.Output.{
  ParseError, invalid_json, not_an_object, unexpected_fields, invalid_field_type,
}
use rule2llm_orch_lab.Contract.Json.{Json, Fields, all_fields}
use rule2llm_orch_lab.Contract.Config.{MessagingConfig}
use rule2llm_orch_lab.Contract.Decision.{Decision, ProposedDecision, valid, invalid_decision_abort}
use rule2llm_orch_lab.Contract.Decision.Texts.{proposal_of, model_validate-proposal_of}
use rule2llm_orch_lab.Contract.SystemState.{SystemState}
use rule2llm_orch_lab.Engine.Validator.{validate}
use rule2llm_orch_lab.Engine.Validator.Soundness.{
  IsAdmissible, Executes, resolve-validate, validate_iff,
}
use rule2llm_orch_lab.Engine.Llm.{
  parsed, refused, parse_value, proposal_of_fields, output_of, parse_decision,
}
use rule2llm_orch_lab.Engine.Llm.{is_contract_field, field_is_text}
use rule2llm_orch_lab.Engine.Llm.Laws.{executed_for}
use rule2llm_orch_lab.Engine.Llm.Reading.{OnlyFields, OnlyFields-iff, Spells, proposal_iff}

true_not_false : true ≢ false
true_not_false e = cc

-- The text spells an admissible decision.
abbrev pub SpellsAdmissible : MessagingConfig → SystemState → Option Json → Decision → Type 0
SpellsAdmissible c s v d =
    (fs : Fields) × (v ≡ some (Json.object fs)) × Spells fs d × IsAdmissible c s d

-- What is executed for a value that was read
abbrev Executed : MessagingConfig → SystemState → Option Json → Type 0
Executed c s v =
    (d : Decision) × (executed_for c s (output_of (parse_value v)) ≡ ok d)
    × (SpellsAdmissible c s v d
        ⊎ ((d ≡ invalid_decision_abort) × ((e : Decision) → SpellsAdmissible c s v e → ⊥)))

module _ (c : MessagingConfig) (s : SystemState) where
  refused_output :
      (v : Option Json) (e : ParseError)
      → parse_value v ≡ refused e
      → ((d : Decision) → SpellsAdmissible c s v d → ⊥)
      → Executed c s v
  unfolding executed_for
  refused_output v e same none_spelled =
      let (d, run, x) = resolve-validate c none s false in
      (d, rw same run, inr (aborted x, none_spelled))
    where
      aborted : {d : Decision} → Executes c s none false d → d ≡ invalid_decision_abort
      aborted (inl h) = absurd (no_proposal h.0)
        where
          no_proposal : {p : ProposedDecision} → ◌≢◌ {A = Option ProposedDecision} none (some p)
          no_proposal e = cc
      aborted (inr h) = h.1

  parsed_output :
      (fs : Fields)
      → OnlyFields fs
      → parse_value (some (Json.object fs)) ≡ parsed (proposal_of_fields fs)
      → Executed c s (some (Json.object fs))
  unfolding executed_for
  parsed_output fs only same =
      let (d, run, x) = resolve-validate c (some (proposal_of_fields fs)) s false in
      (d, rw same run, spelled x)
    where
      proposal_is : {p q : ProposedDecision} → some p ≡ some q → p ≡ q
      proposal_is e = cc

      fields_are : {gs : Fields} → some (Json.object fs) ≡ some (Json.object gs) → fs ≡ gs
      fields_are e = cc

      refuses :
          validate c (some (proposal_of_fields fs)) s false ≢ valid
          → (e : Decision) → SpellsAdmissible c s (some (Json.object fs)) e
          → ⊥
      refuses refused_ e (gs, same, spells, adm) =
          let mine : Spells fs e = subst (λ gs. Spells gs e) (sym (fields_are same)) spells in
          let reads : proposal_of_fields fs ≡ proposal_of e = ((proposal_iff fs e).1 mine).1 in
          refused_ (
            rw reads (
              (validate_iff c (proposal_of e) s).1
                (e, model_validate-proposal_of e adm.contract, adm)))

      spelled :
          {d : Decision}
          → Executes c s (some (proposal_of_fields fs)) false d
          → SpellsAdmissible c s (some (Json.object fs)) d
            ⊎ ((d ≡ invalid_decision_abort)
                × ((e : Decision) → SpellsAdmissible c s (some (Json.object fs)) e → ⊥))
      spelled {d} (inl h) = inl (fs, refl, (proposal_iff fs d).0 (only, proposal_is h.0), h.2)
      spelled (inr h) = inr (h.1, refuses h.0)

  no_object :
      (v : Option Json)
      → ((fs : Fields) → v ≢ some (Json.object fs))
      → (d : Decision) → SpellsAdmissible c s v d
      → ⊥
  no_object v other d (fs, same, spells, adm) = other fs same

  unclean :
      (fs : Fields)
      → (OnlyFields fs → ⊥)
      → (d : Decision) → SpellsAdmissible c s (some (Json.object fs)) d
      → ⊥
  unclean fs dirty d (gs, same, spells, adm) =
      dirty (subst OnlyFields (sym (fields_are same)) spells.only)
    where
      fields_are : some (Json.object fs) ≡ some (Json.object gs) → fs ≡ gs
      fields_are e = cc

  object_output : (fs : Fields) → Executed c s (some (Json.object fs))
  unfolding parse_value
  object_output fs = elim (Bool-cases (all_fields is_contract_field fs)) [
    | inr bad ↦
        refused_output (some (Json.object fs)) unexpected_fields (rw bad refl)
          (unclean fs (λ only. true_not_false (sym ((OnlyFields-iff fs).1 only).0 ∙ bad)))
    | inl keys ↦ elim (Bool-cases (all_fields field_is_text fs)) [
      | inr bad ↦
          refused_output (some (Json.object fs)) invalid_field_type (rw (keys, bad) refl)
            (unclean fs (λ only. true_not_false (sym ((OnlyFields-iff fs).1 only).1 ∙ bad)))
      | inl values ↦
          parsed_output fs ((OnlyFields-iff fs).0 (keys, values)) (rw (keys, values) refl)
    ]
  ]

  value_output : (v : Option Json) → Executed c s v
  unfolding parse_value
  value_output none = refused_output none invalid_json refl (no_object none (λ fs e. cc))
  value_output (some (Json.object fs)) = object_output fs
  value_output (some Json.null) =
      refused_output (some Json.null) not_an_object refl (no_object _ (λ fs e. cc))
  value_output (some (Json.boolean b)) =
      refused_output (some (Json.boolean b)) not_an_object refl (no_object _ (λ fs e. cc))
  value_output (some (Json.number n)) =
      refused_output (some (Json.number n)) not_an_object refl (no_object _ (λ fs e. cc))
  value_output (some (Json.text t)) =
      refused_output (some (Json.text t)) not_an_object refl (no_object _ (λ fs e. cc))
  value_output (some (Json.array xs)) =
      refused_output (some (Json.array xs)) not_an_object refl (no_object _ (λ fs e. cc))

-- Whatever text the model writes, a decision is executed. Either it is admissible, and the text is an
-- object that has its action and its reason, its target, and no other field; or no decision is spelled
-- so, and it is the abort that replaces a refused decision. Nothing is repaired, and nothing that is
-- well spelled is refused.
pub llm_executes_only :
    (c : MessagingConfig) (loads : String → Option Json) (s : SystemState) (output : String)
    → (d : Decision) × (executed_for c s (output_of (parse_decision loads output)) ≡ ok d)
      × (SpellsAdmissible c s (loads output) d
          ⊎ ((d ≡ invalid_decision_abort)
              × ((e : Decision) → SpellsAdmissible c s (loads output) e → ⊥)))
llm_executes_only c loads s output = value_output c s (loads output)

-- ===== src/Engine/Llm/Laws.antt =====
-- `LLMDecisionEngine`, the validator and `resolve_action` together, for a text that is written from a
-- decision.
use rule2llm_orch_lab.Prelude.{String, ◌≡◌, false, Option, none, some, Result, ok, arith}
use rule2llm_orch_lab.Contract.Vocabulary.{Target, target_value}
use rule2llm_orch_lab.Contract.Json
use rule2llm_orch_lab.Contract.Json.{Json, Fields, lookup, all_fields}
use rule2llm_orch_lab.Contract.Config.{MessagingConfig}
use rule2llm_orch_lab.Contract.Decision.{Decision, action_value, resolve_action, valid}
use rule2llm_orch_lab.Contract.Decision.Texts.{proposal_of, target_text, model_validate-proposal_of}
use rule2llm_orch_lab.Contract.SystemState.{SystemState}
use rule2llm_orch_lab.Engine.Output.{EngineOutput, is_timed_out}
use rule2llm_orch_lab.Engine.Validator.{validate}
use rule2llm_orch_lab.Engine.Validator.Soundness.{IsAdmissible, validate_iff}
use rule2llm_orch_lab.Engine.Llm.{parsed, parse_value, output_of, parse_decision}

abbrev json_of_target : Option Target → Json
json_of_target none = Json.null
json_of_target (some t) = Json.text (target_value t)

-- `decision.model_dump()`, as the object that a model writes
unfoldable pub json_of : Decision → Json
unfolding action_value target_value
json_of d = Json.object (
    Json.field "action" (Json.text (action_value d.action)) (
      Json.field "target" (json_of_target d.target)
        (Json.field "reason_code" (Json.text d.reason_code) Json.end)))

-- The object of a decision is read as that decision.
pub parse-json_of : (d : Decision) → parse_value (some (json_of d)) ≡ parsed (proposal_of d)
unfolding parse_value json_of proposal_of target_text
parse-json_of d = ground arith

-- What is executed for an output
unfoldable pub executed_for : MessagingConfig → SystemState → EngineOutput → Result Decision
executed_for c s output =
    resolve_action output.proposal (validate c output.proposal s (is_timed_out output.failure))

-- A text that spells an admissible decision of the contract is executed as that decision.
pub llm_executes :
    (c : MessagingConfig) (loads : String → Option Json) (s : SystemState) (output : String)
    (d : Decision)
    → loads output ≡ some (json_of d)
    → IsAdmissible c s d
    → executed_for c s (output_of (parse_decision loads output)) ≡ ok d
unfolding executed_for resolve_action
llm_executes c loads s output d reads adm =
    let fine : validate c (some (proposal_of d)) s false ≡ valid =
      (validate_iff c (proposal_of d) s).1 (d, model_validate-proposal_of d adm.contract, adm) in
    rw (reads, parse-json_of d, fine) (model_validate-proposal_of d adm.contract)

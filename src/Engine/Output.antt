-- ===== src/Engine/Output.antt =====
-- `EngineOutput` of app/orchestration/decision_engine.py. The fields that only go to the log
-- (`llm_inference_ms`, `raw_response`, `done_reason`) are left out.
use rule2llm_orch_lab.Prelude.{Bool, true, false, Option, some}
use rule2llm_orch_lab.Contract.Decision.{ProposedDecision}

-- `ParseError` of app/llm/decision_parser.py
pub data ParseError : Type 0 where
  invalid_json not_an_object unexpected_fields invalid_field_type : ParseError

-- `failure`: `LLM_DECISION_TIMEOUT`, or `MALFORMED_OUTPUT:` with a parse error.
pub data Failure : Type 0 where
  decision_timeout : Failure
  malformed_output : ParseError → Failure

pub record EngineOutput : Type 0 where
  pub proposal : Option ProposedDecision
  pub failure : Option Failure

-- `output.failure == LLM_DECISION_TIMEOUT`
abbrev pub is_timed_out : Option Failure → Bool
is_timed_out (some decision_timeout) = true
is_timed_out _ = false

-- ===== src/Engine/Llm.antt =====
-- services/orders/app/llm: `decision_parser.py`, `llm_engine.py` and the outcomes of
-- `OllamaClient.generate`. The exchange over HTTP is a parameter, and so is `json.loads`, which gives
-- none where it raises `JSONDecodeError`.
pub mod Laws
pub mod Reading
pub mod Spelling
pub mod Exchanges
use rule2llm_orch_lab.Prelude.{
  String, Bool, true, false, Option, none, some, Result, ok, err, Error, llm_runtime_error,
  type_error, ◌+◌, attribute_error, str_eq, not, ◌||◌, if◌then◌else◌,
}
use Prim.Native.String.{◌++◌}
use rule2llm_orch_lab.Contract.Json
use rule2llm_orch_lab.Contract.Json.{
  Json, Fields, lookup, all_fields, as_text, text_of, is_text_or_null, append_items,
}
use rule2llm_orch_lab.Contract.Decision.{ProposedDecision}
use rule2llm_orch_lab.Contract.SystemState.{SystemState}
use rule2llm_orch_lab.Engine.Output.{
  EngineOutput, ParseError, invalid_json, not_an_object, unexpected_fields, invalid_field_type,
  Failure, decision_timeout, malformed_output,
}

-- `ParseResult`
pub data ParseResult : Type 0 where
  parsed : ProposedDecision → ParseResult
  refused : ParseError → ParseResult

-- `key in CONTRACT_FIELDS`
abbrev pub is_contract_field : String → Json → Bool
is_contract_field key v = str_eq key "action" || str_eq key "target" || str_eq key "reason_code"

abbrev pub field_is_text : String → Json → Bool
field_is_text key v = is_text_or_null v

-- `ProposedDecision(action=value.get("action"), …)`
unfoldable pub proposal_of_fields : Fields → ProposedDecision
unfolding lookup
proposal_of_fields fs = record {
  action = text_of (lookup "action" fs);
  target = text_of (lookup "target" fs);
  reason_code = text_of (lookup "reason_code" fs);
}

-- `parse_decision`, after `json.loads`
unfoldable pub parse_value : Option Json → ParseResult
unfolding proposal_of_fields all_fields
parse_value none = refused invalid_json
parse_value (some (Json.object fs)) =
    if not (all_fields is_contract_field fs)
    then refused unexpected_fields
    else if not (all_fields field_is_text fs)
    then refused invalid_field_type
    else parsed (proposal_of_fields fs)
parse_value (some _) = refused not_an_object

-- `parse_decision`
abbrev pub parse_decision : (String → Option Json) → String → ParseResult
parse_decision loads output = parse_value (loads output)

-- What `urlopen` and `json.load` do: a body, a timeout (its own or as the reason of a `URLError`), any
-- other `URLError`, a body that `json.load` refuses with `JSONDecodeError` or that cannot be read
-- (`OSError`), or an exception that `_request` does not catch.
pub data Exchange : Type 0 where
  body : Json → Exchange
  timed_out url_timed_out url_failed unreadable : Exchange
  escaped : Error → Exchange

-- A text with its `prompt_eval_count` and `eval_count`, `LLMTimeout` or another exception
pub data Generation : Type 0 where
  generated : String → Option Json → Option Json → Generation
  llm_timeout : Generation
  failed : Error → Generation

-- `generate`, after `_request` has given an object and its `response`
abbrev pub generation_of : Fields → Option String → Generation
unfolding lookup
generation_of fs none = failed llm_runtime_error
generation_of fs (some output) =
    generated output (lookup "prompt_eval_count" fs) (lookup "eval_count" fs)

-- `OllamaClient.generate`, with `_request`
unfoldable pub generate : Exchange → Generation
generate (body (Json.object fs)) = generation_of fs (text_of (lookup "response" fs))
generate (body _) = failed attribute_error
generate timed_out = llm_timeout
generate url_timed_out = llm_timeout
generate url_failed = failed llm_runtime_error
generate unreadable = failed llm_runtime_error
generate (escaped e) = failed e

-- Python's `+` on two JSON values; a Boolean is a number, 1 or 0.
abbrev pub plus : Json → Json → Result Json
plus (Json.number a) (Json.number b) = ok (Json.number (a + b))
plus (Json.number a) (Json.boolean true) = ok (Json.number (a + 1))
plus (Json.number a) (Json.boolean false) = ok (Json.number a)
plus (Json.boolean true) (Json.number b) = ok (Json.number (1 + b))
plus (Json.boolean false) (Json.number b) = ok (Json.number b)
plus (Json.boolean true) (Json.boolean true) = ok (Json.number 2)
plus (Json.boolean true) (Json.boolean false) = ok (Json.number 1)
plus (Json.boolean false) (Json.boolean true) = ok (Json.number 1)
plus (Json.boolean false) (Json.boolean false) = ok (Json.number 0)
plus (Json.text a) (Json.text b) = ok (Json.text (a ++ b))
plus (Json.array xs) (Json.array ys) = ok (Json.array (append_items xs ys))
plus _ _ = err type_error

-- `_total`, where null and a field that is missing are both `None`
abbrev pub total : Option Json → Option Json → Result (Option Json)
total none counted = ok none
total (some Json.null) counted = ok none
total (some a) none = ok none
total (some a) (some Json.null) = ok none
total (some a) (some b) = elim (plus a b) [ ok c ↦ ok (some c) | err e ↦ err e ]

-- `failure`: none, or `MALFORMED_OUTPUT:` with the parse error
abbrev pub output_of : ParseResult → EngineOutput
output_of (parsed p) = record { proposal = some p; failure = none }
output_of (refused e) = record { proposal = none; failure = some (malformed_output e) }

-- The last statement of `decide`: `token_usage` is computed with the output, which it may keep from
-- being returned.
abbrev pub counted_output : Result (Option Json) → EngineOutput → Result EngineOutput
counted_output (ok tokens) output = ok output
counted_output (err e) output = err e

abbrev pub decide_generated : (String → Option Json) → Generation → Result EngineOutput
decide_generated loads (generated output prompt_count count) =
    counted_output (total prompt_count count) (output_of (parse_decision loads output))
decide_generated loads llm_timeout =
    ok (record { proposal = none; failure = some decision_timeout })
decide_generated loads (failed e) = err e

-- `LLMDecisionEngine.decide`; `ask` is the exchange for the prompt of the state.
unfoldable pub llm_decide :
    (String → Option Json) → (SystemState → Exchange) → SystemState → Result EngineOutput
unfolding generate parse_value
llm_decide loads ask s = decide_generated loads (generate (ask s))

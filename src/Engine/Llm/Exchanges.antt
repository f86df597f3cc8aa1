-- ===== src/Engine/Llm/Exchanges.antt =====
-- The exchanges with the model's server after which `LLMDecisionEngine` returns
-- (services/orders/app/llm/llm_engine.py, ollama_client.py).
use rule2llm_orch_lab.Prelude.{
  String, ◌≡◌, ◌⊎◌, ◌∙◌, inl, inr, refl, ap, Option, none, some, ok, err, Error, llm_runtime_error,
}
use mathlib.Core.Path.{subst}
use rule2llm_orch_lab.Contract.Json.{Json, Fields, lookup, text_of}
use rule2llm_orch_lab.Contract.SystemState.{SystemState}
use rule2llm_orch_lab.Engine.Output.{EngineOutput, decision_timeout}
use rule2llm_orch_lab.Engine.Llm.{
  Exchange, body, timed_out, url_timed_out, url_failed, unreadable, escaped, generation_of,
  generate, total, llm_decide, counted_output, decide_generated, output_of, parse_decision,
}

-- The exchange ran out of time, before or after the connection.
abbrev pub TimesOut : Exchange → Type 0
TimesOut x = (x ≡ timed_out) ⊎ (x ≡ url_timed_out)

-- The body is an object with a text as its response.
abbrev pub GivesText : Exchange → String → Type 0
GivesText x output =
    (fs : Fields) × (x ≡ body (Json.object fs)) × (lookup "response" fs ≡ some (Json.text output))

-- What the engine can answer
abbrev pub IsAnswered : Exchange → Type 0
IsAnswered x = TimesOut x ⊎ ((output : String) × GivesText x output)

-- The server's documented counts of tokens: numbers, null or left out
abbrev pub IsCount : Option Json → Type 0
IsCount none = Unit
IsCount (some Json.null) = Unit
IsCount (some (Json.number n)) = Unit
IsCount (some _) = ⊥

abbrev pub HasCounts : Exchange → Type 0
HasCounts (body (Json.object fs)) =
    IsCount (lookup "prompt_eval_count" fs) × IsCount (lookup "eval_count" fs)
HasCounts _ = Unit

total_of_counts :
    (a b : Option Json) → IsCount a → IsCount b → (t : Option Json) × (total a b ≡ ok t)
total_of_counts none b h k = (none, refl)
total_of_counts (some Json.null) b h k = (none, refl)
total_of_counts (some (Json.number n)) none h k = (none, refl)
total_of_counts (some (Json.number n)) (some Json.null) h k = (none, refl)
total_of_counts (some (Json.number n)) (some (Json.number m)) h k = (_, refl)
total_of_counts (some (Json.number n)) (some (Json.boolean b)) h k = absurd k
total_of_counts (some (Json.number n)) (some (Json.text t)) h k = absurd k
total_of_counts (some (Json.number n)) (some (Json.array xs)) h k = absurd k
total_of_counts (some (Json.number n)) (some (Json.object fs)) h k = absurd k
total_of_counts (some (Json.boolean b)) c h k = absurd h
total_of_counts (some (Json.text t)) c h k = absurd h
total_of_counts (some (Json.array xs)) c h k = absurd h
total_of_counts (some (Json.object fs)) c h k = absurd h

decide_object :
    (loads : String → Option Json) (fs : Fields) (v : Option Json)
    → lookup "response" fs ≡ v
    → decide_generated loads (generate (body (Json.object fs)))
      ≡ decide_generated loads (generation_of fs (text_of v))
unfolding generate
decide_object loads fs v same = ap (λ w. decide_generated loads (generation_of fs (text_of w))) same

module _ (loads : String → Option Json) (ask : SystemState → Exchange) (s : SystemState) where
  -- An exchange that ran out of time has no proposal, and says so.
  pub timeout_output :
      TimesOut (ask s)
      → llm_decide loads ask s ≡ ok (record { proposal = none; failure = some decision_timeout })
  unfolding llm_decide generate
  timeout_output (inl e) = rw e refl
  timeout_output (inr e) = rw e refl

  -- A text is parsed, and nothing else of the body matters.
  pub text_output :
      (output : String)
      → HasCounts (ask s)
      → GivesText (ask s) output
      → llm_decide loads ask s ≡ ok (output_of (parse_decision loads output))
  unfolding llm_decide
  text_output output counts (fs, e, has) =
      let own : HasCounts (body (Json.object fs)) = subst HasCounts e counts in
      let (t, sum) =
        total_of_counts (lookup "prompt_eval_count" fs) (lookup "eval_count" fs) own.0 own.1 in
      ap (λ x. decide_generated loads (generate x)) e
      ∙ decide_object loads fs (some (Json.text output)) has
      ∙ ap (λ r. counted_output r (output_of (parse_decision loads output))) sum

  -- After any other exchange the engine raises.
  pub no_output : (IsAnswered (ask s) → ⊥) → (e : Error) × (llm_decide loads ask s ≡ err e)
  unfolding llm_decide generate
  no_output unanswered = go (ask s) unanswered
    where
      no_text :
          (fs : Fields) (v : Option Json)
          → lookup "response" fs ≡ v
          → (IsAnswered (body (Json.object fs)) → ⊥)
          → (e : Error) × (decide_generated loads (generate (body (Json.object fs))) ≡ err e)
      no_text fs (some (Json.text t)) same h = absurd (h (inr (t, (fs, refl, same))))
      no_text fs none same h = (llm_runtime_error, decide_object loads fs none same)
      no_text fs (some Json.null) same h =
          (llm_runtime_error, decide_object loads fs (some Json.null) same)
      no_text fs (some (Json.boolean b)) same h =
          (llm_runtime_error, decide_object loads fs (some (Json.boolean b)) same)
      no_text fs (some (Json.number n)) same h =
          (llm_runtime_error, decide_object loads fs (some (Json.number n)) same)
      no_text fs (some (Json.array xs)) same h =
          (llm_runtime_error, decide_object loads fs (some (Json.array xs)) same)
      no_text fs (some (Json.object gs)) same h =
          (llm_runtime_error, decide_object loads fs (some (Json.object gs)) same)

      go :
          (x : Exchange)
          → (IsAnswered x → ⊥)
          → (e : Error) × (decide_generated loads (generate x) ≡ err e)
      go (body (Json.object fs)) h = no_text fs (lookup "response" fs) refl h
      go (body Json.null) h = (_, refl)
      go (body (Json.boolean b)) h = (_, refl)
      go (body (Json.number n)) h = (_, refl)
      go (body (Json.text t)) h = (_, refl)
      go (body (Json.array xs)) h = (_, refl)
      go timed_out h = absurd (h (inl (inl refl)))
      go url_timed_out h = absurd (h (inl (inr refl)))
      go url_failed h = (_, refl)
      go unreadable h = (_, refl)
      go (escaped e) h = (e, refl)

  -- After an exchange that it can answer the engine returns.
  pub answered_output :
      HasCounts (ask s)
      → IsAnswered (ask s)
      → (output : EngineOutput) × (llm_decide loads ask s ≡ ok output)
  answered_output counts (inl late) = (_, timeout_output late)
  answered_output counts (inr (output, gives)) = (_, text_output output counts gives)

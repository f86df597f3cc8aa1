-- ===== src/Orders/System/Rules.antt =====
-- The orders-service with the rules engine, and the database that it starts from.
use rule2llm_orch_lab.Prelude.{
  ℕ, ◌+◌, ◌≤◌, ◌≡◌, refl, inl, inr, false, none, some, [], ok, arith, Post, Post-mono,
}
use rule2llm_orch_lab.Prelude.Table.{get}
use rule2llm_orch_lab.Contract.Config.{MessagingConfig}
use rule2llm_orch_lab.Contract.Decision.{Decision, valid}
use rule2llm_orch_lab.Contract.Decision.Texts.{model_validate-proposal_of}
use rule2llm_orch_lab.Contract.SystemState.{SystemState}
use rule2llm_orch_lab.Engine.Output.{EngineOutput}
use rule2llm_orch_lab.Engine.Rules.{policy, dump, decide}
use rule2llm_orch_lab.Engine.Validator.{validate}
use rule2llm_orch_lab.Engine.Validator.Soundness.{Executes, IsAdmissible}
use rule2llm_orch_lab.Engine.Agreement.{dump-eq-proposal_of, decide_accepted}
use rule2llm_orch_lab.Orders.Db.{OrdersDb, TaskRow}
use rule2llm_orch_lab.Orders.Trajectory.{latest_request}
use rule2llm_orch_lab.Orders.Executor.{Supply}
use rule2llm_orch_lab.Orders.StateBuilder.{Observation, snapshot}
use rule2llm_orch_lab.Orders.Orchestrator.{Setup, handle_decision_point}
use rule2llm_orch_lab.Orders.Invariant.{RowReady}
use rule2llm_orch_lab.Orders.Invariant.Points.{Decided, decision_point-Decided, snapshot-IsCoherent}
use rule2llm_orch_lab.Orders.System.{Inv, Inv-Known, EngineReturns}
use rule2llm_orch_lab.Orders.System.Runs.{Run, Trace, decisions_of, Run-decisions_bounded}

-- `build_orchestrator` with `engine: rules`
abbrev pub rules_setup : MessagingConfig → ℕ → Setup
rules_setup c limit = record { config = c; recent_events_limit = limit; engine = decide c }

pub rules_returns : (c : MessagingConfig) (limit : ℕ) → EngineReturns (rules_setup c limit)
rules_returns c limit s coherent =
    let (d, p, adm, run, fine, resolved) = decide_accepted c s coherent in (_, run)

-- An empty database has the invariant.
pub Inv-empty :
    (c : MessagingConfig)
    → Inv c (record { orders = []; tasks = []; processed_events = []; task_events = [] })
Inv-empty c = record { every = λ j. unfold get latest_request in (refl, tt); own = tt }

executed_policy :
    (c : MessagingConfig) (s : SystemState) (d e : Decision)
    → policy c s ≡ ok d
    → IsAdmissible c s d
    → validate c (some (dump d)) s false ≡ valid
    → Executes c s (some (dump d)) false e
    → policy c s ≡ ok e
executed_policy c s d e p adm fine (inl h) = ground (
  arith,
  dump-eq-proposal_of d,
  model_validate-proposal_of d adm.contract,
  model_validate-proposal_of e h.2.contract,
)
executed_policy c s d e p adm fine (inr h) = absurd (h.0 fine)

module _ (c : MessagingConfig) (limit : ℕ) (o : Observation) (i : Supply) (id decision_id : ℕ)
    (db : OrdersDb) (inv : Inv c db) (row : TaskRow) (found : get id db.tasks ≡ some row)
    (clock : row.created_at ≤ o.now) (ready : RowReady row) where
  -- At every decision point that the service opens, the rules engine is never refused: what is
  -- executed is the decision that the policy took for the state.
  pub rules_never_refused :
      Post
        (λ out after. policy c out.state ≡ ok out.executed)
        (handle_decision_point (rules_setup c limit) o i id decision_id db)
  rules_never_refused =
      let k = Inv-Known c db id row inv found in
      let s = snapshot c limit o db.task_events id row in
      let (d, p, adm, run, fine, resolved) = decide_accepted c s (
        snapshot-IsCoherent c limit o id db row k.order found k.has_order k.sound k.counted clock
          ready) in
      let answer : EngineOutput = record { proposal = some (dump d); failure = none } in
      Post-mono (Decided c s id row answer db) (λ out after. policy c out.state ≡ ok out.executed)
        (handle_decision_point (rules_setup c limit) o i id decision_id db)
        (λ out after h. rw h.0 (executed_policy c s d out.executed p adm fine h.1))
        (decision_point-Decided (rules_setup c limit) o i id decision_id db row k.order found
          k.has_order k.sound k.counted clock ready answer run)

-- With the rules engine no hypothesis on the engine is left: however the messages of a run from an
-- empty database are ordered, repeated, delayed or lost, a task sees at most `max_attempts + max_waits + 1` decisions other than `ABORT`.
pub rules_bounded :
    (c : MessagingConfig) (limit j : ℕ) (trace : Trace) (after : OrdersDb)
    → Run
        (rules_setup c limit)
        (record { orders = []; tasks = []; processed_events = []; task_events = [] })
        trace
        after
    → decisions_of j trace ≤ c.max_attempts + c.max_waits + 1
rules_bounded c limit j trace after run =
    Run-decisions_bounded (rules_setup c limit) (rules_returns c limit) j _ trace after run
      (Inv-empty c)

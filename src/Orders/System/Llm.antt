-- ===== src/Orders/System/Llm.antt =====
-- The orders-service with the LLM engine (`build_engine` of coordination.py).
use rule2llm_orch_lab.Prelude.{
  ℕ, String, ◌+◌, ◌≤◌, ◌≡◌, ◌≢◌, refl, Option, none, some, [], ok, err, Error, Post, Post-mono,
  arith,
}
use rule2llm_orch_lab.Prelude.Table.{get}
use rule2llm_orch_lab.Contract.Json.{Json}
use rule2llm_orch_lab.Contract.Config.{MessagingConfig}
use rule2llm_orch_lab.Contract.Decision.{llm_timeout_abort}
use rule2llm_orch_lab.Contract.SystemState.{SystemState}
use rule2llm_orch_lab.Engine.Output.{EngineOutput, decision_timeout}
use rule2llm_orch_lab.Engine.Llm.{Exchange, llm_decide}
use rule2llm_orch_lab.Engine.Llm.Exchanges.{
  TimesOut, IsAnswered, HasCounts, timeout_output, answered_output, no_output,
}
use rule2llm_orch_lab.Orders.Db.{OrdersDb, TaskRow}
use rule2llm_orch_lab.Orders.Executor.{Supply}
use rule2llm_orch_lab.Orders.StateBuilder.{Observation, build, snapshot}
use rule2llm_orch_lab.Orders.Orchestrator.{Setup, handle_decision_point}
use rule2llm_orch_lab.Orders.Invariant.{RowReady, Ended}
use rule2llm_orch_lab.Orders.Invariant.Points.{Decided, decision_point-Decided, build_lem}
use rule2llm_orch_lab.Orders.System.{Inv, Inv-of_Frame, Inv-Known, EngineReturns, Settled}
use rule2llm_orch_lab.Orders.System.Runs.{Run, Trace, decisions_of, Run-decisions_bounded}
use rule2llm_orch_lab.Orders.System.Rules.{Inv-empty}

point_raises :
    (u : Setup) (o : Observation) (i : Supply) (id decision_id : ℕ) (db : OrdersDb)
    (s : SystemState) (e : Error)
    → build u.config u.recent_events_limit o db id ≡ ok s
    → u.engine s ≡ err e
    → handle_decision_point u o i id decision_id db ≡ (err e, db)
unfolding handle_decision_point
point_raises u o i id decision_id db s e built failure = rw (built, failure) refl

module _ (c : MessagingConfig) (limit : ℕ) (loads : String → Option Json)
    (ask : SystemState → Exchange) where
  -- `build_orchestrator` with `engine: llm`
  abbrev pub llm_setup : Setup
  llm_setup = record { config = c; recent_events_limit = limit; engine = llm_decide loads ask }

  llm_returns :
      ((s : SystemState) → HasCounts (ask s))
      → ((s : SystemState) → IsAnswered (ask s))
      → EngineReturns llm_setup
  llm_returns counts answered s coherent = answered_output loads ask s (counts s) (answered s)

  -- Whatever the model writes and however often it runs out of time, as long as each exchange either
  -- times out or gives an object with a text as its response, with counts of tokens that are numbers,
  -- null or left out: in any run from an empty database, a task sees at most
  -- `max_attempts + max_waits + 1` decisions other than `ABORT`.
  pub llm_bounded :
      ((s : SystemState) → HasCounts (ask s))
      → ((s : SystemState) → IsAnswered (ask s))
      → (j : ℕ) (trace : Trace) (after : OrdersDb)
      → Run llm_setup
          (record { orders = []; tasks = []; processed_events = []; task_events = [] })
          trace
          after
      → decisions_of j trace ≤ c.max_attempts + c.max_waits + 1
  llm_bounded counts answered j trace after run =
      Run-decisions_bounded llm_setup (llm_returns counts answered) j _ trace after run
        (Inv-empty c)

  module _ (o : Observation) (i : Supply) (id decision_id : ℕ) (db : OrdersDb) (inv : Inv c db)
      (row : TaskRow) (found : get id db.tasks ≡ some row) (clock : row.created_at ≤ o.now)
      (ready : RowReady row) where
    abbrev pub asked : SystemState
    asked = snapshot c limit o db.task_events id row

    output-Decided :
        (output : EngineOutput)
        → llm_decide loads ask asked ≡ ok output
        → Post
            (Decided c asked id row output db)
            (handle_decision_point llm_setup o i id decision_id db)
    output-Decided output answered =
        let k = Inv-Known c db id row inv found in
        decision_point-Decided llm_setup o i id decision_id db row k.order found k.has_order k.sound
          k.counted clock ready output answered

    -- If the exchange for the state of a ready task times out, before or after the connection, the
    -- decision point raises nothing: `ABORT` with the reason
    -- `LLM_DECISION_TIMEOUT` is executed, the task has
    -- ended, the invariant holds and no other task has changed.
    pub llm_timeout_ends :
        TimesOut (ask asked)
        → Post
            (λ out after.
              (out.executed ≡ llm_timeout_abort)
              × Ended (get id after.tasks)
              × Inv c after
              × ((j : ℕ) → j ≢ id → get j after.tasks ≡ get j db.tasks))
            (handle_decision_point llm_setup o i id decision_id db)
    llm_timeout_ends late =
        let output : EngineOutput = record { proposal = none; failure = some decision_timeout } in
        Post-mono (Decided c asked id row output db)
          (λ out after.
            (out.executed ≡ llm_timeout_abort)
            × Ended (get id after.tasks)
            × Inv c after
            × ((j : ℕ) → j ≢ id → get j after.tasks ≡ get j db.tasks))
          (handle_decision_point llm_setup o i id decision_id db)
          (λ out after h. (
            h.1,
            h.4 (rw h.1 refl),
            Inv-of_Frame c id db after inv h.2 h.6,
            λ j other. (h.6 j other).0,
          ))
          (output-Decided output (timeout_output loads ask asked late))

    -- At a decision point of a ready task, with counts of tokens that are numbers, null or left out: if
    -- the exchange times out or gives an object with a text as its response, nothing is raised and the
    -- database settles; after any other exchange the decision point raises, and the database is left
    -- as it was.
    pub llm_point :
        HasCounts (ask asked)
        → (IsAnswered (ask asked)
            → Post
                (λ out after. Settled c id db (some out) after)
                (handle_decision_point llm_setup o i id decision_id db))
          × ((IsAnswered (ask asked) → ⊥)
              → (e : Error) × (handle_decision_point llm_setup o i id decision_id db ≡ (err e, db)))
    llm_point counts = (settles, raises)
      where
        settles :
            IsAnswered (ask asked)
            → Post
                (λ out after. Settled c id db (some out) after)
                (handle_decision_point llm_setup o i id decision_id db)
        settles answered =
            let (output, same) = answered_output loads ask asked counts answered in
            Post-mono (Decided c asked id row output db)
              (λ out after. Settled c id db (some out) after)
              (handle_decision_point llm_setup o i id decision_id db)
              (λ out after h.
                (Inv-of_Frame c id db after inv h.2 h.6, ground arith, λ j other. (h.6 j other).0))
              (output-Decided output same)

        raises :
            (IsAnswered (ask asked) → ⊥)
            → (e : Error) × (handle_decision_point llm_setup o i id decision_id db ≡ (err e, db))
        raises unanswered =
            let k = Inv-Known c db id row inv found in
            let (e, failure) = no_output loads ask asked unanswered in
            (
              e,
              point_raises llm_setup o i id decision_id db asked e
                  (build_lem c limit o id db row k.order found k.has_order k.sound k.counted clock)
                  failure,
            )

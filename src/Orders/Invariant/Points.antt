-- ===== src/Orders/Invariant/Points.antt =====
-- A decision point of a task that is ready: `StateBuilder.build`, the engine, the validator and the
-- executor together (orchestrator.py).
use rule2llm_orch_lab.Prelude.{
  ℕ, zero, suc, ◌≤◌, ◌<◌, ◌≡◌, ◌≢◌, refl, inl, inr, Bool, true, false, Option, some, List, [], ◌∷◌,
  ◌++◌, map, arith, Post, Post-map, Post-with, ok, ◌==◌, ◌&&◌,
}
use mathlib.Core.List.{reverse, reverse-append}
use rule2llm_orch_lab.Prelude.Table.{get}
use rule2llm_orch_lab.Contract.Vocabulary.{is_terminal}
use rule2llm_orch_lab.Contract.Config.{MessagingConfig}
use rule2llm_orch_lab.Contract.Decision.{
  Decision, ActionName, resolve_action, ValidationResult, ProposedDecision, target_matches_action,
}
use rule2llm_orch_lab.Contract.SystemState.{SystemState, RecentEvent, are_recent_events}
use rule2llm_orch_lab.Engine.Output.{EngineOutput, is_timed_out}
use rule2llm_orch_lab.Engine.Agreement.{IsCoherent}
use rule2llm_orch_lab.Engine.Validator.Soundness.{IsAdmissible, Executes, resolve-validate}
use rule2llm_orch_lab.Orders.Executor.{Supply, execute}
use rule2llm_orch_lab.Orders.Orchestrator.{Setup, DecisionOutcome, carry_out, handle_decision_point}
use rule2llm_orch_lab.Orders.Db.{OrdersDb, OrderRow, TaskRow, EventRow}
use rule2llm_orch_lab.Orders.Trajectory.{latest_request}
use rule2llm_orch_lab.Orders.StateBuilder.{
  Observation, snapshot, build, is_first, recent_event, newest,
}
use rule2llm_orch_lab.Engine.Validator.{validate}
use rule2llm_orch_lab.Orders.Invariant.Decisions.{Carried, execute-Carried}
use rule2llm_orch_lab.Orders.Invariant.Frame.{Frame, execute-Frame}
use rule2llm_orch_lab.Orders.Invariant.{
  Counted, RowSound, IsSound, RowReady, row_budget, budget, Ended,
}

are_recent-append :
    (xs ys : List RecentEvent)
    → are_recent_events xs ≡ true
    → are_recent_events ys ≡ true
    → are_recent_events (xs ++ ys) ≡ true
are_recent-append [] ys h k = k
are_recent-append (x ∷ xs) ys h k = ground (arith, are_recent-append xs ys)

are_recent-reverse :
    (xs : List RecentEvent) → are_recent_events xs ≡ true → are_recent_events (reverse xs) ≡ true
are_recent-reverse [] h = refl
are_recent-reverse (x ∷ xs) h =
    rw (reverse-append (x ∷ []) xs) (
      are_recent-append (reverse xs) (x ∷ []) (are_recent-reverse xs (ground arith)) (ground arith))

-- The window of a trajectory with positive counters has positive counters.
are_recent-newest :
    (n : ℕ) (p : EventRow → Bool) (es : List EventRow)
    → Counted es
    → are_recent_events (map recent_event (newest n p es)) ≡ true
unfolding newest
are_recent-newest zero p es h = refl
are_recent-newest (suc n) p [] h = refl
are_recent-newest (suc n) p (e ∷ es) h =
    ground (arith, are_recent-newest n p es, are_recent-newest (suc n) p es)

module _ (c : MessagingConfig) (limit : ℕ) (o : Observation) (id : ℕ) (db : OrdersDb)
    (row : TaskRow) (order : OrderRow) (found : get id db.tasks ≡ some row)
    (has_order : get id db.orders ≡ some order)
    (sound : RowSound c id row order (latest_request id db.task_events))
    (counted : Counted db.task_events) (clock : row.created_at ≤ o.now) where
  abbrev pub seen : SystemState
  seen = snapshot c limit o db.task_events id row

  -- The state of a sound task can be built, if the clock does not stand before the task's creation.
  pub build_lem : build c limit o db id ≡ ok seen
  unfolding build snapshot
  build_lem = ground (
    arith,
    are_recent-reverse (
        map recent_event
          (newest limit (λ e. e.task_id == id && is_first db.task_events e) db.task_events)),
    are_recent-newest limit (λ e. e.task_id == id && is_first db.task_events e) db.task_events,
  )

  -- The state of a task that is ready is coherent.
  pub snapshot-IsCoherent : RowReady row → IsCoherent c seen
  unfolding snapshot
  snapshot-IsCoherent ready = ground arith

  -- The two aborts that replace a refused or missing decision are admissible in a live state.
  Executes-IsAdmissible :
      (p : Option ProposedDecision) (late : Bool) (d : Decision)
      → is_terminal row.status ≡ false
      → Executes c seen p late d
      → IsAdmissible c seen d
  unfolding snapshot target_matches_action
  Executes-IsAdmissible p true d live e = rw e (ground arith)
  Executes-IsAdmissible p false d live (inl h) = h.2
  Executes-IsAdmissible p false d live (inr h) = rw h.1 (ground arith)

-- What a decision point leaves behind: the decision that `Executes` describes is carried out.
abbrev pub Decided :
    MessagingConfig
    → SystemState
    → ℕ
    → TaskRow
    → EngineOutput
    → OrdersDb
    → DecisionOutcome
    → OrdersDb
    → Type 0
Decided c state id row output db out after =
    (out.state ≡ state)
    × Executes c state output.proposal (is_timed_out output.failure) out.executed
    × IsSound c after id
    × (budget c (get id after.tasks) ≤ row_budget c row)
    × (out.executed.action ≡ ActionName.abort → Ended (get id after.tasks))
    × (out.executed.action ≢ ActionName.abort → budget c (get id after.tasks) < row_budget c row)
    × ((j : ℕ) → j ≢ id → Frame j db after)

handle_lem :
    (u : Setup) (o : Observation) (i : Supply) (id decision_id : ℕ) (db : OrdersDb)
    (state : SystemState) (output : EngineOutput) (d : Decision)
    → build u.config u.recent_events_limit o db id ≡ ok state
    → u.engine state ≡ ok output
    → resolve_action output.proposal
        (validate u.config output.proposal state (is_timed_out output.failure))
      ≡ ok d
    → handle_decision_point u o i id decision_id db
      ≡ carry_out u i id decision_id state
          (validate u.config output.proposal state (is_timed_out output.failure))
          d
          db
unfolding handle_decision_point
handle_lem u o i id decision_id db state output d b e r = rw b (rw e (rw r))

module _ (u : Setup) (o : Observation) (i : Supply) (id decision_id : ℕ) (db : OrdersDb)
    (row : TaskRow) (order : OrderRow) (found : get id db.tasks ≡ some row)
    (has_order : get id db.orders ≡ some order)
    (sound : RowSound u.config id row order (latest_request id db.task_events))
    (counted : Counted db.task_events) (clock : row.created_at ≤ o.now) (ready : RowReady row) where
  abbrev state : SystemState
  state = snapshot u.config u.recent_events_limit o db.task_events id row

  carry_out-Decided :
      (output : EngineOutput) (v : ValidationResult) (d : Decision)
      → Executes u.config state output.proposal (is_timed_out output.failure) d
      → Post (Decided u.config state id row output db) (carry_out u i id decision_id state v d db)
  unfolding carry_out
  carry_out-Decided output v d e =
      Post-map
        (λ x after.
          Carried u.config i id decision_id db row order found has_order sound ready counted
            d.action x after
          × ((j : ℕ) → j ≢ id → Frame j db after))
        (Decided u.config state id row output db) (execute u.config i d id decision_id)
        (λ x. record { state = state; validation = v; executed = d; execution = x }) db
        (λ x after h. (refl, e, h.0.0, h.0.1, h.0.2.0, h.0.2.1, h.1))
        (Post-with
          (Carried u.config i id decision_id db row order found has_order sound ready counted
            d.action)
          (λ after. (j : ℕ) → j ≢ id → Frame j db after) (execute u.config i d id decision_id db)
          (execute-Carried u.config i id decision_id db row order found has_order sound ready
            counted u.recent_events_limit o d
            (Executes-IsAdmissible u.config u.recent_events_limit o id db row order found has_order
              sound counted clock output.proposal (is_timed_out output.failure) d ready.live e))
          (λ j other.
            execute-Frame u.config i d id decision_id db row found sound.own_order j other))

  -- Whatever the engine answers, a decision point of a ready task raises nothing: the decision that
  -- `Executes` describes is carried out, the task stays sound, and it has ended or its budget has
  -- become smaller.
  pub decision_point-Decided :
      (output : EngineOutput)
      → u.engine state ≡ ok output
      → Post
          (Decided u.config state id row output db)
          (handle_decision_point u o i id decision_id db)
  decision_point-Decided output answered =
      let (d, resolved, executes) =
        resolve-validate u.config output.proposal state (is_timed_out output.failure) in
      rw
        (handle_lem u o i id decision_id db state output d
          (build_lem u.config u.recent_events_limit o id db row order found has_order sound counted
            clock)
          answered resolved)
        (carry_out-Decided output
          (validate u.config output.proposal state (is_timed_out output.failure)) d executes)

-- ===== src/Orders/System/Runs.antt =====
-- The orders-service over time: any interleaving of new orders, decision points, events of the
-- Inventory, timeout checks, ends of waits, scheduled dispatches and dead letters, each from a
-- database that the one before has left. The worker of the queue takes one message at a time.
use rule2llm_orch_lab.Prelude.{
  ℕ, ◌+◌, ◌≤◌, ◌<◌, ◌≡◌, Bool, true, Option, none, some, List, [], ◌∷◌, Result, ok, arith, Post,
  ℕ_discrete,
}
use mathlib.Core.Path.{subst}
use rule2llm_orch_lab.Prelude.Table.{get}
use rule2llm_orch_lab.Contract.Vocabulary.{EventType}
use rule2llm_orch_lab.Contract.Envelope.{
  Item, MessageEnvelope, is_message, validate_payload, reservation_request,
}
use rule2llm_orch_lab.Orders.Db.{OrdersDb, TaskRow}
use rule2llm_orch_lab.Orders.Trajectory.{latest_request}
use rule2llm_orch_lab.Orders.Repositories.{OrderView, create_order_with_task}
use rule2llm_orch_lab.Orders.Executor.{Supply, Effect}
use rule2llm_orch_lab.Orders.EventHandler.{is_handled}
use rule2llm_orch_lab.Orders.Internal.{handle_dead_letter}
use rule2llm_orch_lab.Orders.StateBuilder.{Observation}
use rule2llm_orch_lab.Orders.Orchestrator.{Setup, DecisionOutcome, handle_decision_point}
use rule2llm_orch_lab.Orders.Consumers.{handle_event, timeout_check, dispatch_attempt, reevaluate}
use rule2llm_orch_lab.Orders.Invariant.{RowReady, budget}
use rule2llm_orch_lab.Orders.Invariant.Events.{Echoes}
use rule2llm_orch_lab.Orders.System.{Inv, EngineReturns, Settled, decisions, budget_within}
use rule2llm_orch_lab.Orders.System.Points.{decision_point-Settled}
use rule2llm_orch_lab.Orders.System.Messages.{
  handle_event-Settled, timeout_check-Settled, reevaluate-Settled,
}
use rule2llm_orch_lab.Orders.System.Others.{
  create-Settled, dispatch_attempt-Settled, dead_letter-Settled,
}

-- One step for task `id`, with the outcome of the decision point that it opened, if any.
pub data Step (u : Setup) (db : OrdersDb) (id : ℕ) (out : Option DecisionOutcome) (after : OrdersDb)
    : Type 0 where
  -- `POST /orders` creates the order,
  created :
      (execution_id now : ℕ) (items : List Item) (view : OrderView)
      → 0 < u.config.max_attempts
      → validate_payload EventType.stock_reservation_requested (reservation_request 0 items) ≡ true
      → create_order_with_task execution_id items now db ≡ (ok view, after)
      → id ≡ view.task_id
      → out ≡ none
      → Step u db id out after
  -- then opens the first decision point of its task.
  decided :
      (o : Observation) (i : Supply) (decision_id : ℕ) (outcome : DecisionOutcome) (row : TaskRow)
      → get id db.tasks ≡ some row
      → row.created_at ≤ o.now
      → RowReady row
      → handle_decision_point u o i id decision_id db ≡ (ok outcome, after)
      → out ≡ some outcome
      → Step u db id out after
  -- An event of the Inventory, fresh or redelivered, in any order
  event :
      (o : Observation) (i : Supply) (decision_id : ℕ) (m : MessageEnvelope) (redelivered : Bool)
      (row : TaskRow)
      → get m.task_id db.tasks ≡ some row
      → row.created_at ≤ o.now
      → is_handled m.event_type ≡ true
      → is_message m ≡ true
      → Echoes m (latest_request m.task_id db.task_events)
      → handle_event u o i decision_id m redelivered db ≡ (ok out, after)
      → id ≡ m.task_id
      → Step u db id out after
  timed_out :
      (o : Observation) (i : Supply) (decision_id request : ℕ) (row : TaskRow)
      → get id db.tasks ≡ some row
      → row.created_at ≤ o.now
      → timeout_check u o i decision_id id request db ≡ (ok out, after)
      → Step u db id out after
  reevaluated :
      (o : Observation) (i : Supply) (decision_id wait_count : ℕ) (row : TaskRow)
      → get id db.tasks ≡ some row
      → row.created_at ≤ o.now
      → reevaluate u o i decision_id id wait_count db ≡ (ok out, after)
      → Step u db id out after
  dispatched :
      (i : Supply) (decision_id : ℕ) (effects : Option (List Effect)) (row : TaskRow)
      → get id db.tasks ≡ some row
      → dispatch_attempt u i id decision_id db ≡ (ok effects, after)
      → out ≡ none
      → Step u db id out after
  dead_lettered :
      (i : Supply) (message_id : Option ℕ) (now : ℕ) (changed : Bool) (row : TaskRow)
      → get id db.tasks ≡ some row
      → handle_dead_letter (some id) message_id now db ≡ (ok changed, after)
      → out ≡ none
      → Step u db id out after

-- What was shown of a call holds of the result that it had.
pub Post-result {ℓ} :
    {S : Type 0} {A : Type ℓ} (P : A → S → Type 0) (r : Result A × S) (a : A) (s : S)
    → r ≡ (ok a, s)
    → Post P r
    → P a s
Post-result P r a s e h = subst (Post P) e h

-- Each step keeps the invariant, pays its decision from the budget of its task, and leaves every other
-- task alone.
pub Step-Settled :
    (u : Setup)
    → EngineReturns u
    → (db : OrdersDb) → Inv u.config db
    → (id : ℕ) (out : Option DecisionOutcome) (after : OrdersDb) → Step u db id out after
    → Settled u.config id db out after
Step-Settled u returns db inv id out after
      (Step.created execution_id now items view a fits e same o) =
    rw (same, o)
      (Post-result _ (create_order_with_task execution_id items now db) view after e
        (create-Settled u.config execution_id now items db inv a fits)).3
Step-Settled u returns db inv id out after
      (Step.decided o i d outcome row found clock ready e same) =
    rw same (
      Post-result _ (handle_decision_point u o i id d db) outcome after e
        (decision_point-Settled u returns o i id d db inv row found clock ready))
Step-Settled u returns db inv id out after
      (Step.event o i d m r row found clock handled ok_ echo e same) =
    rw same (
      Post-result _ (handle_event u o i d m r db) out after e
        (handle_event-Settled u returns o i d db inv m r row found clock handled ok_ echo))
Step-Settled u returns db inv id out after (Step.timed_out o i d request row found clock e) =
    Post-result _ (timeout_check u o i d id request db) out after e
      (timeout_check-Settled u returns o i d db inv id request row found clock)
Step-Settled u returns db inv id out after (Step.reevaluated o i d wait_count row found clock e) =
    Post-result _ (reevaluate u o i d id wait_count db) out after e
      (reevaluate-Settled u returns o i d db inv id wait_count row found clock)
Step-Settled u returns db inv id out after (Step.dispatched i d effects row found e same) =
    rw same (
      Post-result _ (dispatch_attempt u i id d db) effects after e
        (dispatch_attempt-Settled u i db inv id row found d))
Step-Settled u returns db inv id out after
      (Step.dead_lettered i message_id now changed row found e same) =
    let (order, has_order, post) = dead_letter-Settled u i db inv id row found message_id now in
    rw same (Post-result _ (handle_dead_letter (some id) message_id now db) changed after e post).2

-- What a run has done: the task of each step and the outcome of its decision point.
abbrev pub Trace : Type 0
Trace = List (ℕ × Option DecisionOutcome)

pub data Run (u : Setup) : OrdersDb → Trace → OrdersDb → Type 0 where
  done : (db : OrdersDb) → Run u db [] db
  next :
      (db mid after : OrdersDb) (id : ℕ) (out : Option DecisionOutcome) (trace : Trace)
      → Step u db id out mid
      → Run u mid trace after
      → Run u db ((id, out) ∷ trace) after

-- How many decisions other than `ABORT` the run has executed for task `j`.
unfoldable pub decisions_of : ℕ → Trace → ℕ
decisions_of j [] = 0
decisions_of j ((id, out) ∷ trace) =
    elim (ℕ_discrete j id) [ yes e ↦ decisions out | no ne ↦ 0 ] + decisions_of j trace

pub step_paid :
    (u : Setup) (j id : ℕ) (db mid : OrdersDb) (out : Option DecisionOutcome) (n left : ℕ)
    (same : Dec (j ≡ id))
    → Settled u.config id db out mid
    → n + left ≤ budget u.config (get j mid.tasks)
    → elim same [ yes e ↦ decisions out | no ne ↦ 0 ] + n + left ≤ budget u.config (get j db.tasks)
step_paid u j id db mid out n left (yes e) s h =
    rw e (omega (arith, s.1, subst (λ k. n + left ≤ budget u.config (get k mid.tasks)) e h))
step_paid u j id db mid out n left (no ne) s h =
    omega (arith, subst (λ t. n + left ≤ budget u.config t) (s.2 j ne) h)

module _ (u : Setup) (returns : EngineReturns u) where
  -- Every database that a run reaches from a database with the invariant has the invariant.
  pub Run-Inv :
      (db : OrdersDb) (trace : Trace) (after : OrdersDb)
      → Run u db trace after
      → Inv u.config db
      → Inv u.config after
  Run-Inv db trace after (Run.done _) inv = inv
  Run-Inv db trace after (Run.next _ mid _ id out rest step run) inv =
      Run-Inv mid rest after run (Step-Settled u returns db inv id out mid step).0

  Run-paid :
      (j : ℕ) (db : OrdersDb) (trace : Trace) (after : OrdersDb)
      → Run u db trace after
      → Inv u.config db
      → decisions_of j trace + budget u.config (get j after.tasks)
        ≤ budget u.config (get j db.tasks)
  unfolding decisions_of
  Run-paid j db trace after (Run.done _) inv = omega arith
  Run-paid j db trace after (Run.next _ mid _ id out rest step run) inv =
      let s = Step-Settled u returns db inv id out mid step in
      step_paid u j id db mid out (decisions_of j rest) (budget u.config (get j after.tasks))
        (ℕ_discrete j id) s (Run-paid j mid rest after run s.0)

  -- However the messages of a run are ordered, repeated, delayed or lost, a task sees at most
  -- `max_attempts + max_waits + 1` decisions other than `ABORT`.
  pub Run-decisions_bounded :
      (j : ℕ) (db : OrdersDb) (trace : Trace) (after : OrdersDb)
      → Run u db trace after
      → Inv u.config db
      → decisions_of j trace ≤ u.config.max_attempts + u.config.max_waits + 1
  Run-decisions_bounded j db trace after run inv =
      omega (arith, Run-paid j db trace after run inv, budget_within u.config db inv j)

-- ===== src/Orders/System/Ended.antt =====
-- Tasks with a terminal status (shared/task.py), over a run of the orders-service.
use mathlib.Core.Path.{subst}
use rule2llm_orch_lab.Prelude.{
  ℕ, ◌+◌, ◌≡◌, ◌≢◌, ◌∙◌, refl, sym, Bool, true, false, Option, none, some, arith, Post, Post-bind,
  ℕ_discrete,
}
use rule2llm_orch_lab.Prelude.Table.{get}
use rule2llm_orch_lab.Contract.Vocabulary.{TaskStatus, is_terminal}
use rule2llm_orch_lab.Orders.Db.{OrdersDb, TaskRow}
use rule2llm_orch_lab.Orders.Executor.{Supply}
use rule2llm_orch_lab.Orders.EventHandler.{EventOutcome, handle_inventory_event}
use rule2llm_orch_lab.Orders.Internal.{register_timeout, finish_wait, handle_dead_letter}
use rule2llm_orch_lab.Orders.Repositories.{create_order_with_task}
use rule2llm_orch_lab.Orders.StateBuilder.{Observation}
use rule2llm_orch_lab.Orders.Orchestrator.{Setup, DecisionOutcome}
use rule2llm_orch_lab.Orders.Consumers.{
  decide_if, handle_event, timeout_check, dispatch_attempt, reevaluate,
}
use rule2llm_orch_lab.Orders.Invariant.Creation.{free_task}
use rule2llm_orch_lab.Orders.Invariant.Ended.{
  Stays, status_of, timeout-Stays, wait-Stays, dead_letter-Stays, dispatch-Stays, event-Stays,
}
use rule2llm_orch_lab.Orders.System.{Inv, EngineReturns, decisions}
use rule2llm_orch_lab.Orders.System.Runs.{Step, Step-Settled, Run, Trace, decisions_of, Post-result}
use rule2llm_orch_lab.Orders.System.Others.{create-Settled}

-- No decision is taken, and the task and its order stand as they did.
abbrev pub Quiet : ℕ → OrdersDb → Option DecisionOutcome → OrdersDb → Type 0
Quiet id db out after = (out ≡ none) × Stays id db after

module _ (u : Setup) (o : Observation) (i : Supply) (id decision_id : ℕ) (db : OrdersDb) where
  not_asked-Quiet :
      (asked : Bool) (mid : OrdersDb)
      → (asked ≡ false) × Stays id db mid
      → Post (Quiet id db) (decide_if asked u o i id decision_id mid)
  unfolding decide_if
  not_asked-Quiet true mid h = cc
  not_asked-Quiet false mid h = (refl, h.1)

none-ne-some : {A : Type 0} {a : A} → ◌≢◌ {A = Option A} none (some a)
none-ne-some e = cc

not_live :
    (row row' : TaskRow)
    → is_terminal row.status ≡ true
    → is_terminal row'.status ≡ false
    → ◌≢◌ {A = Option TaskRow} (some row) (some row')
not_live row row' a b e = ground arith

-- A step for a task that has ended takes no decision, and leaves its status and its order alone.
pub Step-Quiet :
    (u : Setup) (db : OrdersDb)
    → Inv u.config db
    → (id : ℕ) (out : Option DecisionOutcome) (after : OrdersDb) (row : TaskRow)
    → Step u db id out after
    → get id db.tasks ≡ some row
    → is_terminal row.status ≡ true
    → Quiet id db out after
unfolding handle_event timeout_check reevaluate dispatch_attempt
Step-Quiet u db inv id out after row (Step.created execution_id now items view a fits e same o)
      found ended =
    let n =
      (Post-result _ (create_order_with_task execution_id items now db) view after e
        (create-Settled u.config execution_id now items db inv a fits)).0 in
    let free = free_task u.config execution_id now items db a fits inv.every inv.own in
    absurd (none-ne-some (sym (subst (λ k. get k db.tasks ≡ none) (sym (same ∙ n)) free) ∙ found))
Step-Quiet u db inv id out after row (Step.decided o i d outcome row' found' clock ready e same)
      found ended =
    absurd (not_live row row' ended ready.live (sym found ∙ found'))
Step-Quiet u db inv id out after row
      (Step.event o i d m r row' found' clock handled ok_ echo e same) found ended =
    let here : get m.task_id db.tasks ≡ some row = rw⁻¹ same found in
    rw same (
      Post-result (Quiet m.task_id db) (handle_event u o i d m r db) out after e (
        Post-bind (λ (x : EventOutcome) mid. (x.decision_required ≡ false) × Stays m.task_id db mid)
          (Quiet m.task_id db) (handle_inventory_event m r i.now)
          (λ x. decide_if x.decision_required u o i m.task_id d) db
          (event-Stays m r i.now db row here ended handled ok_)
          (λ x mid h. not_asked-Quiet u o i m.task_id d db x.decision_required mid h)))
Step-Quiet u db inv id out after row (Step.timed_out o i d request row' found' clock e) found
      ended =
    Post-result (Quiet id db) (timeout_check u o i d id request db) out after e (
      Post-bind (λ asked mid. (asked ≡ false) × Stays id db mid) (Quiet id db)
        (register_timeout id request i.now) (λ asked. decide_if asked u o i id d) db
        (timeout-Stays id i.now db row found ended request) (not_asked-Quiet u o i id d db))
Step-Quiet u db inv id out after row (Step.reevaluated o i d wait_count row' found' clock e) found
      ended =
    Post-result (Quiet id db) (reevaluate u o i d id wait_count db) out after e (
      Post-bind (λ asked mid. (asked ≡ false) × Stays id db mid) (Quiet id db)
        (finish_wait id wait_count i.now) (λ asked. decide_if asked u o i id d) db
        (wait-Stays id i.now db row found ended wait_count) (not_asked-Quiet u o i id d db))
Step-Quiet u db inv id out after row (Step.dispatched i d effects row' found' e same) found ended =
    (
      same,
      (Post-result _ (dispatch_attempt u i id d db) effects after e
          (dispatch-Stays id i.now db row found ended u.config i d)).1,
    )
Step-Quiet u db inv id out after row
      (Step.dead_lettered i message_id now changed row' found' e same) found ended =
    (
      same,
      (Post-result _ (handle_dead_letter (some id) message_id now db) changed after e
          (dead_letter-Stays id now db row found ended message_id)).1,
    )

row_of_status :
    (t : Option TaskRow) (status : TaskStatus)
    → status_of t ≡ some status
    → (row : TaskRow) × (t ≡ some row) × (row.status ≡ status)
row_of_status none status e = cc
row_of_status (some row) status e = (row, refl, ground arith)

no_decision :
    (j id : ℕ) (out : Option DecisionOutcome) (n : ℕ) (same : Dec (j ≡ id))
    → (j ≡ id → out ≡ none)
    → n ≡ 0
    → elim same [ yes e ↦ decisions out | no ne ↦ 0 ] + n ≡ 0
no_decision j id out n (yes e) h z = rw (h e, z) refl
no_decision j id out n (no ne) h z = rw z refl

module _ (u : Setup) (returns : EngineReturns u) (j : ℕ) (status : TaskStatus)
    (ended : is_terminal status ≡ true) where
  ended_step :
      (db : OrdersDb)
      → Inv u.config db
      → (id : ℕ) (out : Option DecisionOutcome) (mid : OrdersDb) → Step u db id out mid
      → status_of (get j db.tasks) ≡ some status
      → (status_of (get j mid.tasks) ≡ some status) × (j ≡ id → out ≡ none)
  ended_step db inv id out mid step has =
      let (row, found, same) = row_of_status (get j db.tasks) status has in
      elim (ℕ_discrete j id) [
        | yes e ↦
            let q = Step-Quiet u db inv id out mid row step (rw⁻¹ e found) (rw same ended) in
            (rw e (q.1.0 ∙ rw⁻¹ e has), λ _. q.0)
        | no ne ↦
            let s = Step-Settled u returns db inv id out mid step in
            (rw (s.2 j ne) has, λ e. absurd (ne e))
      ]

  -- A task that is COMPLETED, ABORTED or DEAD_LETTERED keeps that status in every run from a database
  -- with the invariant, with any engine that returns in coherent states, and no decision other than
  -- `ABORT` is executed for it any more.
  pub ended_forever :
      (db : OrdersDb) (trace : Trace) (after : OrdersDb)
      → Run u db trace after
      → Inv u.config db
      → status_of (get j db.tasks) ≡ some status
      → (status_of (get j after.tasks) ≡ some status) × (decisions_of j trace ≡ 0)
  unfolding decisions_of
  ended_forever db trace after (Run.done _) inv has = (has, refl)
  ended_forever db trace after (Run.next _ mid _ id out rest step run) inv has =
      let (kept, none_out) = ended_step db inv id out mid step has in
      let (last, zero_left) =
        ended_forever mid rest after run (Step-Settled u returns db inv id out mid step).0 kept in
      (last, no_decision j id out (decisions_of j rest) (ℕ_discrete j id) none_out zero_left)

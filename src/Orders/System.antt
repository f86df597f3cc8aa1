-- ===== src/Orders/System.antt =====
-- The invariant of the whole of `orders.db`, and what one message does to it.
pub mod Points
pub mod Messages
pub mod Others
pub mod Runs
pub mod Rules
pub mod Ended
pub mod Llm
use mathlib.Core.Path.{subst}
use rule2llm_orch_lab.Prelude.{
  ℕ, suc, ◌+◌, ◌≤◌, ◌≡◌, ◌≢◌, Bool, true, false, Option, none, some, Result, ok, ℕ_discrete, arith,
  sym, refl,
}
use rule2llm_orch_lab.Prelude.Table.{get}
use rule2llm_orch_lab.Contract.Config.{MessagingConfig}
use rule2llm_orch_lab.Contract.Decision.{ActionName}
use rule2llm_orch_lab.Contract.SystemState.{SystemState}
use rule2llm_orch_lab.Engine.Output.{EngineOutput}
use rule2llm_orch_lab.Engine.Agreement.{IsCoherent}
use rule2llm_orch_lab.Orders.Db.{OrdersDb, OrderRow, TaskRow, EventRow}
use rule2llm_orch_lab.Orders.Trajectory.{latest_request}
use rule2llm_orch_lab.Orders.Orchestrator.{Setup, DecisionOutcome}
use rule2llm_orch_lab.Orders.Invariant.{Counted, Sound, RowSound, IsSound, budget, created}
use rule2llm_orch_lab.Orders.Invariant.Frame.{OwnOrders, Frame}

-- Every task is sound, and linked to the order of its number.
pub record Inv (c : MessagingConfig) (db : OrdersDb) : Type 0 where
  pub every : (j : ℕ) → IsSound c db j
  pub own : OwnOrders db.tasks

-- The engine returns an output in every coherent state.
abbrev pub EngineReturns : Setup → Type 0
EngineReturns u =
    (s : SystemState) → IsCoherent u.config s → (output : EngineOutput) × (u.engine s ≡ ok output)

-- How many decisions other than `ABORT` were executed.
abbrev pub decisions : Option DecisionOutcome → ℕ
decisions none = 0
decisions (some x) = elim x.executed.action [ ActionName.abort ↦ 0 | _ ↦ 1 ]

-- After a message for task `id`: the invariant holds, each decision was paid from the task's budget,
-- and no other task has changed.
abbrev pub Settled : MessagingConfig → ℕ → OrdersDb → Option DecisionOutcome → OrdersDb → Type 0
Settled c id db out after =
    Inv c after
    × (decisions out + budget c (get id after.tasks) ≤ budget c (get id db.tasks))
    × ((j : ℕ) → j ≢ id → get j after.tasks ≡ get j db.tasks)

-- What was done for one task keeps the invariant of all.
pub Inv-of_Frame :
    (c : MessagingConfig) (id : ℕ) (db after : OrdersDb)
    → Inv c db
    → IsSound c after id
    → ((j : ℕ) → j ≢ id → Frame j db after)
    → Inv c after
Inv-of_Frame c id db after inv h frame = record {
  every = λ j. elim (ℕ_discrete j id) [
    | yes e ↦ subst (λ k. IsSound c after k) (sym e) h
    | no ne ↦ let f = frame j ne in (rw (f.0, f.1, f.2) (inv.every j).0, h.1)
  ];
  own = (frame (suc id) (omega arith)).3 inv.own;
}

-- The rows of a known task.
pub record Known (c : MessagingConfig) (db : OrdersDb) (id : ℕ) (row : TaskRow) : Type 0 where
  pub order : OrderRow
  pub has_order : get id db.orders ≡ some order
  pub sound : RowSound c id row order (latest_request id db.task_events)
  pub counted : Counted db.task_events

pub Inv-Known :
    (c : MessagingConfig) (db : OrdersDb) (id : ℕ) (row : TaskRow)
    → Inv c db
    → get id db.tasks ≡ some row
    → Known c db id row
Inv-Known c db id row inv found = go (get id db.orders) refl (rw found at (inv.every id).0)
  where
    go :
        (o : Option OrderRow)
        → get id db.orders ≡ o
        → Sound c id (some row) o (latest_request id db.task_events)
        → Known c db id row
    go none e s = absurd s
    go (some order) e s = record {
      order = order;
      has_order = e;
      sound = s;
      counted = (inv.every id).1;
    }

-- No task has more than the budget of a new one.
pub budget_within :
    (c : MessagingConfig) (db : OrdersDb)
    → Inv c db
    → (id : ℕ) → budget c (get id db.tasks) ≤ c.max_attempts + c.max_waits + 1
budget_within c db inv id = go (get id db.tasks) refl
  where
    go : (t : Option TaskRow) → get id db.tasks ≡ t → budget c t ≤ c.max_attempts + c.max_waits + 1
    go none e = omega arith
    go (some row) e =
        let k = Inv-Known c db id row inv e in
        ground (arith, k.sound.attempt_positive, k.sound.attempts)

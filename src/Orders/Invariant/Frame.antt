-- ===== src/Orders/Invariant/Frame.antt =====
-- What the operations on one task do to the other tasks (executor.py and the internal tasks).
use rule2llm_orch_lab.Prelude.{
  ℕ, ◌+◌, ◌≤◌, ◌<◌, ◌≡◌, ◌≢◌, ◌⊎◌, refl, inl, inr, Bool, true, false, Option, none, some, List, [],
  ◌∷◌, arith, Post, Post-mono, Post-transaction, Result, ok, err, settle, raise_if, not,
  not_applicable, Action, ◌>>=◌, ◌∙◌, Option-cases, Bool-cases, is_some, any, String, ◌==◌,
}
use rule2llm_orch_lab.Prelude.Table.{
  Table, get, update, get-update_self, get-update_ne, get-insert_self,
}
use rule2llm_orch_lab.Contract.Vocabulary.{Target}
use rule2llm_orch_lab.Contract.Config.{MessagingConfig}
use rule2llm_orch_lab.Contract.Decision.{Decision, ActionName}
use rule2llm_orch_lab.Orders.Db.{OrdersDb, TaskRow}
use rule2llm_orch_lab.Orders.Trajectory.{latest_request}
use rule2llm_orch_lab.Orders.Executor.{
  Supply, dispatch_scheduled_attempt, run_continue, fallback_request, run_retry, run_wait,
  run_fallback, run_abort, handler, execute,
}
use rule2llm_orch_lab.Orders.Internal.{register_timeout, finish_wait, handle_dead_letter}

-- Each task is linked to the order of its number.
abbrev pub OwnOrders : Table TaskRow → Type 0
OwnOrders [] = Unit
OwnOrders ((k, row) ∷ t) = (row.order_id ≡ k) × OwnOrders t

pub OwnOrders-update :
    (k : ℕ) (f : TaskRow → TaskRow) (t : Table TaskRow)
    → ((row : TaskRow) → (f row).order_id ≡ row.order_id)
    → OwnOrders t
    → OwnOrders (update k f t)
unfolding update
OwnOrders-update k f [] h o = tt
OwnOrders-update k f ((j, row) ∷ t) h o = ground (arith, h row, OwnOrders-update k f t h)

-- Task `j` has the row, the order and the latest request that it had.
abbrev pub Frame : ℕ → OrdersDb → OrdersDb → Type 0
Frame j db after =
    (get j after.tasks ≡ get j db.tasks)
    × (get j after.orders ≡ get j db.orders)
    × (latest_request j after.task_events ≡ latest_request j db.task_events)
    × (OwnOrders db.tasks → OwnOrders after.tasks)

pub Frame-refl : (j : ℕ) (db : OrdersDb) → Frame j db db
Frame-refl j db = (refl, refl, refl, λ o. o)

pub Frame-settle :
    {A : Type 0} (j : ℕ) (db : OrdersDb) (r : Result A × OrdersDb)
    → Frame j db r.1
    → Frame j db (settle r db).1
Frame-settle j db (ok a, after) h = h
Frame-settle j db (err e, after) h = Frame-refl j db

pub Frame-trans : (j : ℕ) (a b d : OrdersDb) → Frame j a b → Frame j b d → Frame j a d
Frame-trans j a b d h k = (k.0 ∙ h.0, k.1 ∙ h.1, k.2 ∙ h.2, λ o. k.3 (h.3 o))

pub ruleset frame_rules = (arith, get-update_ne, get-update_self, OwnOrders-update)

module _ (c : MessagingConfig) (i : Supply) (id now : ℕ) (db : OrdersDb) (row : TaskRow)
    (found : get id db.tasks ≡ some row) (own : row.order_id ≡ id) (j : ℕ) (other : j ≢ id) where
  -- The internal tasks
  pub register_timeout-Frame : (request : ℕ) → Frame j db (register_timeout id request now db).1
  unfolding register_timeout latest_request
  register_timeout-Frame request = grind frame_rules

  pub finish_wait-Frame : (wait_count : ℕ) → Frame j db (finish_wait id wait_count now db).1
  unfolding finish_wait latest_request
  finish_wait-Frame wait_count = grind frame_rules

  pub dead_letter-Frame :
      (message_id : Option ℕ) → Frame j db (handle_dead_letter (some id) message_id now db).1
  unfolding handle_dead_letter latest_request
  dead_letter-Frame message_id = grind frame_rules

  pub dispatch-Frame :
      (decision_id : ℕ) → Frame j db (dispatch_scheduled_attempt c i id decision_id db).1
  unfolding dispatch_scheduled_attempt latest_request
  dispatch-Frame decision_id = grind frame_rules

  -- The actions of the executor
  continue-Frame : (decision_id : ℕ) → Frame j db (run_continue c i id decision_id db).1
  unfolding run_continue latest_request
  continue-Frame decision_id = grind frame_rules

  retry-Frame : (decision_id : ℕ) → Frame j db (run_retry c i id decision_id db).1
  unfolding run_retry latest_request
  retry-Frame decision_id = grind frame_rules

  wait-Frame : (decision_id : ℕ) → Frame j db (run_wait c i id decision_id db).1
  unfolding run_wait latest_request
  wait-Frame decision_id = grind frame_rules

  abort-Frame :
      (reason : String) (decision_id : ℕ) → Frame j db (run_abort i reason id decision_id db).1
  unfolding run_abort latest_request
  abort-Frame reason decision_id = grind frame_rules

module _ (c : MessagingConfig) (i : Supply) (id : ℕ) (j : ℕ) (other : j ≢ id) where
  fallback_request-Frame :
      (decision_id : ℕ) (db : OrdersDb) → Frame j db (fallback_request c i id decision_id db).1
  unfolding fallback_request latest_request
  fallback_request-Frame decision_id db = grind frame_rules

  fallback-Frame :
      (t : Option Target) (decision_id : ℕ) (db : OrdersDb)
      → Frame j db (run_fallback c i t id decision_id db).1
  unfolding run_fallback
  fallback-Frame t decision_id db = grind (frame_rules, fallback_request-Frame)

-- A decision for one task leaves every other task alone.
pub execute-Frame :
    (c : MessagingConfig) (i : Supply) (d : Decision) (id decision_id : ℕ) (db : OrdersDb)
    (row : TaskRow)
    → get id db.tasks ≡ some row
    → row.order_id ≡ id
    → (j : ℕ) → j ≢ id
    → Frame j db (execute c i d id decision_id db).1
unfolding execute
execute-Frame c i d id decision_id db row found own j other =
    Frame-settle j db (handler c i d id decision_id db)
      (handler-Frame d.action d.target d.reason_code)
  where
    handler-Frame :
        (a : ActionName) (t : Option Target) (reason : String)
        → Frame j db
            (handler c i
              (record { action = a; target = t; reason_code = reason })
              id
              decision_id
              db).1
    handler-Frame ActionName.continue t reason =
        unfold handler in continue-Frame c i id i.now db row found own j other decision_id
    handler-Frame ActionName.retry t reason =
        unfold handler in retry-Frame c i id i.now db row found own j other decision_id
    handler-Frame ActionName.wait t reason =
        unfold handler in wait-Frame c i id i.now db row found own j other decision_id
    handler-Frame ActionName.fallback t reason =
        unfold handler in fallback-Frame c i id j other t decision_id db
    handler-Frame ActionName.abort t reason =
        unfold handler in abort-Frame c i id i.now db row found own j other reason decision_id

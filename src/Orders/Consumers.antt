-- ===== src/Orders/Consumers.antt =====
-- What runs for each message: the Celery tasks of services/orders/app/messaging/consumers.py, and the
-- endpoints of services/orders/app/api/orders.py. A message whose task raises goes to the dead
-- letters.
use rule2llm_orch_lab.Prelude.{
  ℕ, Bool, true, false, Option, none, some, List, Action, pure, ◌>>=◌, ◌>>◌,
}
use rule2llm_orch_lab.Contract.Envelope.{Item, MessageEnvelope}
use rule2llm_orch_lab.Orders.Db.{OrdersDb}
use rule2llm_orch_lab.Orders.Repositories.{OrderView, create_order_with_task}
use rule2llm_orch_lab.Orders.Executor.{Supply, Effect, dispatch_scheduled_attempt}
use rule2llm_orch_lab.Orders.EventHandler.{handle_inventory_event}
use rule2llm_orch_lab.Orders.Internal.{register_timeout, finish_wait}
use rule2llm_orch_lab.Orders.StateBuilder.{Observation}
use rule2llm_orch_lab.Orders.Orchestrator.{Setup, DecisionOutcome, handle_decision_point}

-- `_decide`, if a decision is asked for: the outcome of the decision point.
unfoldable pub decide_if :
    Bool → Setup → Observation → Supply → ℕ → ℕ → Action OrdersDb (Option DecisionOutcome)
decide_if false u o i task_id decision_id = pure none
decide_if true u o i task_id decision_id = do
  outcome ← handle_decision_point u o i task_id decision_id
  pure (some outcome)

-- `handle_event`, for a message that `parse_message` accepted
unfoldable pub handle_event :
    Setup
    → Observation
    → Supply
    → ℕ
    → MessageEnvelope
    → Bool
    → Action OrdersDb (Option DecisionOutcome)
handle_event u o i decision_id m redelivered = do
  outcome ← handle_inventory_event m redelivered i.now
  decide_if outcome.decision_required u o i m.task_id decision_id

-- `timeout_check`
unfoldable pub timeout_check :
    Setup → Observation → Supply → ℕ → ℕ → ℕ → Action OrdersDb (Option DecisionOutcome)
timeout_check u o i decision_id task_id request = do
  registered ← register_timeout task_id request i.now
  decide_if registered u o i task_id decision_id

-- `dispatch_attempt`
unfoldable pub dispatch_attempt : Setup → Supply → ℕ → ℕ → Action OrdersDb (Option (List Effect))
dispatch_attempt u i task_id decision_id = dispatch_scheduled_attempt u.config i task_id decision_id

-- `reevaluate`
unfoldable pub reevaluate :
    Setup → Observation → Supply → ℕ → ℕ → ℕ → Action OrdersDb (Option DecisionOutcome)
reevaluate u o i decision_id task_id wait_count = do
  finished ← finish_wait task_id wait_count i.now
  decide_if finished u o i task_id decision_id

-- `create_order` of the API: the order, and the first decision point of its task.
unfoldable pub create_order :
    Setup → Observation → Supply → ℕ → ℕ → List Item → Action OrdersDb OrderView
create_order u o i decision_id execution_id items = do
  created ← create_order_with_task execution_id items i.now
  handle_decision_point u o i created.task_id decision_id
  pure created

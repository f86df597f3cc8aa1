-- ===== src/Tests/Data.antt =====
-- A configuration, an order and the databases of its first steps.
use rule2llm_orch_lab.Prelude.{false, none, some, List, [], ◌∷◌}
use rule2llm_orch_lab.Contract.Vocabulary
use rule2llm_orch_lab.Contract.Vocabulary.{TaskStatus, EventType, Target}
use rule2llm_orch_lab.Contract.Config.{MessagingConfig}
use rule2llm_orch_lab.Contract.Envelope.{
  Item, MessageEnvelope, ReservationRoute, reservation_result, reservation_failed,
}
use rule2llm_orch_lab.Orders.Db.{OrdersDb, TaskRow}
use rule2llm_orch_lab.Orders.Repositories.{create_order_with_task}
use rule2llm_orch_lab.Orders.Executor.{Supply}
use rule2llm_orch_lab.Orders.StateBuilder.{Observation}
use rule2llm_orch_lab.Orders.Orchestrator.{Setup, handle_decision_point}
use rule2llm_orch_lab.Orders.Consumers.{handle_event}
use rule2llm_orch_lab.Orders.System.Rules.{rules_setup}

abbrev pub config : MessagingConfig
config = record {
  inventory_timeout_ms = 3000;
  max_attempts = 3;
  retry_delay_ms = 500;
  wait_delay_ms = 500;
  max_waits = 2;
  fallback_max_attempts = 1;
  queue_high_watermark = 50;
  task_deadline_ms = 30000;
}

abbrev pub setup : Setup
setup = rules_setup config 5

abbrev pub items : List Item
items = record { sku = "SKU-001"; quantity = 2 } ∷ []

abbrev pub seen : Observation
seen = record {
  now = 10;
  state_id = 1;
  queue_stats = λ t. record { message_count = 0; consumer_count = 1 };
}

abbrev pub supply : Supply
supply = record { now = 10; published_at = 10; message_id = 100 }

abbrev pub empty : OrdersDb
empty = record { orders = []; tasks = []; processed_events = []; task_events = [] }

abbrev pub new_db : OrdersDb
new_db = (create_order_with_task 1 items 0 empty).1

abbrev pub busy_db : OrdersDb
busy_db = (handle_decision_point setup seen supply 1 7 new_db).1

abbrev pub success : MessageEnvelope
success = record {
  execution_id = 1;
  message_id = 200;
  task_id = 1;
  event_type = EventType.stock_reservation_succeeded;
  event_seq = 2;
  attempt_number = 1;
  published_at = 12;
  decision_id = some 7;
  target = some Target.inventory_primary;
  payload = reservation_result 1 ReservationRoute.primary;
}

abbrev pub failure : MessageEnvelope
failure = record success {
  event_type = EventType.stock_reservation_failed;
  payload = reservation_failed 1 ReservationRoute.primary Vocabulary.TaskResult.transient_error;
}

-- The row of the task when it is new, and when its first request is out
abbrev pub new_row : TaskRow
new_row = record {
  order_id = 1;
  execution_id = 1;
  status = TaskStatus.pending;
  current_target = none;
  attempt_number = 1;
  wait_count = 0;
  fallback_used = false;
  current_event_seq = 1;
  last_result = none;
  created_at = 0;
  updated_at = 0;
}

abbrev pub busy_row : TaskRow
busy_row = record new_row {
  status = TaskStatus.dispatched;
  current_target = some Target.inventory_primary;
  current_event_seq = 2;
  updated_at = 10;
}

-- The row after a failure, with a second attempt scheduled
abbrev pub failed_row : TaskRow
failed_row = record busy_row {
  status = TaskStatus.retrying;
  attempt_number = 2;
  current_event_seq = 4;
  last_result = some Vocabulary.TaskResult.transient_error;
}

abbrev pub failed_db : OrdersDb
failed_db = (handle_event setup seen supply 8 failure false busy_db).1

-- The database after a success instead, where the task has ended
abbrev pub done_db : OrdersDb
done_db = (handle_event setup seen supply 8 success false busy_db).1

-- ===== src/Contract/Vocabulary.antt =====
-- The enumerations of shared/task.py, shared/events.py, shared/messaging.py and
-- services/*/app/db/models.py. A `StrEnum` is a data type; `value` is its text on the wire.
use rule2llm_orch_lab.Prelude.{String, Bool, true, false, Option, none, some, str_eq, if◌then◌else◌}

-- `TaskStatus`
pub data TaskStatus : Type 0 where
  pending dispatched processing waiting retrying fallback_processing : TaskStatus
  completed aborted dead_lettered : TaskStatus

-- `status in TERMINAL_TASK_STATUSES`
abbrev pub is_terminal : TaskStatus → Bool
is_terminal completed = true
is_terminal aborted = true
is_terminal dead_lettered = true
is_terminal _ = false

-- `TaskResult`
pub data TaskResult : Type 0 where
  ok timeout transient_error invalid_data fallback_failed : TaskResult

-- `TRANSIENT_RESULTS` of the rules engine, `DEGRADED_RESULTS` of the state builder
abbrev pub is_transient : Option TaskResult → Bool
is_transient (some timeout) = true
is_transient (some transient_error) = true
is_transient _ = false

-- `EventType`
pub data EventType : Type 0 where
  order_created task_created stock_reservation_requested stock_reservation_succeeded : EventType
  stock_reservation_failed inventory_timeout transient_error wait_scheduled : EventType
  wait_finished retry_scheduled fallback_scheduled task_completed task_aborted : EventType
  message_dead_lettered : EventType

-- `Target`: the routes `inventory.primary` and `inventory.fallback`. The third member of `Route`,
-- `orders.events`, is never a target.
pub data Target : Type 0 where
  inventory_primary inventory_fallback : Target

unfoldable pub target_value : Target → String
target_value inventory_primary = "inventory.primary"
target_value inventory_fallback = "inventory.fallback"

-- A text as a member of `Target`; `none` if it is outside the enumeration.
unfoldable pub parse_target : String → Option Target
parse_target s =
    if str_eq s "inventory.primary"
    then some inventory_primary
    else if str_eq s "inventory.fallback"
    then some inventory_fallback
    else none

abbrev pub is_fallback : Target → Bool
is_fallback inventory_primary = false
is_fallback inventory_fallback = true

-- `OrderStatus`
pub data OrderStatus : Type 0 where
  pending completed failed : OrderStatus

-- `order_status_for`
unfoldable pub order_status_for : TaskStatus → OrderStatus
order_status_for completed = OrderStatus.completed
order_status_for aborted = failed
order_status_for dead_lettered = failed
order_status_for _ = OrderStatus.pending

-- `EventSource`
pub data EventSource : Type 0 where
  orders inventory : EventSource

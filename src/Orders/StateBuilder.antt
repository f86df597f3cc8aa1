-- ===== src/Orders/StateBuilder.antt =====
-- `StateBuilder` of services/orders/app/orchestration/state_builder.py, and the window of recent
-- events that it reads (`recent_events` of services/orders/app/db/trajectory.py). The broker's answers
-- are a parameter.
use rule2llm_orch_lab.Prelude.{
  ℕ, zero, suc, ◌-◌, Bool, true, false, Option, none, some, List, [], ◌∷◌, map, Result, err,
  unknown_task, contract_error, not, find, any, ltb, ◌==◌, ◌&&◌, if◌then◌else◌,
}
use mathlib.Core.List.{reverse}
use rule2llm_orch_lab.Prelude.Table.{get}
use rule2llm_orch_lab.Contract.Vocabulary.{
  Target, inventory_primary, inventory_fallback, TaskResult, is_transient,
}
use rule2llm_orch_lab.Contract.Config.{MessagingConfig}
use rule2llm_orch_lab.Contract.SystemState.{
  SystemState, RecentEvent, ServiceStatus, available, degraded, unavailable, inventory_service,
  make_state,
}
use rule2llm_orch_lab.Orders.Db.{OrdersDb, EventRow, TaskRow}
use rule2llm_orch_lab.Orders.Trajectory.{latest_request, is_inventory}

-- `QueueStats` of orchestration/broker_observer.py
pub record QueueStats : Type 0 where
  pub message_count : ℕ
  pub consumer_count : ℕ

-- What a build takes from outside: the clock, a new identifier and the broker.
pub record Observation : Type 0 where
  pub now : ℕ
  pub state_id : ℕ
  pub queue_stats : Target → QueueStats

abbrev pub same_message : Option ℕ → Option ℕ → Bool
same_message (some a) (some b) = a == b
same_message _ _ = false

-- NOT EXISTS an older row with the same message
abbrev pub is_first : List EventRow → EventRow → Bool
is_first events e =
    not (any (λ f. same_message e.message_id f.message_id && ltb f.event_id e.event_id) events)

-- ORDER BY event_id DESC LIMIT n, over rows that have the newest first
unfoldable pub newest : ℕ → (EventRow → Bool) → List EventRow → List EventRow
newest zero p es = []
newest (suc n) p [] = []
newest (suc n) p (e ∷ es) = elim (p e) [ true ↦ e ∷ newest n p es | false ↦ newest (suc n) p es ]

abbrev pub recent_event : EventRow → RecentEvent
recent_event e = record {
  event_type = e.event_type;
  attempt_number = e.attempt_number;
  event_seq = e.event_seq;
}

-- `recent_events`: the window K, oldest first.
unfoldable pub recent_events : ℕ → ℕ → List EventRow → List RecentEvent
unfolding newest
recent_events task_id limit events =
    reverse
      (map recent_event (newest limit (λ e. e.task_id == task_id && is_first events e) events))

-- `_service_status`
unfoldable pub service_status : ℕ → Option TaskResult → ServiceStatus
service_status consumer_count last_result =
    if consumer_count == 0
    then unavailable
    else if is_transient last_result
    then degraded
    else available

-- The oldest reply after the request
unfoldable pub first_reply : ℕ → ℕ → List EventRow → Option EventRow
first_reply task_id request_id [] = none
first_reply task_id request_id (e ∷ es) = elim (first_reply task_id request_id es) [
  | some r ↦ some r
  | none ↦
      if e.task_id == task_id
        && is_inventory e.service
        && not e.redelivered
        && ltb request_id e.event_id
      then some e
      else none
]

-- `_latency_ms`: from the publication of the last request to its reply, or to now; never negative.
unfoldable pub latency_ms : ℕ → ℕ → List EventRow → Option ℕ
unfolding latest_request first_reply
latency_ms task_id now events = elim (latest_request task_id events) [
  | none ↦ none
  | some request ↦ elim request.published_at [
    | none ↦ none
    | some published ↦ elim (first_reply task_id request.event_id events) [
      | none ↦ some (now - published)
      | some reply ↦ some (reply.recorded_at - published)
    ]
  ]
]

-- `_last_event_redelivered`
unfoldable pub last_event_redelivered : ℕ → List EventRow → Bool
last_event_redelivered task_id events = elim (find (λ e. e.task_id == task_id) events) [
  | none ↦ false
  | some e ↦ e.redelivered
]

-- `Route(task["current_target"]) if task["current_target"] else Route.INVENTORY_PRIMARY`
abbrev pub observed_target : Option Target → Target
observed_target none = inventory_primary
observed_target (some t) = t

-- The snapshot of a task.
unfoldable pub snapshot :
    MessagingConfig → ℕ → Observation → List EventRow → ℕ → TaskRow → SystemState
unfolding recent_events service_status latency_ms last_event_redelivered
snapshot c limit o events task_id task =
    let target_stats = o.queue_stats (observed_target task.current_target) in
    let fallback_available = ltb 0 (o.queue_stats inventory_fallback).consumer_count in
    record {
      execution_id = task.execution_id;
      task_id = task_id;
      state_id = o.state_id;
      timestamp = o.now;
      current_event_seq = task.current_event_seq;
      task = record {
        phase = task.status;
        current_service = elim task.current_target [
          | none ↦ none
          | some t ↦ some inventory_service
        ];
        current_target = task.current_target;
        attempt_number = task.attempt_number;
        max_attempts = c.max_attempts;
        wait_count = task.wait_count;
        max_waits = c.max_waits;
        elapsed_ms = o.now - task.created_at;
      };
      service = record {
        status = service_status target_stats.consumer_count task.last_result;
        latency_ms = latency_ms task_id o.now events;
        last_result = task.last_result;
      };
      messaging = record {
        queue_size = target_stats.message_count;
        redelivered = last_event_redelivered task_id events;
      };
      alternatives = record {
        fallback_available = fallback_available;
        fallback_used = task.fallback_used;
        alternative_targets =
            if fallback_available && not task.fallback_used then inventory_fallback ∷ [] else [];
      };
      recent_events = recent_events task_id limit events;
    }

-- `build`: raises for an unknown task, and for a clock that stands before the task's creation.
unfoldable pub build : MessagingConfig → ℕ → Observation → OrdersDb → ℕ → Result SystemState
unfolding snapshot make_state
build c limit o db task_id = elim (get task_id db.tasks) [
  | none ↦ err unknown_task
  | some task ↦
      if ltb o.now task.created_at
      then err contract_error
      else make_state (snapshot c limit o db.task_events task_id task)
]

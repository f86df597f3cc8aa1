-- ===== src/Contract/SystemState.antt =====
-- `SystemState` of shared/system_state.py, the snapshot that both engines are given. Counters are
-- natural numbers; identifiers are only compared, so they are numbers too.
use rule2llm_orch_lab.Prelude.{
  ℕ, Bool, true, Option, List, [], ◌∷◌, Result, ok, err, contract_error, leb, ◌&&◌, if◌then◌else◌,
}
use rule2llm_orch_lab.Contract.Vocabulary.{TaskStatus, TaskResult, EventType, Target}

-- `Literal["available", "degraded", "unavailable"]`
pub data ServiceStatus : Type 0 where
  available degraded unavailable : ServiceStatus

-- `Literal["inventory-service"]`
pub data ServiceName : Type 0 where
  inventory_service : ServiceName

pub record TaskView : Type 0 where
  pub phase : TaskStatus
  pub current_service : Option ServiceName
  pub current_target : Option Target
  pub attempt_number : ℕ
  pub max_attempts : ℕ
  pub wait_count : ℕ
  pub max_waits : ℕ
  pub elapsed_ms : ℕ

pub record ServiceView : Type 0 where
  pub status : ServiceStatus
  pub latency_ms : Option ℕ
  pub last_result : Option TaskResult

pub record MessagingView : Type 0 where
  pub queue_size : ℕ
  pub redelivered : Bool

pub record AlternativesView : Type 0 where
  pub fallback_available : Bool
  pub fallback_used : Bool
  pub alternative_targets : List Target

pub record RecentEvent : Type 0 where
  pub event_type : EventType
  pub attempt_number : ℕ
  pub event_seq : ℕ

pub record SystemState : Type 0 where
  pub execution_id : ℕ
  pub task_id : ℕ
  pub state_id : ℕ
  pub timestamp : ℕ
  pub current_event_seq : ℕ
  pub task : TaskView
  pub service : ServiceView
  pub messaging : MessagingView
  pub alternatives : AlternativesView
  pub recent_events : List RecentEvent

-- pydantic's `PositiveInt` fields of a recent event
abbrev pub is_recent_event : RecentEvent → Bool
is_recent_event e = leb 1 e.attempt_number && leb 1 e.event_seq

abbrev pub are_recent_events : List RecentEvent → Bool
are_recent_events [] = true
are_recent_events (e ∷ es) = is_recent_event e && are_recent_events es

-- `SystemState(…)` raises unless its positive counters are positive.
unfoldable pub make_state : SystemState → Result SystemState
make_state s =
    if leb 1 s.current_event_seq
      && leb 1 s.task.attempt_number
      && leb 1 s.task.max_attempts
      && are_recent_events s.recent_events
    then ok s
    else err contract_error

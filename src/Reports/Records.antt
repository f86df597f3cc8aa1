-- ===== src/Reports/Records.antt =====
-- `check_states`, `check_decisions`, `check_logs` and `check_fault_events` of
-- scripts/pilot/check_traceability.py. A record of `states.jsonl` or `decisions.jsonl` stands here with
-- the value that pydantic read out of it, none where that raised; a key that is missing is none.
pub mod Findings
pub mod Recorded
pub mod Reached
use rule2llm_orch_lab.Prelude.{
  ℕ, String, ◌+◌, ◌≡◌, ◌++◌, Bool, true, false, Option, none, some, List, [], ◌∷◌, ◌==◌, not, ◌&&◌,
  ◌||◌, if◌then◌else◌, map, any,
}
use rule2llm_orch_lab.Prelude.Table.{Table, get}
use rule2llm_orch_lab.Contract.Vocabulary.{EventType}
use rule2llm_orch_lab.Contract.Decision.{Decision, ProposedDecision, ValidationResult}
use rule2llm_orch_lab.Contract.SystemState.{SystemState, RecentEvent}

-- The messages of `result.errors`, with the identifiers that they name
pub data RecordError : Type 0 where
  invalid_state invalid_decision : RecordError
  duplicated_state envelope_differs foreign_state no_task : ℕ → RecordError
  window_not_found window_differs : ℕ → RecordError
  duplicated_decision foreign_decision no_state : ℕ → RecordError
  foreign_lines : ℕ → RecordError
  foreign_faults : RecordError
  not_closed : ℕ → RecordError

-- A line of `states.jsonl`
pub record StateLine : Type 0 where
  pub system_state : Option SystemState
  pub state_id : Option ℕ
  pub task_id : Option ℕ
  pub recent_events : Option (List RecentEvent)

abbrev pub is_id : Option ℕ → ℕ → Bool
is_id none k = false
is_id (some j) k = j == k

-- Two event types are the same if their texts are; the numbers stand for the texts.
abbrev text_number : EventType → ℕ
text_number EventType.order_created = 0
text_number EventType.task_created = 1
text_number EventType.stock_reservation_requested = 2
text_number EventType.stock_reservation_succeeded = 3
text_number EventType.stock_reservation_failed = 4
text_number EventType.inventory_timeout = 5
text_number EventType.transient_error = 6
text_number EventType.wait_scheduled = 7
text_number EventType.wait_finished = 8
text_number EventType.retry_scheduled = 9
text_number EventType.fallback_scheduled = 10
text_number EventType.task_completed = 11
text_number EventType.task_aborted = 12
text_number EventType.message_dead_lettered = 13

abbrev pub is_seq_and_type : RecentEvent → ℕ × EventType → Bool
is_seq_and_type e x = x.0 == e.event_seq && (text_number x.1 == text_number e.event_type)

-- `item not in trajectory`, for one item of the window
abbrev pub is_in : List (ℕ × EventType) → RecentEvent → Bool
is_in trajectory e = any (is_seq_and_type e) trajectory

-- `any(item not in trajectory for item in window)`
abbrev pub misses : List (ℕ × EventType) → List RecentEvent → Bool
misses trajectory window = any (λ e. not (is_in trajectory e)) window

abbrev same_event : RecentEvent → RecentEvent → Bool
same_event a b =
    a.event_seq == b.event_seq
    && a.attempt_number == b.attempt_number
    && (text_number a.event_type == text_number b.event_type)

unfoldable pub same_events : List RecentEvent → List RecentEvent → Bool
same_events [] [] = true
same_events (a ∷ xs) (b ∷ ys) = same_event a b && same_events xs ys
same_events _ _ = false

-- `record.get("recent_events") == [event.model_dump(…) for event in state.recent_events]`
abbrev same_window : Option (List RecentEvent) → List RecentEvent → Bool
same_window none window = false
same_window (some es) window = same_events es window

abbrev pub error_if : Bool → RecordError → List RecordError
error_if true e = e ∷ []
error_if false e = []

-- What `check_states` has found, and the dictionary that it returns: an assignment to a key stands before
-- the older ones.
pub record States : Type 0 where
  pub errors : List RecordError
  pub state_tasks : Table ℕ

abbrev known : Option ℕ → Bool
known none = false
known (some id) = true

-- The last three checks of a state, which need the trajectory of its task
unfoldable pub window_errors :
    Option (List (ℕ × EventType)) → SystemState → StateLine → List RecordError
unfolding same_events
window_errors none s line = no_task s.state_id ∷ []
window_errors (some trajectory) s line =
    error_if (misses trajectory s.recent_events) (window_not_found s.state_id)
    ++ error_if (not (same_window line.recent_events s.recent_events)) (window_differs s.state_id)

-- The body of the loop of `check_states`
unfoldable pub check_state :
    ℕ → (ℕ → Option (List (ℕ × EventType))) → StateLine → Option SystemState → States → States
unfolding window_errors
check_state execution_id trajectories line none r = record r {
  errors = r.errors ++ (invalid_state ∷ []);
}
check_state execution_id trajectories line (some s) r = record {
  errors =
      r.errors
      ++ (error_if (known (get s.state_id r.state_tasks)) (duplicated_state s.state_id)
          ++ (error_if (not (is_id line.state_id s.state_id && is_id line.task_id s.task_id))
                (envelope_differs s.state_id)
              ++ (error_if (not (s.execution_id == execution_id)) (foreign_state s.state_id)
                  ++ window_errors (trajectories s.task_id) s line)));
  state_tasks = (s.state_id, s.task_id) ∷ r.state_tasks;
}

-- `check_states`; `trajectories.get` is the argument.
unfoldable pub check_states :
    ℕ → (ℕ → Option (List (ℕ × EventType))) → List StateLine → States → States
unfolding check_state
check_states execution_id trajectories [] r = r
check_states execution_id trajectories (line ∷ lines) r =
    check_states execution_id trajectories lines
      (check_state execution_id trajectories line line.system_state r)

-- `DecisionRecord` of services/orders/app/observability/recorders.py, as far as it is checked
pub record DecisionLine : Type 0 where
  pub execution_id : ℕ
  pub task_id : ℕ
  pub state_id : ℕ
  pub decision_id : ℕ
  pub proposed_decision : Option ProposedDecision
  pub validation : ValidationResult
  pub executed_decision : Decision

-- The body of the loop of `check_decisions`, for a record that was read
unfoldable pub decision_errors : ℕ → Table ℕ → List ℕ → DecisionLine → List RecordError
unfolding get
decision_errors execution_id state_tasks seen d =
    error_if (any (λ k. k == d.decision_id) seen) (duplicated_decision d.decision_id)
    ++ (error_if (not (d.execution_id == execution_id)) (foreign_decision d.decision_id)
        ++ error_if (not (is_id (get d.state_id state_tasks) d.task_id)) (no_state d.decision_id))

-- `check_decisions`, with the `seen` of its loop
unfoldable pub check_decisions :
    ℕ → Table ℕ → List ℕ → List (Option DecisionLine) → List RecordError
unfolding decision_errors
check_decisions execution_id state_tasks seen [] = []
check_decisions execution_id state_tasks seen (none ∷ ds) =
    invalid_decision ∷ check_decisions execution_id state_tasks seen ds
check_decisions execution_id state_tasks seen (some d ∷ ds) =
    decision_errors execution_id state_tasks seen d
    ++ check_decisions execution_id state_tasks (d.decision_id ∷ seen) ds

-- `sum(1 for line in logs if line.get("execution_id") != execution_id)`
unfoldable pub foreign_count : ℕ → List (Option ℕ) → ℕ
foreign_count execution_id [] = 0
foreign_count execution_id (x ∷ xs) =
    let rest = foreign_count execution_id xs in if is_id x execution_id then rest else rest + 1

-- `check_logs`, of the `execution_id` of each line
unfoldable pub check_logs : ℕ → List (Option ℕ) → List RecordError
unfolding foreign_count
check_logs execution_id logs =
    error_if (not (foreign_count execution_id logs == 0))
      (foreign_lines (foreign_count execution_id logs))

-- `event["event_type"]` of `fault_events.jsonl`
pub data FaultEventType : Type 0 where
  fault_started fault_ended other_fault_event : FaultEventType

pub record FaultLine : Type 0 where
  pub execution_id : Option ℕ
  pub fault_id : ℕ
  pub event_type : FaultEventType

abbrev pub opens_window : FaultEventType → Bool
opens_window fault_started = true
opens_window _ = false

abbrev pub closes_window : FaultEventType → Bool
closes_window fault_ended = true
closes_window _ = false

-- `windows[(fault_id, "FAULT_STARTED")]` and `windows[(fault_id, "FAULT_ENDED")]`
unfoldable pub count_faults : (FaultEventType → Bool) → ℕ → List FaultLine → ℕ
count_faults is id [] = 0
count_faults is id (f ∷ fs) =
    let rest = count_faults is id fs in
    if is f.event_type && f.fault_id == id then rest + 1 else rest

abbrev pub started : ℕ → List FaultLine → ℕ
started id faults = count_faults opens_window id faults

abbrev pub ended : ℕ → List FaultLine → ℕ
ended id faults = count_faults closes_window id faults

-- `{fault_id for fault_id, _ in windows}`
unfoldable pub fault_ids : List FaultLine → List ℕ
fault_ids [] = []
fault_ids (f ∷ fs) =
    let rest = fault_ids fs in
    if (opens_window f.event_type || closes_window f.event_type)
      && not (any (λ id. id == f.fault_id) rest)
    then f.fault_id ∷ rest
    else rest

unfoldable pub window_balance : List ℕ → List FaultLine → List RecordError
unfolding count_faults
window_balance [] faults = []
window_balance (id ∷ ids) faults =
    error_if (not (started id faults == ended id faults)) (not_closed id)
    ++ window_balance ids faults

-- `check_fault_events`
unfoldable pub check_fault_events : ℕ → List FaultLine → List RecordError
unfolding window_balance fault_ids
check_fault_events execution_id faults =
    error_if (any (λ (f : FaultLine). not (is_id f.execution_id execution_id)) faults)
      foreign_faults
    ++ window_balance (fault_ids faults) faults

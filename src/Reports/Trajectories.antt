-- ===== src/Reports/Trajectories.antt =====
-- `check_trajectories` of scripts/pilot/check_traceability.py, over the records of an execution.
pub mod Counting
pub mod Passing
pub mod Keys
pub mod Reached
pub mod Findings
use rule2llm_orch_lab.Prelude.{
  ℕ, ◌+◌, ◌≡◌, ◌++◌, Bool, true, false, Option, none, some, List, [], ◌∷◌, ◌==◌, not, if◌then◌else◌,
  map, any,
}
use rule2llm_orch_lab.Prelude.Table.{Table, get, insert}
use rule2llm_orch_lab.Contract.Vocabulary.{EventType}
use rule2llm_orch_lab.Reports.Artifacts.{TaskEventRecord, of_task}

-- The messages of `result.errors`, with what they name
pub data TraceError : Type 0 where
  foreign_execution : ℕ → TraceError
  bad_start : ℕ → TraceError
  new_seq_for_repeated : ℕ → ℕ → TraceError
  unexpected_seq : ℕ → ℕ → ℕ → TraceError

abbrev pub is_task_created : EventType → Bool
is_task_created EventType.task_created = true
is_task_created _ = false

-- `result.errors` after the loop that looks for records of other executions
unfoldable pub foreign_errors : ℕ → List TaskEventRecord → List TraceError
foreign_errors execution_id [] = []
foreign_errors execution_id (e ∷ es) =
    let rest = foreign_errors execution_id es in
    if e.execution_id == execution_id then rest else foreign_execution e.execution_id ∷ rest

-- The keys of `by_task`, in the order of insertion
unfoldable pub tasks_of : List ℕ → List TaskEventRecord → List ℕ
tasks_of seen [] = []
tasks_of seen (e ∷ es) =
    let known = tasks_of seen es in
    let more = tasks_of (e.task_id ∷ seen) es in
    if any (λ id. id == e.task_id) seen then known else e.task_id ∷ more

-- The variables of the loop over the records of one task
pub record Progress : Type 0 where
  pub first_seq_by_message : Table ℕ
  pub expected_seq : ℕ
  pub errors : List TraceError

abbrev pub progress : Progress
progress = record { first_seq_by_message = []; expected_seq = 1; errors = [] }

-- `if message_id is not None: first_seq_by_message[message_id] = event["event_seq"]`
abbrev pub note_first : Option ℕ → ℕ → Table ℕ → Table ℕ
note_first none seq t = t
note_first (some m) seq t = insert m seq t

-- The first occurrence of a message, or an event that is no message
unfoldable pub check_first : ℕ → TaskEventRecord → Progress → Progress
check_first id e p = record {
  first_seq_by_message = note_first e.message_id e.event_seq p.first_seq_by_message;
  expected_seq = e.event_seq + 1;
  errors =
      if e.event_seq == p.expected_seq
      then p.errors
      else p.errors ++ (unexpected_seq id e.event_seq p.expected_seq ∷ []);
}

unfoldable pub check_repeated : ℕ → ℕ → ℕ → TaskEventRecord → Progress → Progress
check_repeated id m seq e p = record p {
  errors = if e.event_seq == seq then p.errors else p.errors ++ (new_seq_for_repeated id m ∷ []);
}

-- `first_seq_by_message.get(message_id)`
abbrev pub first_of : Option ℕ → Table ℕ → Option ℕ
first_of none t = none
first_of (some m) t = get m t

abbrev message_number : Option ℕ → ℕ
message_number none = 0
message_number (some m) = m

-- The body of the loop
unfoldable pub check_event : ℕ → TaskEventRecord → Progress → Progress
unfolding check_first check_repeated
check_event id e p = elim (first_of e.message_id p.first_seq_by_message) [
  | some seq ↦ check_repeated id (message_number e.message_id) seq e p
  | none ↦ check_first id e p
]

unfoldable pub check_events : ℕ → List TaskEventRecord → Progress → Progress
check_events id [] p = p
check_events id (e ∷ es) p = check_events id es (check_event id e p)

unfoldable pub start_errors : ℕ → List TaskEventRecord → List TraceError
start_errors id [] = []
start_errors id (e ∷ es) = if is_task_created e.event_type then [] else bad_start id ∷ []

-- What the checker finds in the records of one task
unfoldable pub check_task : ℕ → List TaskEventRecord → List TraceError
unfolding check_events start_errors
check_task id es = start_errors id es ++ (check_events id es progress).errors

unfoldable pub check_tasks : List ℕ → List TaskEventRecord → List TraceError
unfolding check_task
check_tasks [] es = []
check_tasks (id ∷ ids) es = check_task id (of_task id es) ++ check_tasks ids es

-- `check_trajectories`: the errors that it appends
unfoldable pub check_trajectories : ℕ → List TaskEventRecord → List TraceError
unfolding foreign_errors check_tasks
check_trajectories execution_id events =
    foreign_errors execution_id events ++ check_tasks (tasks_of [] events) events

abbrev pub seq_and_type : TaskEventRecord → ℕ × EventType
seq_and_type e = (e.event_seq, e.event_type)

-- A task has a key in the dictionary only if it has records.
abbrev pub pairs_of : List TaskEventRecord → Option (List (ℕ × EventType))
pairs_of [] = none
pairs_of (e ∷ es) = some (map seq_and_type (e ∷ es))

-- The value that `check_trajectories` returns, read with `get`: the pairs of each task that has records
unfoldable pub trajectory : ℕ → List TaskEventRecord → Option (List (ℕ × EventType))
unfolding of_task
trajectory id events = pairs_of (of_task id events)

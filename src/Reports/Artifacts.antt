-- ===== src/Reports/Artifacts.antt =====
-- scripts/pilot/collect_artifacts.py: the rows of `task_events` that are exported for an execution.
use rule2llm_orch_lab.Prelude.{
  ℕ, ◌≡◌, ◌++◌, refl, Bool, Option, List, [], ◌∷◌, arith, ltb, ◌==◌, if◌then◌else◌,
}
use rule2llm_orch_lab.Contract.Vocabulary.{EventType, EventSource, Target}
use rule2llm_orch_lab.Contract.Envelope.{Payload}
use rule2llm_orch_lab.Orders.Db.{EventRow}

-- `task_event_record`; the payload is the value that `json.loads` reads back.
pub record TaskEventRecord : Type 0 where
  pub execution_id : ℕ
  pub task_id : ℕ
  pub message_id : Option ℕ
  pub event_seq : ℕ
  pub event_type : EventType
  pub service : EventSource
  pub target : Option Target
  pub timestamp : ℕ
  pub published_at : Option ℕ
  pub redelivered : Bool
  pub attempt_number : ℕ
  pub payload : Payload

abbrev pub task_event_record : EventRow → TaskEventRecord
task_event_record row = record {
  execution_id = row.execution_id;
  task_id = row.task_id;
  message_id = row.message_id;
  event_seq = row.event_seq;
  event_type = row.event_type;
  service = row.service;
  target = row.target;
  timestamp = row.recorded_at;
  published_at = row.published_at;
  redelivered = row.redelivered;
  attempt_number = row.attempt_number;
  payload = row.payload;
}

-- WHERE execution_id = ?, of the rows in the order of `event_id`, which are stored newest first
unfoldable pub rows_of : ℕ → List EventRow → List TaskEventRecord
rows_of execution_id [] = []
rows_of execution_id (row ∷ rows) =
    let older = rows_of execution_id rows in
    if row.execution_id == execution_id then older ++ (task_event_record row ∷ []) else older

-- ORDER BY task_id, of rows that are in the order of `event_id`
unfoldable pub insert_by_task : TaskEventRecord → List TaskEventRecord → List TaskEventRecord
insert_by_task e [] = e ∷ []
insert_by_task e (x ∷ xs) =
    let rest = insert_by_task e xs in if ltb x.task_id e.task_id then x ∷ rest else e ∷ x ∷ xs

unfoldable pub order_by_task : List TaskEventRecord → List TaskEventRecord
unfolding insert_by_task
order_by_task [] = []
order_by_task (e ∷ es) = insert_by_task e (order_by_task es)

-- `export_task_events`: the lines of `task_events.jsonl`
unfoldable pub export_task_events : ℕ → List EventRow → List TaskEventRecord
unfolding rows_of order_by_task
export_task_events execution_id rows = order_by_task (rows_of execution_id rows)

-- The records of one task, in order
unfoldable pub of_task : ℕ → List TaskEventRecord → List TaskEventRecord
of_task id [] = []
of_task id (e ∷ es) = let rest = of_task id es in if e.task_id == id then e ∷ rest else rest

pub of_task-append :
    (id : ℕ) (xs ys : List TaskEventRecord) → of_task id (xs ++ ys) ≡ of_task id xs ++ of_task id ys
unfolding of_task
of_task-append id [] ys = refl
of_task-append id (x ∷ xs) ys = ground (arith, of_task-append id xs ys)

of_task-insert :
    (id : ℕ) (e : TaskEventRecord) (xs : List TaskEventRecord)
    → of_task id (insert_by_task e xs) ≡ of_task id (e ∷ xs)
unfolding of_task insert_by_task
of_task-insert id e [] = refl
of_task-insert id e (x ∷ xs) = ground (arith, of_task-insert id e xs)

-- The order of the tasks does not matter to one of them.
pub of_task-order :
    (id : ℕ) (es : List TaskEventRecord) → of_task id (order_by_task es) ≡ of_task id es
unfolding of_task order_by_task
of_task-order id [] = refl
of_task-order id (e ∷ es) =
    ground (arith, of_task-insert id e (order_by_task es), of_task-order id es)

-- Every record is of one execution.
unfoldable pub AllOf : ℕ → List TaskEventRecord → Type 0
AllOf execution_id [] = Unit
AllOf execution_id (e ∷ es) = (e.execution_id ≡ execution_id) × AllOf execution_id es

AllOf-append : (x : ℕ) (xs ys : List TaskEventRecord) → AllOf x xs → AllOf x ys → AllOf x (xs ++ ys)
unfolding AllOf
AllOf-append x [] ys h k = k
AllOf-append x (e ∷ xs) ys h k = (h.0, AllOf-append x xs ys h.1 k)

AllOf-insert :
    (x : ℕ) (e : TaskEventRecord) (es : List TaskEventRecord)
    → e.execution_id ≡ x
    → AllOf x es
    → AllOf x (insert_by_task e es)
unfolding AllOf insert_by_task
AllOf-insert x e [] h k = (h, tt)
AllOf-insert x e (y ∷ es) h k = ground (arith, AllOf-insert x e es h k.1)

AllOf-order : (x : ℕ) (es : List TaskEventRecord) → AllOf x es → AllOf x (order_by_task es)
unfolding AllOf order_by_task
AllOf-order x [] h = tt
AllOf-order x (e ∷ es) h = AllOf-insert x e (order_by_task es) h.0 (AllOf-order x es h.1)

AllOf-rows : (x : ℕ) (rows : List EventRow) → AllOf x (rows_of x rows)
unfolding AllOf rows_of
AllOf-rows x [] = tt
AllOf-rows x (row ∷ rows) = ground (
  arith,
  AllOf-rows x rows,
  AllOf-append x (rows_of x rows) (task_event_record row ∷ []) (AllOf-rows x rows),
)

-- Only records of the execution are exported.
pub export-AllOf : (x : ℕ) (rows : List EventRow) → AllOf x (export_task_events x rows)
unfolding export_task_events
export-AllOf x rows = AllOf-order x (rows_of x rows) (AllOf-rows x rows)

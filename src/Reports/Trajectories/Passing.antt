-- ===== src/Reports/Trajectories/Passing.antt =====
-- The trajectories that the orders-service records, under check_traceability.py.
use mathlib.Core.List.{append-nil}
use rule2llm_orch_lab.Prelude.{
  ℕ, ◌≡◌, ◌≢◌, ◌++◌, refl, arith, Option, none, some, List, [], ◌∷◌, ℕ_discrete,
}
use rule2llm_orch_lab.Orders.Db.{OrdersDb, EventRow}
use rule2llm_orch_lab.Orders.Numbering.{first_seq, repeats, last_seq, Fits, Numbered, Traced}
use rule2llm_orch_lab.Reports.Artifacts.{
  TaskEventRecord, task_event_record, rows_of, export_task_events, of_task, of_task-append,
  of_task-order, AllOf, export-AllOf,
}
use rule2llm_orch_lab.Reports.Trajectories.{
  foreign_errors, check_task, check_tasks, tasks_of, check_trajectories,
}
use rule2llm_orch_lab.Reports.Trajectories.Counting.{
  Checked, other-Checked, repeated-Checked, first-Checked, none-Checked,
}

-- All rows are of one execution: the databases are reset between executions.
abbrev pub OneExecution : ℕ → List EventRow → Type 0
OneExecution x [] = Unit
OneExecution x (e ∷ es) = (e.execution_id ≡ x) × OneExecution x es

-- A row that repeats a message has one.
pub repeated_message :
    (id seq : ℕ) (e : EventRow) (rows : List EventRow)
    → repeats id e rows ≡ some seq
    → (m : ℕ) × (e.message_id ≡ some m) × (first_seq id m rows ≡ some seq)
unfolding repeats
repeated_message id seq e rows h = go e.message_id refl h
  where
    go :
        (k : Option ℕ)
        → e.message_id ≡ k
        → elim k [ none ↦ none | some m ↦ first_seq id m rows ] ≡ some seq
        → (m : ℕ) × (e.message_id ≡ some m) × (first_seq id m rows ≡ some seq)
    go none same h = ground arith
    go (some m) same h = (m, same, h)

own-Checked :
    (id : ℕ) (e : EventRow) (rows : List EventRow) (xs : List TaskEventRecord)
    → e.task_id ≡ id
    → Fits e (last_seq id rows) (repeats id e rows)
    → Checked id rows xs
    → Checked id (e ∷ rows) (xs ++ (task_event_record e ∷ []))
own-Checked id e rows xs own fits c = go (repeats id e rows) refl fits
  where
    go :
        (r : Option ℕ)
        → repeats id e rows ≡ r
        → Fits e (last_seq id rows) r
        → Checked id (e ∷ rows) (xs ++ (task_event_record e ∷ []))
    go none same fits = first-Checked id e rows xs own same fits c
    go (some seq) same fits =
        let (m, message, first) = repeated_message id seq e rows same in
        repeated-Checked id e rows xs m seq own message first fits.0 c

pub rows_of-cons :
    (x : ℕ) (e : EventRow) (rows : List EventRow)
    → e.execution_id ≡ x
    → rows_of x (e ∷ rows) ≡ rows_of x rows ++ (task_event_record e ∷ [])
unfolding rows_of
rows_of-cons x e rows same = ground arith

pub of_task-own :
    (id : ℕ) (e : EventRow)
    → e.task_id ≡ id
    → of_task id (task_event_record e ∷ []) ≡ task_event_record e ∷ []
unfolding of_task
of_task-own id e own = ground arith

pub of_task-other :
    (id : ℕ) (e : EventRow) → e.task_id ≢ id → of_task id (task_event_record e ∷ []) ≡ []
unfolding of_task
of_task-other id e other = ground arith

-- Rows that are numbered pass the checker.
Numbered-Checked :
    (id x : ℕ) (rows : List EventRow)
    → Numbered id rows
    → OneExecution x rows
    → Checked id rows (of_task id (rows_of x rows))
unfolding Numbered
Numbered-Checked id x [] numbered one = unfold of_task rows_of in none-Checked id
Numbered-Checked id x (e ∷ rows) numbered one =
    let c = Numbered-Checked id x rows numbered.1 one.1 in
    let xs = of_task id (rows_of x rows) in
    elim (ℕ_discrete e.task_id id) [
      | yes own ↦
          rw
            (
              rows_of-cons x e rows one.0,
              of_task-append id (rows_of x rows) (task_event_record e ∷ []),
              of_task-own id e own,
            )
            (own-Checked id e rows xs own (numbered.0 own) c)
      | no other ↦
          rw
            (
              rows_of-cons x e rows one.0,
              of_task-append id (rows_of x rows) (task_event_record e ∷ []),
              of_task-other id e other,
              append-nil xs,
            )
            (other-Checked id e rows xs other c)
    ]

pass_task :
    (id : ℕ) (rows : List EventRow) (xs : List TaskEventRecord)
    → Checked id rows xs
    → check_task id xs ≡ []
unfolding check_task
pass_task id rows xs c = rw (c.start, c.errors) refl

foreign_errors-none : (x : ℕ) (es : List TaskEventRecord) → AllOf x es → foreign_errors x es ≡ []
unfolding AllOf foreign_errors
foreign_errors-none x [] h = refl
foreign_errors-none x (e ∷ es) h = ground (arith, foreign_errors-none x es h.1)

check_tasks-none :
    (ids : List ℕ) (es : List TaskEventRecord)
    → ((id : ℕ) → check_task id (of_task id es) ≡ [])
    → check_tasks ids es ≡ []
unfolding check_tasks
check_tasks-none [] es h = refl
check_tasks-none (id ∷ ids) es h = rw (h id, check_tasks-none ids es h) refl

-- The trajectories of a database in which every task has its rows numbered, and all rows are of one
-- execution, are exported and checked without an error.
pub export-passes :
    (x : ℕ) (db : OrdersDb)
    → ((id : ℕ) → Traced id db)
    → OneExecution x db.task_events
    → check_trajectories x (export_task_events x db.task_events) ≡ []
unfolding check_trajectories export_task_events
export-passes x db traced one =
    rw
      (
        foreign_errors-none x (export_task_events x db.task_events) (export-AllOf x db.task_events),
        check_tasks-none (tasks_of [] (export_task_events x db.task_events))
            (export_task_events x db.task_events) (λ id. pass id),
      )
      refl
  where
    pass : (id : ℕ) → check_task id (of_task id (export_task_events x db.task_events)) ≡ []
    pass id = rw (of_task-order id (rows_of x db.task_events)) (
        pass_task id db.task_events (of_task id (rows_of x db.task_events))
          (Numbered-Checked id x db.task_events (traced id).0 one))

-- ===== src/Reports/Trajectories/Keys.antt =====
-- Which tasks have a key in the dictionary that `check_trajectories` returns.
use rule2llm_orch_lab.Prelude.{
  ℕ, ◌≡◌, ◌++◌, ◌∙◌, refl, arith, Bool, true, false, Option, none, some, List, [], ◌∷◌, map, ◌<◌,
  ℕ_discrete,
}
use rule2llm_orch_lab.Orders.Db.{EventRow}
use rule2llm_orch_lab.Orders.Numbering.{last_seq, first_seq, repeats, Fits, Numbered}
use rule2llm_orch_lab.Reports.Artifacts.{
  TaskEventRecord, task_event_record, rows_of, of_task, of_task-append,
}
use rule2llm_orch_lab.Reports.Trajectories.{pairs_of, seq_and_type}
use rule2llm_orch_lab.Reports.Trajectories.Passing.{
  OneExecution, rows_of-cons, of_task-own, of_task-other, repeated_message,
}

abbrev pub has_records : List TaskEventRecord → Bool
has_records [] = false
has_records (e ∷ es) = true

has_records-last :
    (xs : List TaskEventRecord) (e : TaskEventRecord) → has_records (xs ++ (e ∷ [])) ≡ true
has_records-last [] e = refl
has_records-last (x ∷ xs) e = refl

has_records-more :
    (xs ys : List TaskEventRecord) → has_records xs ≡ true → has_records (xs ++ ys) ≡ true
has_records-more [] ys h = ground arith
has_records-more (x ∷ xs) ys h = refl

-- A task with a number has a record.
pub rows-has_records :
    (id x : ℕ) (rows : List EventRow)
    → OneExecution x rows
    → 0 < last_seq id rows
    → has_records (of_task id (rows_of x rows)) ≡ true
unfolding last_seq
rows-has_records id x [] one h = ground arith
rows-has_records id x (e ∷ rows) one h = rw (rows_of-cons x e rows one.0) (
    rw (of_task-append id (rows_of x rows) (task_event_record e ∷ []))
      (elim (ℕ_discrete e.task_id id) [
        | yes own ↦
            rw (of_task-own id e own)
              (has_records-last (of_task id (rows_of x rows)) (task_event_record e))
        | no other ↦
            has_records-more (of_task id (rows_of x rows)) (of_task id (task_event_record e ∷ []))
              (rows-has_records id x rows one.1 (ground (arith, h, other)))
      ]))

-- A row of a task gives it a number.
own_numbered :
    (id : ℕ) (e : EventRow) (rows : List EventRow)
    → e.task_id ≡ id
    → Fits e (last_seq id rows) (repeats id e rows)
    → last_seq id (e ∷ rows) ≡ 0
    → (last_seq id rows ≡ 0 → (m : ℕ) → first_seq id m rows ≡ none)
    → ⊥
unfolding last_seq repeats
own_numbered id e rows own fits zero_ older = go (repeats id e rows) refl fits
  where
    go : (r : Option ℕ) → repeats id e rows ≡ r → Fits e (last_seq id rows) r → ⊥
    go none same fits = ground (arith, own, zero_)
    go (some seq) same fits =
        let (m, message, seen) = repeated_message id seq e rows same in
        let none_seen = older (ground (arith, own, zero_, same)) m in cc

-- A task without a number has no record, and none of its messages was seen.
pub Numbered-none :
    (id x : ℕ) (rows : List EventRow)
    → OneExecution x rows
    → Numbered id rows
    → last_seq id rows ≡ 0
    → (of_task id (rows_of x rows) ≡ []) × ((m : ℕ) → first_seq id m rows ≡ none)
unfolding Numbered last_seq first_seq of_task rows_of
Numbered-none id x [] one n zero_ = (refl, λ m. refl)
Numbered-none id x (e ∷ rows) one n zero_ =
    let older = Numbered-none id x rows one.1 n.1 in
    elim (ℕ_discrete e.task_id id) [
      | yes own ↦ absurd (own_numbered id e rows own (n.0 own) zero_ (λ z. (older z).1))
      | no other ↦
          let (no_records, unseen) = older (ground (arith, zero_, other)) in
          (
            rw (rows_of-cons x e rows one.0) (
                of_task-append id (rows_of x rows) (task_event_record e ∷ [])
                ∙ rw (no_records, of_task-other id e other) refl),
            λ m. ground (arith, unseen m, other),
          )
    ]

pub pairs_of-records :
    (xs : List TaskEventRecord) → has_records xs ≡ true → pairs_of xs ≡ some (map seq_and_type xs)
pairs_of-records [] h = ground arith
pairs_of-records (x ∷ xs) h = refl

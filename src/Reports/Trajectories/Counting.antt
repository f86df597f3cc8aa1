-- ===== src/Reports/Trajectories/Counting.antt =====
-- One more record of a task, under `check_trajectories`.
use rule2llm_orch_lab.Prelude.{
  ℕ, ◌+◌, ◌≡◌, ◌≢◌, ◌++◌, ◌∙◌, refl, arith, Option, none, some, List, [], ◌∷◌,
}
use rule2llm_orch_lab.Prelude.Table.{get, get-insert_self, get-insert_ne}
use rule2llm_orch_lab.Contract.Vocabulary.{EventType}
use rule2llm_orch_lab.Orders.Db.{EventRow}
use rule2llm_orch_lab.Orders.Numbering.{first_seq, repeats, last_seq, Fits}
use rule2llm_orch_lab.Reports.Artifacts.{TaskEventRecord, task_event_record}
use rule2llm_orch_lab.Reports.Trajectories.{
  first_of, note_first, Progress, progress, check_event, check_events, check_first, start_errors,
}

check_events-append :
    (id : ℕ) (xs : List TaskEventRecord) (e : TaskEventRecord) (p : Progress)
    → check_events id (xs ++ (e ∷ [])) p ≡ check_event id e (check_events id xs p)
unfolding check_events
check_events-append id [] e p = refl
check_events-append id (x ∷ xs) e p = check_events-append id xs e (check_event id x p)

-- How far the checker is after the rows of a task that are numbered
pub record Checked (id : ℕ) (rows : List EventRow) (xs : List TaskEventRecord) : Type 0 where
  pub errors : (check_events id xs progress).errors ≡ []
  pub expected : (check_events id xs progress).expected_seq ≡ last_seq id rows + 1
  pub firsts :
      (m : ℕ) → get m (check_events id xs progress).first_seq_by_message ≡ first_seq id m rows
  pub start : start_errors id xs ≡ []

module _ (id : ℕ) (e : EventRow) (rows : List EventRow) (xs : List TaskEventRecord) where
  pub other-Checked : e.task_id ≢ id → Checked id rows xs → Checked id (e ∷ rows) xs
  unfolding first_seq last_seq
  other-Checked other c = record {
    errors = c.errors;
    expected = ground (arith, c.expected);
    firsts = λ m. ground (arith, c.firsts m);
    start = c.start;
  }

  abbrev seen : List TaskEventRecord
  seen = xs ++ (task_event_record e ∷ [])

  abbrev before : Progress
  before = check_events id xs progress

  -- What one more record adds
  seen-Checked :
      (check_event id (task_event_record e) before).errors ≡ []
      → (check_event id (task_event_record e) before).expected_seq ≡ last_seq id (e ∷ rows) + 1
      → ((m : ℕ)
          → get m (check_event id (task_event_record e) before).first_seq_by_message
            ≡ first_seq id m (e ∷ rows))
      → start_errors id seen ≡ []
      → Checked id (e ∷ rows) seen
  seen-Checked errors expected firsts start =
      let more = check_events-append id xs (task_event_record e) progress in
      record {
        errors = rw more errors;
        expected = rw more expected;
        firsts = λ m. rw more (firsts m);
        start = start;
      }

  repeated_event :
      (m seq : ℕ) (p : Progress)
      → e.message_id ≡ some m
      → get m p.first_seq_by_message ≡ some seq
      → e.event_seq ≡ seq
      → check_event id (task_event_record e) p ≡ p
  unfolding check_event
  repeated_event m seq p message first same = ground arith

  first_event :
      (p : Progress)
      → first_of e.message_id p.first_seq_by_message ≡ none
      → check_event id (task_event_record e) p ≡ check_first id (task_event_record e) p
  unfolding check_event
  first_event p first = rw (check_event, first) refl

  start-seen :
      start_errors id xs ≡ []
      → (xs ≡ [] → e.event_type ≡ EventType.task_created)
      → start_errors id seen ≡ []
  unfolding start_errors
  start-seen h opens = go xs h opens
    where
      go :
          (ys : List TaskEventRecord)
          → start_errors id ys ≡ []
          → (ys ≡ [] → e.event_type ≡ EventType.task_created)
          → start_errors id (ys ++ (task_event_record e ∷ [])) ≡ []
      go [] h opens = rw (opens refl) refl
      go (y ∷ ys) h opens = h

  -- The checker has counted nothing where there is nothing.
  nothing_before : Checked id rows xs → xs ≡ [] → last_seq id rows ≡ 0
  unfolding check_events
  nothing_before c none_yet =
      let one : (check_events id xs progress).expected_seq ≡ 1 = rw none_yet refl in
      omega (arith, one, c.expected)

  no_message_before : (m seq : ℕ) → Checked id rows xs → first_seq id m rows ≡ some seq → xs ≢ []
  unfolding check_events get
  no_message_before m seq c first none_yet =
      let empty : get m before.first_seq_by_message ≡ none = rw none_yet refl in
      grind (arith, c.firsts m)

  pub repeated-Checked :
      (m seq : ℕ)
      → e.task_id ≡ id
      → e.message_id ≡ some m
      → first_seq id m rows ≡ some seq
      → e.event_seq ≡ seq
      → Checked id rows xs
      → Checked id (e ∷ rows) seen
  unfolding first_seq last_seq
  repeated-Checked m seq own message first same c =
      let still = repeated_event m seq before message (c.firsts m ∙ first) same in
      seen-Checked (rw still c.errors) (rw still (ground (arith, c.expected)))
        (λ k. rw still (ground (arith, c.firsts k)))
        (start-seen c.start (λ none_yet. absurd (no_message_before m seq c first none_yet)))

  -- A message that repeats none is not known to the checker yet.
  first_of_before :
      Checked id rows xs
      → repeats id e rows ≡ none
      → first_of e.message_id before.first_seq_by_message ≡ none
  unfolding repeats
  first_of_before c first = go e.message_id first
    where
      go :
          (m : Option ℕ)
          → elim m [ none ↦ none | some k ↦ first_seq id k rows ] ≡ none
          → first_of m before.first_seq_by_message ≡ none
      go none h = refl
      go (some k) h = c.firsts k ∙ h

  note_first-lem :
      e.task_id ≡ id
      → Checked id rows xs
      → repeats id e rows ≡ none
      → (k : ℕ)
      → get k (note_first e.message_id e.event_seq before.first_seq_by_message)
        ≡ first_seq id k (e ∷ rows)
  unfolding first_seq repeats
  note_first-lem own c first k = grind (arith, c.firsts, get-insert_self, get-insert_ne)

  pub first-Checked :
      e.task_id ≡ id
      → repeats id e rows ≡ none
      → Fits e (last_seq id rows) none
      → Checked id rows xs
      → Checked id (e ∷ rows) seen
  unfolding last_seq check_first
  first-Checked own first fits c =
      let fresh = first_event before (first_of_before c first) in
      seen-Checked (rw fresh (ground (arith, c.errors, c.expected))) (rw fresh (ground arith))
        (λ k. rw fresh (note_first-lem own c first k))
        (start-seen c.start (λ none_yet. fits.1 (nothing_before c none_yet)))

pub none-Checked : (id : ℕ) → Checked id [] []
none-Checked id =
    unfold first_seq last_seq check_events start_errors get in
    record { errors = refl; expected = refl; firsts = λ m. refl; start = refl }

-- ===== src/Reports/Trajectories/Findings.antt =====
-- What a trajectory is that check_traceability.py finds no error in.
use mathlib.Core.Path.{subst}
use rule2llm_orch_lab.Prelude.{
  ℕ, ◌+◌, ◌≡◌, ◌≢◌, ◌++◌, ◌∙◌, refl, sym, arith, Bool, true, false, Option, none, some, List, [],
  ◌∷◌, ◌==◌, if◌then◌else◌, any, is_some, Bool-cases, inl, inr,
}
use rule2llm_orch_lab.Prelude.Table.{get, get-insert_self, get-insert_ne}
use rule2llm_orch_lab.Contract.Vocabulary.{EventType}
use rule2llm_orch_lab.Reports.Artifacts.{TaskEventRecord}
use rule2llm_orch_lab.Reports.Trajectories.{
  Progress, progress, check_event, check_events, check_first, start_errors, check_task, first_of,
  TraceError,
}

-- The number of the oldest record of message `m`
unfoldable pub first_in : ℕ → List TaskEventRecord → Option ℕ
first_in m [] = none
first_in m (e ∷ es) =
    let rest = first_in m es in
    elim e.message_id [ none ↦ rest | some k ↦ if k == m then some e.event_seq else rest ]

abbrev add_message : Option ℕ → List ℕ → List ℕ
add_message none seen = seen
add_message (some m) seen = m ∷ seen

abbrev is_seen : Option ℕ → List ℕ → Bool
is_seen none seen = false
is_seen (some m) seen = any (λ k. k == m) seen

-- The records that repeat no message of an older one
unfoldable pub distinct : List ℕ → List TaskEventRecord → List TaskEventRecord
distinct seen [] = []
distinct seen (e ∷ es) =
    let repeated = distinct seen es in
    let fresh = e ∷ distinct (add_message e.message_id seen) es in
    if is_seen e.message_id seen then repeated else fresh

-- The numbers are n, n + 1, n + 2, …
unfoldable pub Gapless : ℕ → List TaskEventRecord → Type 0
Gapless n [] = Unit
Gapless n (e ∷ es) = (e.event_seq ≡ n) × Gapless (n + 1) es

-- Every record of a message has the number `first` gives for it.
unfoldable pub Agrees : (ℕ → Option ℕ) → List TaskEventRecord → Type 0
Agrees first [] = Unit
Agrees first (e ∷ es) =
    ((m : ℕ) → e.message_id ≡ some m → first m ≡ some e.event_seq) × Agrees first es

append-not_nil : (xs : List TraceError) (x : TraceError) → xs ++ (x ∷ []) ≢ []
append-not_nil [] x h = cc
append-not_nil (y ∷ ys) x h = cc

-- An error stays an error.
check_event-quiet :
    (id : ℕ) (e : TaskEventRecord) (p : Progress) → (check_event id e p).errors ≡ [] → p.errors ≡ []
unfolding check_event
check_event-quiet id e p h = grind (arith, append-not_nil)

check_events-quiet :
    (id : ℕ) (es : List TaskEventRecord) (p : Progress)
    → (check_events id es p).errors ≡ []
    → p.errors ≡ []
unfolding check_events
check_events-quiet id [] p h = h
check_events-quiet id (e ∷ es) p h =
    check_event-quiet id e p (check_events-quiet id es (check_event id e p) h)

Agrees-ext :
    (f g : ℕ → Option ℕ) (es : List TaskEventRecord)
    → ((m : ℕ) → f m ≡ g m)
    → Agrees f es
    → Agrees g es
unfolding Agrees
Agrees-ext f g [] same h = tt
Agrees-ext f g (e ∷ es) same h = (λ m has. sym (same m) ∙ h.0 m has, Agrees-ext f g es same h.1)

abbrev or_first : Option ℕ → Option ℕ → Option ℕ
or_first none later = later
or_first (some seq) later = some seq

-- The messages that the checker knows are those that were seen.
abbrev Knows : List ℕ → Progress → Type 0
Knows seen p = (m : ℕ) → is_some (get m p.first_seq_by_message) ≡ any (λ k. k == m) seen

abbrev number_of : Progress → List TaskEventRecord → ℕ → Option ℕ
number_of p es m = or_first (get m p.first_seq_by_message) (first_in m es)

module _ (id : ℕ) (e : TaskEventRecord) (p : Progress) (seen : List ℕ) (knows : Knows seen p) where
  repeated_known :
      (m : ℕ)
      → e.message_id ≡ some m
      → any (λ k. k == m) seen ≡ true
      → (seq : ℕ) × (get m p.first_seq_by_message ≡ some seq)
  repeated_known m message old = go (get m p.first_seq_by_message) (knows m ∙ old)
    where
      go : (o : Option ℕ) → is_some o ≡ true → (seq : ℕ) × (o ≡ some seq)
      go none h = ground arith
      go (some seq) h = (seq, refl)

  repeated_same :
      (m seq : ℕ)
      → e.message_id ≡ some m
      → get m p.first_seq_by_message ≡ some seq
      → (check_event id e p).errors ≡ []
      → (check_event id e p ≡ p) × (e.event_seq ≡ seq)
  unfolding check_event
  repeated_same m seq message old quiet = grind (arith, append-not_nil)

  fresh_none :
      is_seen e.message_id seen ≡ false → first_of e.message_id p.first_seq_by_message ≡ none
  fresh_none new = go e.message_id new
    where
      go : (k : Option ℕ) → is_seen k seen ≡ false → first_of k p.first_seq_by_message ≡ none
      go none h = refl
      go (some m) h = none_of (get m p.first_seq_by_message) (knows m ∙ h)
        where
          none_of : (o : Option ℕ) → is_some o ≡ false → o ≡ none
          none_of none h = refl
          none_of (some x) h = ground arith

  fresh_step :
      first_of e.message_id p.first_seq_by_message ≡ none
      → (check_event id e p).errors ≡ []
      → (check_event id e p ≡ check_first id e p) × (e.event_seq ≡ p.expected_seq)
  unfolding check_event check_first
  fresh_step new quiet = grind (arith, append-not_nil)

  -- A new message is known afterwards.
  fresh-Knows :
      is_seen e.message_id seen ≡ false → Knows (add_message e.message_id seen) (check_first id e p)
  unfolding check_first
  fresh-Knows new m = grind (arith, knows, get-insert_self, get-insert_ne)

  fresh_number :
      is_seen e.message_id seen ≡ false
      → (es : List TaskEventRecord) (m : ℕ)
      → number_of (check_first id e p) es m ≡ number_of p (e ∷ es) m
  unfolding first_in check_first
  fresh_number new es m = grind (arith, knows, get-insert_self, get-insert_ne)

  -- A repeated message: its record changes nothing.
  repeated_record :
      is_seen e.message_id seen ≡ true
      → (check_event id e p).errors ≡ []
      → (check_event id e p ≡ p)
        × ((es : List TaskEventRecord) (m : ℕ) → number_of p es m ≡ number_of p (e ∷ es) m)
        × ((es : List TaskEventRecord) (m : ℕ)
            → e.message_id ≡ some m
            → number_of p (e ∷ es) m ≡ some e.event_seq)
  unfolding first_in
  repeated_record old quiet = go e.message_id refl old
    where
      go :
          (k : Option ℕ)
          → e.message_id ≡ k
          → is_seen k seen ≡ true
          → (check_event id e p ≡ p)
            × ((es : List TaskEventRecord) (m : ℕ) → number_of p es m ≡ number_of p (e ∷ es) m)
            × ((es : List TaskEventRecord) (m : ℕ)
                → e.message_id ≡ some m
                → number_of p (e ∷ es) m ≡ some e.event_seq)
      go none message h = ground arith
      go (some k) message h =
          let (seq, has) = repeated_known k message h in
          let (same, number) = repeated_same k seq message has quiet in
          (same, λ es m. grind arith, λ es m mine. grind arith)

  fresh_own :
      is_seen e.message_id seen ≡ false
      → (es : List TaskEventRecord) (m : ℕ) → e.message_id ≡ some m
      → number_of p (e ∷ es) m ≡ some e.event_seq
  unfolding first_in
  fresh_own new es m mine = grind (arith, knows)

-- What was counted without an error
record Sound (p : Progress) (seen : List ℕ) (es : List TaskEventRecord) : Type 0 where
  pub gapless : Gapless p.expected_seq (distinct seen es)
  pub agrees : Agrees (number_of p es) es

check_events-same :
    (id : ℕ) (es : List TaskEventRecord) (p q : Progress)
    → p ≡ q
    → (check_events id es p).errors ≡ []
    → (check_events id es q).errors ≡ []
check_events-same id es p q same = subst (λ p. (check_events id es p).errors ≡ []) same

check_events-Sound :
    (id : ℕ) (es : List TaskEventRecord) (p : Progress) (seen : List ℕ)
    → Knows seen p
    → (check_events id es p).errors ≡ []
    → Sound p seen es
unfolding check_events distinct Gapless Agrees check_first
check_events-Sound id [] p seen knows quiet = record { gapless = tt; agrees = tt }
check_events-Sound id (e ∷ es) p seen knows quiet =
    let after : (check_events id es (check_event id e p)).errors ≡ [] = quiet in
    let now = check_events-quiet id es (check_event id e p) after in
    elim (Bool-cases (is_seen e.message_id seen)) [
      | inl old ↦
          let (same, number, mine) = repeated_record id e p seen knows old now in
          let rest =
            check_events-Sound id es p seen knows
              (check_events-same id es (check_event id e p) p same after) in
          record {
            gapless = rw old rest.gapless;
            agrees = (
              mine es,
              Agrees-ext (number_of p es) (number_of p (e ∷ es)) es (number es) rest.agrees,
            );
          }
      | inr new ↦
          let (same, number) =
            fresh_step id e p seen knows (fresh_none id e p seen knows new) now in
          let rest =
            check_events-Sound id es (check_first id e p) (add_message e.message_id seen)
              (fresh-Knows id e p seen knows new)
              (check_events-same id es (check_event id e p) (check_first id e p) same after) in
          record {
            gapless = rw new (
              number,
              subst (λ n. Gapless (n + 1) (distinct (add_message e.message_id seen) es)) number
                  rest.gapless,
            );
            agrees = (
              fresh_own id e p seen knows new es,
              Agrees-ext (number_of (check_first id e p) es) (number_of p (e ∷ es)) es
                  (fresh_number id e p seen knows new es) rest.agrees,
            );
          }
    ]

-- The first record is that of the creation.
abbrev pub Opens : List TaskEventRecord → Type 0
Opens [] = Unit
Opens (e ∷ es) = e.event_type ≡ EventType.task_created

start_errors-Opens : (id : ℕ) (es : List TaskEventRecord) → start_errors id es ≡ [] → Opens es
unfolding start_errors
start_errors-Opens id [] h = tt
start_errors-Opens id (e ∷ es) h = ground arith

append_nil_inv : (xs ys : List TraceError) → xs ++ ys ≡ [] → (xs ≡ []) × (ys ≡ [])
append_nil_inv [] ys h = (refl, h)
append_nil_inv (x ∷ xs) ys h = absurd (cons_not_nil h)
  where
    cons_not_nil : x ∷ (xs ++ ys) ≢ []
    cons_not_nil h = cc

-- Where the check of a task finds no error, the records of the task start with its creation, those
-- that repeat no message are numbered 1, 2, 3, … without a gap, and every record of a message has the
-- number of the oldest one.
pub check_task-Gapless :
    (id : ℕ) (es : List TaskEventRecord)
    → check_task id es ≡ []
    → Opens es × Gapless 1 (distinct [] es) × Agrees (λ m. first_in m es) es
unfolding check_task
check_task-Gapless id es h =
    let (start, quiet) =
      append_nil_inv (start_errors id es) (check_events id es progress).errors h in
    let s = check_events-Sound id es progress [] (λ m. unfold get in refl) quiet in
    (start_errors-Opens id es start, s.gapless, unfold get in s.agrees)

-- ===== src/Reports/Records/Recorded.antt =====
-- The states that the orders-service records (StateRecorder of
-- services/orders/app/observability/recorders.py), under `check_states`.
use mathlib.Core.List.{reverse_aux, append-nil}
use mathlib.Core.Path.{subst}
use rule2llm_orch_lab.Prelude.{
  ℕ, zero, suc, ◌≡◌, ◌++◌, ◌∙◌, refl, sym, ap, arith, Bool, true, false, Option, none, some, List,
  [], ◌∷◌, ◌==◌, not, ◌&&◌, ◌||◌, if◌then◌else◌, any, map, ok, err, contract_error, unknown_task,
  ltb, ◌<◌, ◌≢◌,
}
use rule2llm_orch_lab.Prelude.Table.{get}
use rule2llm_orch_lab.Contract.Vocabulary.{EventType}
use rule2llm_orch_lab.Contract.Config.{MessagingConfig}
use rule2llm_orch_lab.Contract.SystemState.{SystemState, RecentEvent, make_state}
use rule2llm_orch_lab.Orders.Db.{OrdersDb, EventRow, TaskRow}
use rule2llm_orch_lab.Orders.Numbering.{last_seq, Traced, seq_of}
use rule2llm_orch_lab.Orders.StateBuilder.{
  Observation, build, snapshot, recent_events, recent_event, newest, is_first,
}
use rule2llm_orch_lab.Reports.Artifacts.{
  TaskEventRecord, task_event_record, rows_of, order_by_task, export_task_events, of_task,
  of_task-append, of_task-order,
}
use rule2llm_orch_lab.Reports.Trajectories.{trajectory, pairs_of, seq_and_type}
use rule2llm_orch_lab.Reports.Trajectories.Passing.{OneExecution, rows_of-cons, of_task-own}
use rule2llm_orch_lab.Reports.Trajectories.Keys.{rows-has_records, Numbered-none, pairs_of-records}
use rule2llm_orch_lab.Reports.Records.{
  no_task, StateLine, States, is_in, is_seq_and_type, misses, same_events, check_state,
}

-- `StateRecorder.record`; the snapshot is the value that is read back.
abbrev pub state_line : SystemState → StateLine
state_line s = record {
  system_state = some s;
  state_id = some s.state_id;
  task_id = some s.task_id;
  recent_events = some s.recent_events;
}

same_events_refl : (es : List RecentEvent) → same_events es es ≡ true
unfolding same_events
same_events_refl [] = refl
same_events_refl (e ∷ es) = ground (arith, same_events_refl es)

any-append {ℓ} :
    {A : Type ℓ} (p : A → Bool) (xs ys : List A) → any p (xs ++ ys) ≡ any p xs || any p ys
any-append p [] ys = refl
any-append p (x ∷ xs) ys = ground (arith, any-append p xs ys)

map-append {ℓ κ} :
    {A : Type ℓ} {B : Type κ} (f : A → B) (xs ys : List A) → map f (xs ++ ys) ≡ map f xs ++ map f ys
map-append f [] ys = refl
map-append f (x ∷ xs) ys = ap (λ zs. f x ∷ zs) (map-append f xs ys)

-- The order does not matter.
none_of-reverse_aux {ℓ} :
    {A : Type ℓ} (p : A → Bool) (xs ys : List A)
    → any p xs ≡ false
    → any p ys ≡ false
    → any p (reverse_aux xs ys) ≡ false
none_of-reverse_aux p [] ys h k = k
none_of-reverse_aux p (x ∷ xs) ys h k =
    none_of-reverse_aux p xs (x ∷ ys) (ground arith) (ground arith)

abbrev Pairs : Type 0
Pairs = List (ℕ × EventType)

-- Every row of a task is in its trajectory.
abbrev Found : Pairs → ℕ → List EventRow → Type 0
Found t id [] = Unit
Found t id (e ∷ es) = (e.task_id ≡ id → is_in t (recent_event e) ≡ true) × Found t id es

is_in-append : (t u : Pairs) (e : RecentEvent) → is_in t e ≡ true → is_in (t ++ u) e ≡ true
is_in-append t u e h =
    any-append (is_seq_and_type e) t u ∙ ap (λ b. b || any (is_seq_and_type e) u) h

Found-append : (t u : Pairs) (id : ℕ) (es : List EventRow) → Found t id es → Found (t ++ u) id es
Found-append t u id [] h = tt
Found-append t u id (e ∷ es) h =
    (λ own. is_in-append t u (recent_event e) (h.0 own), Found-append t u id es h.1)

is_in-last : (t u : Pairs) (e : RecentEvent) → is_in u e ≡ true → is_in (t ++ u) e ≡ true
is_in-last t u e h = let split = any-append (is_seq_and_type e) t u in ground arith

own_found :
    (r : TaskEventRecord)
    → is_in (seq_and_type r ∷ []) (record {
      event_type = r.event_type;
      attempt_number = r.attempt_number;
      event_seq = r.event_seq;
    })
      ≡ true
own_found r = ground arith

-- Rows of one execution are all found among the exported ones.
rows-Found :
    (id x : ℕ) (rows : List EventRow)
    → OneExecution x rows
    → Found (map seq_and_type (of_task id (rows_of x rows))) id rows
rows-Found id x [] one = tt
rows-Found id x (e ∷ rows) one =
    let older = of_task id (rows_of x rows) in
    let last = of_task id (task_event_record e ∷ []) in
    let same : map seq_and_type (of_task id (rows_of x (e ∷ rows)))
        ≡ map seq_and_type older ++ map seq_and_type last =
      ap (λ xs. map seq_and_type (of_task id xs)) (rows_of-cons x e rows one.0)
      ∙ ap (map seq_and_type) (of_task-append id (rows_of x rows) (task_event_record e ∷ []))
      ∙ map-append seq_and_type older last in
    subst (λ t. Found t id (e ∷ rows)) (sym same)
      (
        last_found,
        Found-append (map seq_and_type older) (map seq_and_type last) id rows
            (rows-Found id x rows one.1),
      )
  where
    last_found :
        e.task_id ≡ id
        → is_in
            (map seq_and_type (of_task id (rows_of x rows))
              ++ map seq_and_type (of_task id (task_event_record e ∷ [])))
            (recent_event e)
          ≡ true
    last_found own =
        is_in-last (map seq_and_type (of_task id (rows_of x rows)))
          (map seq_and_type (of_task id (task_event_record e ∷ []))) (recent_event e)
          (rw (of_task-own id e own) (own_found (task_event_record e)))

-- What is taken from the rows of a task is found.
newest-Found :
    (t : Pairs) (id n : ℕ) (q : EventRow → Bool) (rows : List EventRow)
    → Found t id rows
    → misses t (map recent_event (newest n (λ e. e.task_id == id && q e) rows)) ≡ false
unfolding newest
newest-Found t id zero q rows h = refl
newest-Found t id (suc n) q [] h = refl
newest-Found t id (suc n) q (e ∷ rows) h =
    let rest = newest-Found t id n q rows h.1 in
    let more = newest-Found t id (suc n) q rows h.1 in ground arith

-- The window that is read from the rows of one execution is in the trajectory that is exported.
window_found :
    (id x limit : ℕ) (rows : List EventRow)
    → OneExecution x rows
    → 0 < last_seq id rows
    → (t : Pairs) × (trajectory id (export_task_events x rows) ≡ some t)
      × (misses t (recent_events id limit rows) ≡ false)
unfolding trajectory export_task_events recent_events
window_found id x limit rows one numbered = (
  map seq_and_type (of_task id (rows_of x rows)),
  ap pairs_of (of_task-order id (rows_of x rows))
      ∙ pairs_of-records (of_task id (rows_of x rows)) (rows-has_records id x rows one numbered),
  none_of-reverse_aux (λ e. not (is_in (map seq_and_type (of_task id (rows_of x rows))) e))
      (map recent_event (newest limit (λ e. e.task_id == id && is_first rows e) rows)) []
      (newest-Found (map seq_and_type (of_task id (rows_of x rows))) id limit (is_first rows) rows
        (rows-Found id x rows one))
      refl,
)

made_same : (s t : SystemState) → make_state s ≡ ok t → s ≡ t
unfolding make_state
made_same s t h = ground arith

-- A state that was built is the snapshot of its row.
built_snapshot :
    (c : MessagingConfig) (limit : ℕ) (o : Observation) (db : OrdersDb) (id : ℕ) (s : SystemState)
    → build c limit o db id ≡ ok s
    → (row : TaskRow) × (get id db.tasks ≡ some row)
      × (snapshot c limit o db.task_events id row ≡ s)
unfolding build
built_snapshot c limit o db id s h = go (get id db.tasks) refl h
  where
    made :
        (row : TaskRow) (late : Bool)
        → (if late
            then err contract_error
            else make_state (snapshot c limit o db.task_events id row))
          ≡ ok s
        → snapshot c limit o db.task_events id row ≡ s
    made row true h = ground arith
    made row false h = made_same (snapshot c limit o db.task_events id row) s h

    go :
        (t : Option TaskRow)
        → get id db.tasks ≡ t
        → elim t [
          | none ↦ err unknown_task
          | some row ↦
              if ltb o.now row.created_at
              then err contract_error
              else make_state (snapshot c limit o db.task_events id row)
        ]
          ≡ ok s
        → (row : TaskRow) × (get id db.tasks ≡ some row)
          × (snapshot c limit o db.task_events id row ≡ s)
    go none same h = ground arith
    go (some row) same h = (row, same, made row (ltb o.now row.created_at) h)

built_window :
    (c : MessagingConfig) (limit : ℕ) (o : Observation) (db : OrdersDb) (id : ℕ) (s : SystemState)
    → build c limit o db id ≡ ok s
    → (row : TaskRow) × (get id db.tasks ≡ some row)
      × (s.task_id ≡ id)
      × (s.recent_events ≡ recent_events id limit db.task_events)
unfolding snapshot
built_window c limit o db id s built =
    let (row, found, same) = built_snapshot c limit o db id s built in
    (
      row,
      found,
      sym (ap (λ (t : SystemState). t.task_id) same),
      sym (ap (λ (t : SystemState). t.recent_events) same),
    )

-- A state that is written as it is passes, if its window is in the trajectory of its task.
line_passes :
    (x : ℕ) (trajectories : ℕ → Option Pairs) (t : Pairs) (s : SystemState) (r : States)
    → trajectories s.task_id ≡ some t
    → misses t s.recent_events ≡ false
    → s.execution_id ≡ x
    → get s.state_id r.state_tasks ≡ none
    → check_state x trajectories (state_line s) (some s) r
      ≡ record r { state_tasks = (s.state_id, s.task_id) ∷ r.state_tasks }
unfolding check_state
line_passes x trajectories t s r keyed passed own new =
    let again = same_events_refl s.recent_events in
    rw (keyed, new, passed, again) (ground (arith, append-nil r.errors))

abbrev noted : States → ℕ → ℕ → States
noted r state_id id = record r { state_tasks = (state_id, id) ∷ r.state_tasks }

known_row : (t : Option TaskRow) (row : TaskRow) → t ≡ some row → t ≢ none
known_row t row found missing = cc

-- A state that was built from a database whose rows are numbered passes against the trajectories that
-- are exported from it.
pub state_passes :
    (c : MessagingConfig) (limit : ℕ) (o : Observation) (db : OrdersDb) (id x : ℕ) (s : SystemState)
    (r : States)
    → Traced id db
    → build c limit o db id ≡ ok s
    → OneExecution x db.task_events
    → s.execution_id ≡ x
    → get s.state_id r.state_tasks ≡ none
    → check_state x
        (λ j. trajectory j (export_task_events x db.task_events))
        (state_line s)
        (some s)
        r
      ≡ record r { state_tasks = (s.state_id, id) ∷ r.state_tasks }
state_passes c limit o db id x s r traced built one own new =
    let (row, found, mine, window) = built_window c limit o db id s built in
    let numbered : 0 < last_seq id db.task_events =
      rw traced.1 (traced.2 (known_row (get id db.tasks) row found)) in
    let (t, keyed, complete) = window_found id x limit db.task_events one numbered in
    line_passes x (λ j. trajectory j (export_task_events x db.task_events)) t s r
      (ap (λ j. trajectory j (export_task_events x db.task_events)) mine ∙ keyed)
      (ap (misses t) window ∙ complete) own new
    ∙ ap (noted r s.state_id) mine

-- A state of the execution whose task is not in the database is reported.
pub state_reported :
    (db : OrdersDb) (x : ℕ) (s : SystemState) (r : States)
    → Traced s.task_id db
    → get s.task_id db.tasks ≡ none
    → OneExecution x db.task_events
    → s.execution_id ≡ x
    → get s.state_id r.state_tasks ≡ none
    → check_state x
        (λ j. trajectory j (export_task_events x db.task_events))
        (state_line s)
        (some s)
        r
      ≡ record {
        errors = r.errors ++ (no_task s.state_id ∷ []);
        state_tasks = (s.state_id, s.task_id) ∷ r.state_tasks;
      }
unfolding check_state trajectory export_task_events
state_reported db x s r traced unknown one own new =
    let empty : of_task s.task_id (order_by_task (rows_of x db.task_events)) ≡ [] =
      of_task-order s.task_id (rows_of x db.task_events)
      ∙ (Numbered-none s.task_id x db.task_events one traced.0 (traced.1 ∙ ap seq_of unknown)).0 in
    rw (empty, new) (ground arith)

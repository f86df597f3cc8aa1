-- ===== src/Orders/Numbering.antt =====
-- The numbers of the rows of `task_events` (trajectory.py): each task counts its events from 1, and a
-- row that repeats a message has the number of the first row of that message.
pub mod Handlers
pub mod Events
pub mod Quiet
pub mod Executor
pub mod Known
pub mod Published
pub mod Sent
pub mod Decided
pub mod Completed
use rule2llm_orch_lab.Prelude.{
  ℕ, ◌+◌, ◌≤◌, ◌<◌, ◌≡◌, ◌≢◌, ◌⊎◌, inl, inr, Bool, true, false, Option, none, some, List, [], ◌∷◌,
  arith, not, ◌==◌, ◌&&◌, if◌then◌else◌,
}
use rule2llm_orch_lab.Prelude.Table.{get}
use rule2llm_orch_lab.Contract.Vocabulary.{EventType, Target}
use rule2llm_orch_lab.Contract.Envelope.{MessageEnvelope}
use rule2llm_orch_lab.Orders.Db.{OrdersDb, EventRow, TaskRow}
use rule2llm_orch_lab.Orders.Trajectory.{
  has_message, is_request_of, latest_request, event_seq_of_message,
}

-- The number of the oldest row of message `m` in task `id`; the rows stand newest first.
unfoldable pub first_seq : ℕ → ℕ → List EventRow → Option ℕ
first_seq id m [] = none
first_seq id m (e ∷ es) = elim (first_seq id m es) [
  | some seq ↦ some seq
  | none ↦ if e.task_id == id && has_message m e then some e.event_seq else none
]

-- The number that a row has to repeat, if it repeats a message
unfoldable pub repeats : ℕ → EventRow → List EventRow → Option ℕ
unfolding first_seq
repeats id e es = elim e.message_id [ none ↦ none | some m ↦ first_seq id m es ]

-- The number of the newest row that repeats no message
unfoldable pub last_seq : ℕ → List EventRow → ℕ
unfolding repeats
last_seq id [] = 0
last_seq id (e ∷ es) =
    let rest = last_seq id es in
    if e.task_id == id
    then elim (repeats id e es) [ none ↦ e.event_seq | some seq ↦ rest ]
    else rest

-- A row fits the older ones.
abbrev pub Fits : EventRow → ℕ → Option ℕ → Type 0
Fits e last none = (e.event_seq ≡ last + 1) × (last ≡ 0 → e.event_type ≡ EventType.task_created)
Fits e last (some seq) = (e.event_seq ≡ seq) × (e.redelivered ≡ true)

unfoldable pub Numbered : ℕ → List EventRow → Type 0
unfolding repeats last_seq
Numbered id [] = Unit
Numbered id (e ∷ es) = (e.task_id ≡ id → Fits e (last_seq id es) (repeats id e es)) × Numbered id es

abbrev pub seq_of : Option TaskRow → ℕ
seq_of none = 0
seq_of (some row) = row.current_event_seq

-- The task counts the rows that it has, and has one at least.
abbrev pub Traced : ℕ → OrdersDb → Type 0
Traced id db =
    Numbered id db.task_events
    × (last_seq id db.task_events ≡ seq_of (get id db.tasks))
    × (get id db.tasks ≢ none → 0 < seq_of (get id db.tasks))

-- A request of the task with the number and the target of a message is on record.
unfoldable pub Recorded : ℕ → ℕ → Option Target → List EventRow → Type 0
Recorded id seq target [] = ⊥
Recorded id seq target (e ∷ es) =
    ((is_request_of id e ≡ true) × (e.event_seq ≡ seq) × (e.target ≡ target))
    ⊎ Recorded id seq target es

abbrev pub IsOnRecord : MessageEnvelope → OrdersDb → Type 0
IsOnRecord m db = Recorded m.task_id m.event_seq m.target db.task_events

pub Recorded-le :
    (id seq : ℕ) (target : Option Target) (es : List EventRow)
    → Numbered id es
    → Recorded id seq target es
    → (seq ≤ last_seq id es) × (0 < seq)
unfolding Numbered Recorded
Recorded-le id seq target [] n r = absurd r
Recorded-le id seq target (e ∷ es) n (inl h) = ground arith
Recorded-le id seq target (e ∷ es) n (inr h) = ground (arith, Recorded-le id seq target es n.1 h)

-- A recorded request with the number of the latest one went to the same target.
pub Recorded-latest :
    (id seq : ℕ) (target : Option Target) (es : List EventRow) (latest : EventRow)
    → Numbered id es
    → Recorded id seq target es
    → latest_request id es ≡ some latest
    → latest.event_seq ≡ seq
    → target ≡ latest.target
unfolding Numbered Recorded latest_request
Recorded-latest id seq target [] latest n r l same = absurd r
Recorded-latest id seq target (e ∷ es) latest n (inl h) l same = ground arith
Recorded-latest id seq target (e ∷ es) latest n (inr h) l same =
    ground
      (arith, Recorded-le id seq target es n.1 h, Recorded-latest id seq target es latest n.1 h)

-- ===== src/Orders/Numbering/Known.antt =====
-- The identifiers of messages: each is drawn once (`unique_id` of shared/ids.py), for one task and
-- either for a request or for a reply.
use rule2llm_orch_lab.Prelude.{
  ℕ, ◌≡◌, refl, inl, inr, Bool, true, false, Option, none, some, List, [], ◌∷◌, arith, Keeps,
  Bool-cases, is_some,
}
use rule2llm_orch_lab.Prelude.Table.{
  Table, get, insert, get-insert_self, get-insert_old, get-insert_kept,
}
use rule2llm_orch_lab.Contract.Vocabulary.{EventType}
use rule2llm_orch_lab.Contract.Envelope.{Item, MessageEnvelope, Payload}
use rule2llm_orch_lab.Orders.Db.{OrdersDb, EventRow, ProcessedEvent}
use rule2llm_orch_lab.Orders.Trajectory.{is_inventory, record_internal_event}
use rule2llm_orch_lab.Orders.Repositories.{create_order_with_task, is_event_processed}
use rule2llm_orch_lab.Orders.EventHandler.{
  handle_inventory_event, receive, handle_new, record_new, apply_event, apply_success,
  apply_failure, record_repeated, note_completion, is_success,
}
use rule2llm_orch_lab.Orders.Internal.{register_timeout, finish_wait, handle_dead_letter}
use rule2llm_orch_lab.Orders.Numbering.{first_seq}
use rule2llm_orch_lab.Orders.Numbering.Events.{Owned}

-- What an identifier was drawn for
pub record Drawn : Type 0 where
  pub task_id : ℕ
  pub is_reply : Bool

abbrev pub KnownRow : Table Drawn → Table ProcessedEvent → EventRow → Option ℕ → Type 0
KnownRow ids processed e none = Unit
KnownRow ids processed e (some k) =
    (get k ids ≡ some (record { task_id = e.task_id; is_reply = is_inventory e.service }))
    × (is_inventory e.service ≡ true → is_some (get k processed) ≡ true)

-- Every message on record has an identifier that was drawn for it, and every reply on record is
-- processed.
unfoldable pub KnownRows : Table Drawn → Table ProcessedEvent → List EventRow → Type 0
KnownRows ids processed [] = Unit
KnownRows ids processed (e ∷ es) =
    KnownRow ids processed e e.message_id × KnownRows ids processed es

abbrev pub AreKnown : Table Drawn → OrdersDb → Type 0
AreKnown ids db = KnownRows ids db.processed_events db.task_events

-- An identifier that was not drawn yet is on no row.
pub first_seq-undrawn :
    (ids : Table Drawn) (processed : Table ProcessedEvent) (es : List EventRow) (id k : ℕ)
    → KnownRows ids processed es
    → get k ids ≡ none
    → first_seq id k es ≡ none
unfolding KnownRows first_seq
first_seq-undrawn ids processed [] id k known fresh = refl
first_seq-undrawn ids processed (e ∷ es) id k known fresh =
    ground (arith, first_seq-undrawn ids processed es id k known.1 fresh)

-- The identifier of a reply that is not processed is on no row.
pub first_seq-unprocessed :
    (ids : Table Drawn) (processed : Table ProcessedEvent) (es : List EventRow) (id k task : ℕ)
    → KnownRows ids processed es
    → get k ids ≡ some (record { task_id = task; is_reply = true })
    → get k processed ≡ none
    → first_seq id k es ≡ none
unfolding KnownRows first_seq
first_seq-unprocessed ids processed [] id k task known drawn new = refl
first_seq-unprocessed ids processed (e ∷ es) id k task known drawn new =
    ground (arith, first_seq-unprocessed ids processed es id k task known.1 drawn new)

pub Owned-drawn :
    (ids : Table Drawn) (processed : Table ProcessedEvent) (es : List EventRow) (k : ℕ) (d : Drawn)
    → KnownRows ids processed es
    → get k ids ≡ some d
    → Owned d.task_id k es
unfolding KnownRows Owned
Owned-drawn ids processed [] k d known drawn = tt
Owned-drawn ids processed (e ∷ es) k d known drawn =
    (ground arith, Owned-drawn ids processed es k d known.1 drawn)

-- Further identifiers are drawn, and further messages processed.
KnownRows-drawn :
    (ids : Table Drawn) (processed : Table ProcessedEvent) (es : List EventRow) (k : ℕ) (d : Drawn)
    → KnownRows ids processed es
    → KnownRows (insert k d ids) processed es
unfolding KnownRows
KnownRows-drawn ids processed [] k d known = tt
KnownRows-drawn ids processed (e ∷ es) k d known =
    (grind (arith, get-insert_old), KnownRows-drawn ids processed es k d known.1)

KnownRows-processed :
    (ids : Table Drawn) (processed : Table ProcessedEvent) (es : List EventRow) (k : ℕ)
    (p : ProcessedEvent)
    → KnownRows ids processed es
    → KnownRows ids (insert k p processed) es
unfolding KnownRows
KnownRows-processed ids processed [] k p known = tt
KnownRows-processed ids processed (e ∷ es) k p known =
    (grind (arith, get-insert_kept), KnownRows-processed ids processed es k p known.1)

pub AreKnown-drawn :
    (ids : Table Drawn) (k : ℕ) (d : Drawn) (db : OrdersDb)
    → AreKnown ids db
    → AreKnown (insert k d ids) db
AreKnown-drawn ids k d db known = KnownRows-drawn ids db.processed_events db.task_events k d known

-- The internal tasks and a new order record no message.
module _ (ids : Table Drawn) (id now : ℕ) where
  pub internal-Known :
      (event_type : EventType) (details : Payload)
      → Keeps (AreKnown ids) (record_internal_event id event_type now details)
  unfolding record_internal_event KnownRows
  internal-Known event_type details db known = grind arith

  pub timeout-Known : (request : ℕ) → Keeps (AreKnown ids) (register_timeout id request now)
  unfolding register_timeout KnownRows
  timeout-Known request db known = grind arith

  pub wait-Known : (wait_count : ℕ) → Keeps (AreKnown ids) (finish_wait id wait_count now)
  unfolding finish_wait KnownRows
  wait-Known wait_count db known = grind arith

  pub dead_letter-Known :
      (message_id : Option ℕ) → Keeps (AreKnown ids) (handle_dead_letter (some id) message_id now)
  unfolding handle_dead_letter KnownRows
  dead_letter-Known message_id db known = grind arith

  pub create-Known :
      (execution_id : ℕ) (items : List Item)
      → Keeps (AreKnown ids) (create_order_with_task execution_id items now)
  unfolding create_order_with_task KnownRows
  create-Known execution_id items db known = grind arith

  note-Known : (changed : Bool) → Keeps (AreKnown ids) (note_completion changed id now)
  unfolding note_completion KnownRows
  note-Known changed db known = grind arith

  success-Known : (event_seq : ℕ) → Keeps (AreKnown ids) (apply_success id event_seq now)
  unfolding apply_success KnownRows
  success-Known event_seq db known = grind arith

failure-Known :
    (ids : Table Drawn) (m : MessageEnvelope) (event_seq now : ℕ)
    → Keeps (AreKnown ids) (apply_failure m event_seq now)
unfolding apply_failure
failure-Known ids m event_seq now db known = grind arith

module _ (ids : Table Drawn) (m : MessageEnvelope) (redelivered : Bool) (now : ℕ)
    (drawn : get m.message_id ids ≡ some (record { task_id = m.task_id; is_reply = true }))
    (db : OrdersDb) (known : AreKnown ids db) where
  apply-Known :
      (event_seq : ℕ) (db' : OrdersDb)
      → AreKnown ids db'
      → AreKnown ids (apply_event m event_seq now db').1
  unfolding apply_event
  apply-Known event_seq db' h = elim (Bool-cases (is_success m.event_type)) [
    | inl e ↦ rw e (success-Known ids m.task_id now event_seq db' h)
    | inr e ↦ rw e (failure-Known ids m event_seq now db' h)
  ]

  repeated-Known :
      is_event_processed db m.message_id ≡ true → AreKnown ids (record_repeated m now db).1
  unfolding record_repeated is_event_processed KnownRows
  repeated-Known seen = grind arith

  new-Known :
      is_event_processed db m.message_id ≡ false → AreKnown ids (handle_new m redelivered now db).1
  unfolding handle_new record_new is_event_processed KnownRows
  new-Known new = grind (arith, apply-Known, KnownRows-processed, get-insert_self)

  -- An event of the Inventory records the reply that it is.
  pub event-Known : AreKnown ids (handle_inventory_event m redelivered now db).1
  unfolding handle_inventory_event receive
  event-Known = grind (arith, new-Known, repeated-Known)

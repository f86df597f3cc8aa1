-- ===== src/Inventory/Db.antt =====
-- services/inventory/app/db: `models.py` and `repositories.py`. A stored answer is the message itself:
-- `json.loads` gives back what `canonical_json` wrote.
use rule2llm_orch_lab.Prelude.{
  ℕ, String, Option, none, some, List, [], ◌∷◌, integrity_error, Action, gets, raise_if, modify,
  ◌>>=◌, ◌>>◌, any, str_eq, is_some, if◌then◌else◌,
}
use rule2llm_orch_lab.Prelude.Table.{Table, get, insert}
use rule2llm_orch_lab.Contract.Vocabulary.{EventType}
use rule2llm_orch_lab.Contract.Envelope.{Item, ReservationRoute, MessageEnvelope}

-- `ReservationStatus`
pub data ReservationStatus : Type 0 where
  reserved failed : ReservationStatus

-- `ProcessingResult`
pub data ProcessingResult : Type 0 where
  succeeded failed : ProcessingResult

-- A row of `reservations`, without its `task_id`, which is UNIQUE
pub record ReservationRow : Type 0 where
  pub order_id : ℕ
  pub status : ReservationStatus
  pub route : ReservationRoute
  pub items : List Item
  pub created_at : ℕ

-- A row of `processed_messages`, without its `message_id`, the PRIMARY KEY
pub record ProcessedRow : Type 0 where
  pub task_id : ℕ
  pub event_type : EventType
  pub result : ProcessingResult
  pub response : MessageEnvelope
  pub processed_at : ℕ

-- `inventory.db`
pub record InventoryDb : Type 0 where
  pub stock : List String
  pub reservations : Table ReservationRow
  pub processed_messages : Table ProcessedRow

-- `find_processed_message`
abbrev pub find_processed_message : ℕ → InventoryDb → Option ProcessedRow
find_processed_message message_id db = get message_id db.processed_messages

-- `unknown_skus`
unfoldable pub unknown_skus : List String → List String → List String
unknown_skus stock [] = []
unknown_skus stock (sku ∷ skus) =
    let rest = unknown_skus stock skus in if any (str_eq sku) stock then rest else sku ∷ rest

abbrev pub if_reserved : Option ReservationRow → Option ReservationRow
if_reserved none = none
if_reserved (some row) = elim row.status [ ReservationStatus.reserved ↦ some row | _ ↦ none ]

-- `find_reservation`
abbrev pub find_reservation : ℕ → InventoryDb → Option ReservationRow
find_reservation task_id db = if_reserved (get task_id db.reservations)

-- `insert_reservation`: the UNIQUE `task_id` makes a second row an `IntegrityError`.
unfoldable pub insert_reservation : ℕ → ReservationRow → Action InventoryDb (Unit {0})
insert_reservation task_id row = do
  taken ← gets (λ (db : InventoryDb). is_some (get task_id db.reservations))
  raise_if taken integrity_error
  modify (λ db. record db { reservations = insert task_id row db.reservations })

-- `insert_processed_message`
unfoldable pub insert_processed_message : ℕ → ProcessedRow → Action InventoryDb (Unit {0})
insert_processed_message message_id row = do
  taken ← gets (λ (db : InventoryDb). is_some (get message_id db.processed_messages))
  raise_if taken integrity_error
  modify (λ db. record db { processed_messages = insert message_id row db.processed_messages })

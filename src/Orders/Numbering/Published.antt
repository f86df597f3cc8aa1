-- ===== src/Orders/Numbering/Published.antt =====
-- The requests that the executor publishes (executor.py, scheduler.py).
use rule2llm_orch_lab.Prelude.{
  ℕ, ◌≡◌, true, false, Option, none, some, List, [], ◌∷◌, arith, Unless,
}
use rule2llm_orch_lab.Prelude.Table.{Table, get, get-update}
use rule2llm_orch_lab.Contract.Vocabulary.{EventType, Target}
use rule2llm_orch_lab.Contract.Config.{MessagingConfig}
use rule2llm_orch_lab.Contract.Envelope.{MessageEnvelope, is_message}
use rule2llm_orch_lab.Orders.Db.{OrdersDb}
use rule2llm_orch_lab.Orders.Executor.{Supply, Effect, publish, publish_request}
use rule2llm_orch_lab.Orders.Numbering.{first_seq, Numbered, Traced, Recorded, IsOnRecord}
use rule2llm_orch_lab.Orders.Numbering.Known.{Drawn, KnownRows, AreKnown}

-- The requests among the effects, in order
unfoldable pub requests_of : List Effect → List MessageEnvelope
requests_of [] = []
requests_of (publish m route ∷ es) = m ∷ requests_of es
requests_of (_ ∷ es) = requests_of es

-- A request that was published: in the contract, on record, under an identifier that was drawn for it.
pub record IsSent (ids : Table Drawn) (db : OrdersDb) (m : MessageEnvelope) : Type 0 where
  pub message : is_message m ≡ true
  pub is_request : m.event_type ≡ EventType.stock_reservation_requested
  pub on_record : IsOnRecord m db
  pub drawn : get m.message_id ids ≡ some (record { task_id = m.task_id; is_reply = false })

abbrev pub AllSent : Table Drawn → OrdersDb → List MessageEnvelope → Type 0
AllSent ids db [] = Unit
AllSent ids db (m ∷ ms) = IsSent ids db m × AllSent ids db ms

module _ (c : MessagingConfig) (i : Supply) (id decision_id : ℕ) (db : OrdersDb) where
  pub publish-Traced :
      (j : ℕ)
      → Traced j db
      → first_seq id i.message_id db.task_events ≡ none
      → Unless (λ effects. Traced j) (publish_request c i id decision_id db)
  unfolding publish_request Numbered
  publish-Traced j traced fresh = grind (arith, get-update)

  pub publish-Recorded :
      (j seq : ℕ) (target : Option Target)
      → Recorded j seq target db.task_events
      → Recorded j seq target (publish_request c i id decision_id db).1.task_events
  unfolding publish_request Recorded
  publish-Recorded j seq target recorded = grind arith

  module _ (ids : Table Drawn)
      (drawn : get i.message_id ids ≡ some (record { task_id = id; is_reply = false })) where
    pub publish-Known : AreKnown ids db → AreKnown ids (publish_request c i id decision_id db).1
    unfolding publish_request KnownRows
    publish-Known known = grind arith

    abbrev pub Publishes : List Effect → OrdersDb → Type 0
    Publishes effects after = AllSent ids after (requests_of effects)

    pub publish-Sent : Unless Publishes (publish_request c i id decision_id db)
    unfolding publish_request requests_of Recorded
    publish-Sent = grind arith

-- ===== src/Contract/Envelope.antt =====
-- shared/envelope.py: the messages between the two services. A payload is a value of the model that
-- `PAYLOAD_MODELS` names for its event type; the patterns of identifiers are not modelled, since
-- identifiers are numbers here.
use rule2llm_orch_lab.Prelude.{
  ℕ, String, Bool, true, false, Option, List, [], ◌∷◌, Result, ok, err, contract_error, leb, str_eq,
  not, ◌&&◌, if◌then◌else◌, ltb,
}
use rule2llm_orch_lab.Contract.Vocabulary.{EventType, TaskResult, Target}

-- `OrderItemPayload`
pub record Item : Type 0 where
  pub sku : String
  pub quantity : ℕ

-- `ReservationRoute`
pub data ReservationRoute : Type 0 where
  primary fallback : ReservationRoute

-- The payloads of messages, and those of the events that the Orders records for itself.
pub data Payload : Type 0 where
  no_payload : Payload
  reservation_request : ℕ → List Item → Payload
  reservation_result : ℕ → ReservationRoute → Payload
  reservation_failed : ℕ → ReservationRoute → TaskResult → Payload
  retry_details : ℕ → ℕ → Payload
  wait_details : ℕ → ℕ → ℕ → Payload
  wait_finished_details : ℕ → Payload
  decision_details : ℕ → Payload
  abort_details : ℕ → String → Payload
  timeout_details : ℕ → TaskResult → Payload
  dead_letter_details : Option ℕ → Bool → Payload

pub record MessageEnvelope : Type 0 where
  pub execution_id : ℕ
  pub message_id : ℕ
  pub task_id : ℕ
  pub event_type : EventType
  pub event_seq : ℕ
  pub attempt_number : ℕ
  pub published_at : ℕ
  pub decision_id : Option ℕ
  pub target : Option Target
  pub payload : Payload

-- `OrderItemPayload` accepts a text that is not empty and a positive quantity.
unfoldable pub are_items : List Item → Bool
are_items [] = true
are_items (i ∷ is) = not (str_eq i.sku "") && ltb 0 i.quantity && are_items is

-- `Literal["transient_error", "invalid_data"]`
abbrev pub is_failure_reason : TaskResult → Bool
is_failure_reason TaskResult.transient_error = true
is_failure_reason TaskResult.invalid_data = true
is_failure_reason _ = false

-- `_validate_payload`: the event type must have a model, and the payload be a value of it.
unfoldable pub validate_payload : EventType → Payload → Bool
unfolding are_items
validate_payload EventType.stock_reservation_requested (reservation_request order []) = false
validate_payload EventType.stock_reservation_requested (reservation_request order (i ∷ is)) =
    are_items (i ∷ is)
validate_payload EventType.stock_reservation_succeeded (reservation_result order route) = true
validate_payload EventType.stock_reservation_failed (reservation_failed order route reason) =
    is_failure_reason reason
validate_payload _ _ = false

-- `MessageEnvelope.model_validate` with `_validate_payload`; `Field(ge=1)` on the two counters.
unfoldable pub is_message : MessageEnvelope → Bool
unfolding validate_payload
is_message m =
    leb 1 m.event_seq && leb 1 m.attempt_number && validate_payload m.event_type m.payload

-- `build_envelope`: raises unless the message is in the contract.
unfoldable pub build_envelope : MessageEnvelope → Result MessageEnvelope
unfolding is_message
build_envelope m = if is_message m then ok m else err contract_error

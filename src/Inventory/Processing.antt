-- ===== src/Inventory/Processing.antt =====
-- services/inventory/app/reservation/processing.py: the fault that a request meets before its
-- transaction. The waits and the record of the fault for the researcher are not modelled.
use rule2llm_orch_lab.Prelude.{
  ℕ, Bool, true, false, Option, none, some, ◌≡◌, ◌≢◌, arith, if◌then◌else◌,
}
use rule2llm_orch_lab.Contract.Vocabulary.{TaskResult, Target}
use rule2llm_orch_lab.Contract.Envelope.{MessageEnvelope}

-- `FaultControl.type`
pub data FaultType : Type 0 where
  intermittent_error timeout : FaultType

-- `FaultControl`, without its `fault_id`, `started_at` and `delay_ms`. The probability is a number out
-- of a scale that `sampled` knows.
pub record FaultControl : Type 0 where
  pub type : FaultType
  pub target : Target
  pub failure_probability : ℕ
  pub seed : ℕ

abbrev same_route : Target → Option Target → Bool
same_route Target.inventory_primary (some Target.inventory_primary) = true
same_route Target.inventory_fallback (some Target.inventory_fallback) = true
same_route _ _ = false

-- `ProcessingSimulator.before_reservation`; `sampled seed task_id attempt_number probability` is the
-- draw of shared/faults.py, a SHA-256 digest against the probability.
unfoldable pub before_reservation :
    (ℕ → ℕ → ℕ → ℕ → Bool) → Option FaultControl → MessageEnvelope → Option TaskResult
before_reservation sampled none request = none
before_reservation sampled (some fault) request =
    if same_route fault.target request.target
    then (if sampled fault.seed request.task_id request.attempt_number fault.failure_probability
        then elim fault.type [
          | FaultType.timeout ↦ none
          | FaultType.intermittent_error ↦ some TaskResult.transient_error
        ]
        else none)
    else none

-- A fault leaves the requests of the other route alone.
pub other_route_unharmed :
    (sampled : ℕ → ℕ → ℕ → ℕ → Bool) (fault : FaultControl) (request : MessageEnvelope)
    → request.target ≢ some fault.target
    → before_reservation sampled (some fault) request ≡ none
unfolding before_reservation
other_route_unharmed sampled fault request h = ground arith

-- The only failure that is injected is `transient_error`.
pub injected_transient :
    (sampled : ℕ → ℕ → ℕ → ℕ → Bool) (fault : Option FaultControl) (request : MessageEnvelope)
    (failure : TaskResult)
    → before_reservation sampled fault request ≡ some failure
    → failure ≡ TaskResult.transient_error
unfolding before_reservation
injected_transient sampled fault request failure h = ground arith

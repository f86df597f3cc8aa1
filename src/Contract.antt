-- ===== src/Contract.antt =====
-- The contracts that both services share: shared/task.py, shared/events.py, shared/messaging.py,
-- shared/config.py, shared/decision.py, shared/system_state.py and shared/envelope.py.
pub mod Vocabulary
pub mod Config
pub mod Decision
pub mod SystemState
pub mod Envelope
pub mod Json

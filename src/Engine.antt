-- ===== src/Engine.antt =====
-- The decision engines (orders-service, app/orchestration/decision_engine.py, rules_engine.py; app/llm) and
-- the validator that both pass through (validator.py).
pub mod Output
pub mod Rules
pub mod Validator
pub mod Llm
pub mod Agreement

-- ===== src/Tests.antt =====
-- Concrete runs of the model, and the theorems at concrete inputs.
pub mod Data
pub mod Orders
mod Ended
pub mod Engine
mod Inventory
mod Services
mod Llm
mod Reports

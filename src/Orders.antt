-- ===== src/Orders.antt =====
-- The orders-service: its database `orders.db` and the coordination that runs on it.
pub mod Db
pub mod Trajectory
pub mod Repositories
pub mod Executor
pub mod EventHandler
pub mod Internal
pub mod StateBuilder
pub mod Orchestrator
pub mod Consumers
pub mod Invariant
pub mod Numbering
pub mod System

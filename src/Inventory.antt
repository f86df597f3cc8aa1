-- ===== src/Inventory.antt =====
-- The inventory-service: services/inventory/app.
pub mod Db
pub mod Processing
pub mod Service
pub mod Store
pub mod Answers
pub mod Once

-- ===== src/Inventory.antt =====
-- The inventory: src/modules/inventory.
pub mod Building
pub mod Consistency
pub mod Conservation
pub mod Entity
pub mod Events
pub mod History
pub mod Once
pub mod Elsewhere
pub mod Retry
pub mod Returning
pub mod Laws
pub mod Ledger
pub mod Repository
pub mod Reserving
pub mod Service
pub mod Settling
pub mod Stock
pub mod Stocking
pub mod View

-- ===== src/Inventory.antt =====
-- internal/agent/inventory: the normalized Host inventory.
pub mod Model
pub mod Payloads
pub mod Normalize
pub mod Registry
mod Tests

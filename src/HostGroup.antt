-- ===== src/HostGroup.antt =====
-- The groups of hosts: selectors, their evaluation on the inventory, and the member sets made of it.
pub mod Selector
pub mod Tables
pub mod Evaluation
pub mod Members
pub mod Hierarchy
pub mod Cardinality
mod Fixture
mod Tests

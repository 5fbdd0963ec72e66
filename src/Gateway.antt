-- ===== src/Gateway.antt =====
-- internal/agent/gateway: the admission of sessions and the registry of live ones.
pub mod Registry
pub mod Admission
mod Tests

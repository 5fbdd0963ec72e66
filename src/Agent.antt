-- ===== src/Agent.antt =====
-- The Agent's durable state and its framing: the packages beside the session in internal/agent.
pub mod Backoff
pub mod Generation
pub mod Journal
pub mod Spool
mod Tests

-- ===== src/Session.antt =====
-- internal/agent/session: the Agent's transport-neutral session.
pub mod Error
pub mod Envelope
pub mod Authority
pub mod Queue
pub mod Manager
mod Tests

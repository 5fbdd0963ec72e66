-- ===== src/Execution.antt =====
-- The execution of commands: the messages between the Gateway and the Agent, and the Agent's module
-- that executes them.
pub mod Contract
pub mod World
pub mod Module
mod Tests

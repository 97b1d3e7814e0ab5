-- ===== src/Execution.antt =====
-- The execution of a plan: server/src/agentic/execution.
pub mod Graph
pub mod Statuses
pub mod Order
pub mod Progress

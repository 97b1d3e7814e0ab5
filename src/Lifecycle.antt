-- ===== src/Lifecycle.antt =====
-- server/src/agentic/agents/runtime/lifecycle: the budgets, counters and terminal states of one
-- agent execution.
pub mod Budget
pub mod State
pub mod Operations
pub mod Invariant
pub mod Traces

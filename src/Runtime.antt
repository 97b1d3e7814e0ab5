-- ===== src/Runtime.antt =====
-- server/src/agentic/agents/runtime, decisions, policy/guard.py and tools/runtime: the execution of
-- one agent, and its continuation after the actions that it asks for.
pub mod Decisions
pub mod Guards
pub mod Retry
pub mod Content
pub mod Quality
pub mod Session
pub mod Tools
pub mod Handle
pub mod Reason
pub mod Records
pub mod Evidence
pub mod Gate
pub mod Delegations
pub mod Continuation
pub mod Triple
pub mod Ledger
pub mod Rules
pub mod Proposals
pub mod Stopped
pub mod Corrected
pub mod Attempts
pub mod Slices
pub mod Payments
pub mod Gathered
pub mod Ran
pub mod Answers
pub mod Gated
pub mod Judged
pub mod Rounds
pub mod Loops
pub mod Finals
pub mod Turns
pub mod Shapes
pub mod Unhandled

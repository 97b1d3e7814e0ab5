-- ===== src/Planning.antt =====
-- server/src/agentic/planning and server/src/core/dto/planning.py: execution plans and what the
-- planner checks of them before the executor compiles them into a graph.
pub mod Plan
pub mod Cycles
pub mod Ancestors
pub mod Serial
pub mod Validator

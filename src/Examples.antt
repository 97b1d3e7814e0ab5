-- ===== src/Examples.antt =====
-- Concrete inputs of the modelled code: what it does on them, and the theorems at them.
pub mod Plans
pub mod Executions
pub mod Requests
pub mod Decided
pub mod Resumes
pub mod Graphs
pub mod Usages
pub mod Searches
pub mod Failovers
pub mod Turns

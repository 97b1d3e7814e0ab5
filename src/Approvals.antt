-- ===== src/Approvals.antt =====
-- Human approval of gated actions: server/src/application/services/approval_lifecycle.py, the
-- repositories and models under it, and the token verifier.
pub mod Records
pub mod Service
pub mod Verifier
pub mod Edits
pub mod Tokens
pub mod Outcomes
pub mod Decisions
pub mod Races
pub mod Once
pub mod Late
pub mod Executable

-- ===== src/Resume.antt =====
-- The resume of a decided action: server/src/application/services/hitl_resume.py and the claim of
-- server/src/adapters/persistence/sqlalchemy/repositories/agent_action.py.
pub mod Task
pub mod Run
pub mod Kept
pub mod Rejected
pub mod Once
pub mod Ends
pub mod Completes

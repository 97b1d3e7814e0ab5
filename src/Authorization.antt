-- ===== src/Authorization.antt =====
-- server/src/application/authorization/rbac and service.py: which actions a user and an agent may
-- perform. The rows of the database are read through `Directory`.
pub mod Roles
pub mod Policy
pub mod Gate
pub mod Grants
pub mod Decisions
pub mod Defaults

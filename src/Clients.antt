-- ===== src/Clients.antt =====
-- Clients of language models: server/src/adapters/clients/llm.
pub mod Failover
pub mod Errors
pub mod Providers

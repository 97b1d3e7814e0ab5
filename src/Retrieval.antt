-- ===== src/Retrieval.antt =====
-- Retrieval: server/src/rag.
pub mod Fusion
pub mod Search
pub mod Order
pub mod Scores
pub mod Ranks
pub mod Degraded
pub mod Size

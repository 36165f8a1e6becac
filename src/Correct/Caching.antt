-- ===== src/Correct/Caching.antt =====
-- Proofs about the caches of compiled programs.
pub mod Elements
pub mod Index
pub mod Eviction
pub mod Recency
pub mod Interfaces

-- ===== src/Correct/Serving.antt =====
-- Proofs about engines and the service of rule sets.
pub mod Transparent
pub mod Publishing
pub mod Releases
pub mod History
pub mod Listing

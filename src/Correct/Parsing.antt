-- ===== src/Correct/Parsing.antt =====
-- Proofs about the parser of expressions.
pub mod Safety
pub mod Fuel
pub mod Stable
pub mod Printer
pub mod Follow
pub mod Names
pub mod Atoms
pub mod Constructs
pub mod Elements
pub mod MapEntries
pub mod RoundTrip
pub mod Lexing
pub mod Text

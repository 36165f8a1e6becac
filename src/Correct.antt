-- ===== src/Correct.antt =====
-- Proofs that compiled code does what a bound expression means.
pub mod WellBound
pub mod Halting
pub mod Layout
pub mod Tables
pub mod Computes
pub mod Needs
pub mod Branch
pub mod Dense
pub mod Folding
pub mod FoldingWhole
pub mod Opcodes
pub mod Emission
pub mod Program
pub mod Termination
pub mod Binding
pub mod Reading
pub mod Ranges
pub mod Agreement
pub mod Parsing
pub mod Restoring
pub mod Compiling
pub mod Caching
pub mod Serving
pub mod Persisting
pub mod Validating
pub mod Counting
pub mod Compaction

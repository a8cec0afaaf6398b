-- ===== src/Grammar.antt =====
-- crates/ikigai-core/src/grammar.rs: which names a grammar matches, and what it captures.
pub mod Bindings
pub mod Template
pub mod Search
pub mod Reference
pub mod Slices
pub mod Agreement
pub mod Parsing
pub mod Occurrences
pub mod Matching
pub mod Encoding
pub mod Expansion
mod Tests

-- ===== src/Alias.antt =====
-- crates/ikigai-core/src/alias.rs: the table of rewrites.
pub mod Table
pub mod Walk
pub mod Chain
pub mod Counters
pub mod Order
mod Tests

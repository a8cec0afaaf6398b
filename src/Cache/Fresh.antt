-- ===== src/Cache/Fresh.antt =====
-- crates/ikigai-core/src/cache.rs: what a live entry pins, and the history of cuts.
pub mod Edges
pub mod Invariant
pub mod Sweep
pub mod Calls
pub mod Stores
pub mod Histories
pub mod Served

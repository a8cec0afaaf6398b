-- ===== src/Cache/Bound.antt =====
-- crates/ikigai-core/src/cache.rs: the bound of entries and bytes, and the count of bytes.
pub mod Eviction
pub mod Accounting
pub mod Histories

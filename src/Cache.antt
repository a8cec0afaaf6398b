-- ===== src/Cache.antt =====
-- crates/ikigai-core/src/cache.rs: the representation cache.
pub mod Entry
pub mod Policy
pub mod State
pub mod Answer
pub mod Serve
pub mod Store
pub mod Failure
pub mod CutLog
pub mod History
pub mod Fresh
pub mod Bound
pub mod Dependents
mod Tests

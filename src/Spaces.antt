-- ===== src/Spaces.antt =====
-- crates/ikigai-core/src/space.rs and seal.rs: spaces, the chains of spaces that a request is
-- resolved in, and sealed names.
pub mod Tree
pub mod Seals
pub mod Scope
pub mod Doors
pub mod Sealed
pub mod Sources
pub mod Order
pub mod Stacking
mod Tests

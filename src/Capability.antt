-- ===== src/Capability.antt =====
-- crates/ikigai-core/src/capability.rs: what a request may reach.
pub mod Scope
pub mod Principal
pub mod Ops
pub mod Held
pub mod WellFormed
pub mod Minting
pub mod Narrowing
pub mod Identity
pub mod Families
pub mod Clamping
mod Tests

-- ===== src/Run.antt =====
-- crates/ikigai-core/src/run.rs: the budgets of a run.
pub mod Limits
pub mod Attenuating
pub mod Pools
pub mod Taking
pub mod Narrowed
pub mod Reservations
pub mod Budgets
pub mod Totals
pub mod Conserved
pub mod Accounts
mod Tests
pub mod Contexts
pub mod Admitted

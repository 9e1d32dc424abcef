-- ===== src/Session.antt =====
-- crates/reference-core/src/session.rs: an open Library.
pub mod Authority
pub mod Evidence
pub mod State
pub mod Roots
pub mod Bind
pub mod Jobs
pub mod Resources
pub mod OneScan
pub mod Kept
pub mod Ledger
pub mod Reached
pub mod Recovered
pub mod Vetted
pub mod Canonical

-- ===== src/Canonical.antt =====
-- crates/reference-core/src/canonical.rs
pub mod Json
pub mod Records
pub mod Page
pub mod Digest
pub mod Cursor

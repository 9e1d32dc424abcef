-- ===== src/Discovery.antt =====
-- crates/reference-core/src/discovery.rs
pub mod Media
pub mod Marks
pub mod Match
pub mod Store
pub mod Flush
pub mod Kept
pub mod Inspect
pub mod Unseen
pub mod Walk
pub mod Scan

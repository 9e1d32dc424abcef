-- ===== src/Editorial.antt =====
-- crates/reference-core/src/editorial.rs
pub mod TextPatches
pub mod Tokens
pub mod Collections
pub mod Membership
pub mod Preview
pub mod Located
pub mod Assets
pub mod Search
pub mod Page

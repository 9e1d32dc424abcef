-- ===== src/Examples.antt =====
-- The modules' theorems at concrete inputs.
pub mod Data
pub mod Collections
pub mod Membership
pub mod Assets
pub mod Texts
pub mod Searches
pub mod Pages
pub mod Messages
pub mod Jobs
pub mod Service
pub mod Library
pub mod Canonical
pub mod Scans

-- ===== src/Server.antt =====
-- crates/reference-core/src/server.rs: the engine that runs commands and background jobs.
pub mod Reply
pub mod Engine
pub mod Jobs
pub mod Api
pub mod Call
pub mod Arms
pub mod Execute
pub mod Loop

-- ===== src/Protocol.antt =====
-- The control protocol, crates/reference-protocol/src/lib.rs: limits, enumerations, commands,
-- results, events, and the framing of one message.
pub mod Limits
pub mod States
pub mod Patch
pub mod Results
pub mod Canonical
pub mod Command
pub mod Event
pub mod Frame
pub mod Wire

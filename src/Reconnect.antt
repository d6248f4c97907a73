-- ===== src/Reconnect.antt =====
-- crates/openclaw-node-host/src/reconnect.rs: which failures pause a node, and how long it waits
-- before another attempt.
pub mod Details
pub mod Classify
pub mod Policy

-- ===== src/Duplex.antt =====
-- crates/openclaw-node-host/src/duplex.rs: the ordered input of a long-lived invocation and its
-- progress output.
pub mod Input
pub mod Progress

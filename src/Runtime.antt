-- ===== src/Runtime.antt =====
-- The command runtime of crates/openclaw-node-host/src/runtime.rs: its construction, the invocations
-- that are active, the evaluation of one, and the loop over the events of a session.
pub mod Build
pub mod Active
pub mod Limits
pub mod Futures
pub mod Admission
pub mod Evaluate
pub mod Tasks
pub mod Loop

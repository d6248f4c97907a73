-- ===== src/Sidecar.antt =====
-- The authenticated sidecar channel of crates/openclaw-node-host: the negotiation, the frames, the
-- handshake and the configuration exchange between a supervisor and an out-of-process runtime.
pub mod Protocol
pub mod Frame
pub mod Channel
pub mod Handshake
pub mod Messages
pub mod Configuration
pub mod Exchange
pub mod Status
pub mod Bridge

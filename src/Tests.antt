-- ===== src/Tests.antt =====
-- The theorems at concrete inputs, and runs of the definitions.
mod ReconnectTests
mod DuplexTests
mod ChannelTests
mod HandshakeTests
mod ExchangeTests
mod AgreementTests
mod LifecycleTests
mod RuntimeTests
mod ActiveTests
mod NodeTests
mod LoopTests
mod BridgeTests

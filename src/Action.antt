-- ===== src/Action.antt =====
-- The Action half of the library: Goals with feedback, cancellation and results
-- (include/hakoniwa/pdu/action, src/action_*.cpp).
pub mod Types
pub mod Configuration
pub mod Packet
pub mod ClientPacket
pub mod ServerEndpoint
pub mod ClientEndpoint
pub mod Slots
pub mod Layers
pub mod ServicesServer
pub mod ServicesClient
pub mod MuxServer
pub mod ClientMachine
pub mod ServerMachine
pub mod Samples
mod Tests
mod SetupTests
mod GoalTests
mod ClientTests
mod MuxTests

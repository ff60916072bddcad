-- ===== src/Rpc.antt =====
-- The RPC half of the library: a Client calls a named service and waits for one reply; the Server
-- keeps, for each Client, whether a request of it is running.
pub mod Types
pub mod ServerEndpoint
pub mod ClientEndpoint
pub mod Services
pub mod ClientServices
pub mod MuxServer
pub mod Exchange
pub mod Samples
mod Tests
mod MuxTests

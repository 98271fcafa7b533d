-- ===== src/Server.antt =====
-- Server/: what the server keeps for each of its clients, its runtime and its host.
pub mod ServerClientReplicationState
pub mod ServerRuntime
pub mod ServerNetworkHost
mod Tests
mod HostTests

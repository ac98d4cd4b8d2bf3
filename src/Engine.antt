-- ===== src/Engine.antt =====
-- The engine of the client, go/internal/engine.go.
pub mod Netip
pub mod NetIpLists
pub mod PeerEnv
pub mod Peers
pub mod NatMappings
pub mod DnsForwarder
pub mod LazyPeers
pub mod Messages
pub mod Converted
pub mod SyncEnv
pub mod SyncState
pub mod Servers
pub mod Checks
pub mod Convert
pub mod ForwardRules
pub mod NetworkMaps
pub mod Persistence
pub mod Shutdown
pub mod Signals
pub mod Stopping
pub mod Health
pub mod SyncSample

-- ===== src/Engine/NetworkMaps/Kept.antt =====
-- The response that GetLatestSyncResponse of go/internal/engine.go returns.
use netbird_minimal.Engine.Netip.{Netip}
use netbird_minimal.Engine.PeerEnv.{PeerEnv}
use netbird_minimal.Engine.SyncEnv.{SyncEnv}
use netbird_minimal.Engine.SyncState.{Engine}

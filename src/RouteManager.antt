-- ===== src/RouteManager.antt =====
-- The route manager of the client, go/internal/routemanager/manager.go.
pub mod RouteEnv
pub mod Classify
pub mod ExitNodes
pub mod Networks
pub mod Lifecycle
pub mod Sample

-- ===== src/SystemOps.antt =====
-- The system's routing table on Linux, go/internal/routemanager/systemops.
pub mod Types
pub mod Env
pub mod Rules
pub mod Routes
pub mod Names
pub mod Tables
pub mod Listing
pub mod Details
pub mod RtTables
pub mod Sample

-- ===== src/Configurer.antt =====
-- The configurer of the userspace WireGuard device: go/iface/configurer/usp.go.
pub mod WgEnv
pub mod Status
pub mod Transfers
pub mod Config
pub mod Device
pub mod Kernel
pub mod Sample
mod Tests

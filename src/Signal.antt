-- ===== src/Signal.antt =====
-- The client of the signal service: go/signal/client.
pub mod Messages
pub mod Credentials
pub mod Client
pub mod Worker

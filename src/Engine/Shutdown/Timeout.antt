-- ===== src/Engine/Shutdown/Timeout.antt =====
-- The bounds of calculateShutdownTimeout of go/internal/engine.go.
use netbird_minimal.Common.{◌+◌, ◌*◌, ◌^◌, ◌≤◌, ◌<◌, String, ◌≡◌, List, arith, length}
use netbird_minimal.Engine.Shutdown.{second, millisecond, calculate_shutdown_timeout}

-- For fewer than 2 ^ 36 peers the timeout does not overflow: it is between 10 and 30 seconds, and up
-- to 200 peers each one adds a tenth of a second.
pub calculate_shutdown_timeout_bounds :
    (peers : List String)
    → length peers < 2 ^ 36
    → (10 * second ≤ calculate_shutdown_timeout peers)
      × (calculate_shutdown_timeout peers ≤ 30 * second)
      × (length peers ≤ 200
          → calculate_shutdown_timeout peers ≡ 10 * second + length peers * 100 * millisecond)
unfolding calculate_shutdown_timeout
calculate_shutdown_timeout_bounds peers h = (ground arith, ground arith, λ k. ground arith)

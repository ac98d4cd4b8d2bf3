-- ===== src/Engine/Shutdown/Tests.antt =====
-- The timeout for two peers.
use netbird_minimal.Common.{◌+◌, ◌*◌, ◌≤◌, String, ◌≡◌, List, [], ◌∷◌, arith, length}
use netbird_minimal.Engine.Shutdown.{second, millisecond, calculate_shutdown_timeout}
use netbird_minimal.Engine.Shutdown.Timeout.{calculate_shutdown_timeout_bounds}

abbrev two_peers : List String
two_peers = "a" ∷ "b" ∷ []

calculate_shutdown_timeout_bounds_example :
    (10 * second ≤ calculate_shutdown_timeout two_peers)
    × (calculate_shutdown_timeout two_peers ≤ 30 * second)
    × (length two_peers ≤ 200
        → calculate_shutdown_timeout two_peers ≡ 10 * second + length two_peers * 100 * millisecond)
calculate_shutdown_timeout_bounds_example =
    calculate_shutdown_timeout_bounds two_peers (ground arith)

-- ===== src/Engine/Shutdown.antt =====
-- The time that Stop waits for goroutines: calculateShutdownTimeout of go/internal/engine.go.
pub mod Timeout
mod Tests
use netbird_minimal.Common.{ℕ, ◌+◌, ◌*◌, ◌%◌, ◌^◌, String, ◌&&◌, List, if◌then◌else◌, ltb, length}

-- in nanoseconds, as those of time
abbrev pub second : ℕ
second = 1000000000

abbrev pub millisecond : ℕ
millisecond = 1000000

-- calculateShutdownTimeout of the keys in the peer store: a Duration by its 64 bits, where those from
-- 2 ^ 63 on are negative
unfoldable pub calculate_shutdown_timeout : List String → ℕ
calculate_shutdown_timeout peers =
    let timeout = (10 * second + length peers * 100 * millisecond) % 2 ^ 64 in
    let max_timeout = 30 * second in
    if ltb max_timeout timeout && ltb timeout (2 ^ 63) then max_timeout else timeout

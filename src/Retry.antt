-- ===== src/Retry.antt =====
-- The delay before a failed poll or capture is tried again (run.go, connectorRetryDelay). A duration
-- is a number of nanoseconds; the doubling is that of an int64.
pub mod Bounds
use workgraph.Common.{ℕ, zero, suc, ◌-◌, ◌*◌, ◌/◌, ◌%◌, ◌^◌, ◌||◌, ltb, leb, if◌then◌else◌}
use workgraph.Clock.{second, minute}

abbrev pub retry_initial : ℕ
retry_initial = 5 * second

abbrev pub retry_max : ℕ
retry_max = 5 * minute

unfoldable pub min_duration : ℕ → ℕ → ℕ
min_duration first other = if ltb first other then first else other

-- A loop of at most so many rounds; each call is one test of its condition.
unfoldable pub double_delay : ℕ → ℕ → ℕ → ℕ
unfolding min_duration
double_delay zero maximum delay = min_duration delay maximum
double_delay (suc rounds) maximum delay =
    let rest = double_delay rounds maximum (delay * 2 % 2 ^ 64) in
    if ltb delay maximum
    then (if ltb (maximum / 2) delay then maximum else rest)
    else min_duration delay maximum

unfoldable pub connector_retry_delay : ℕ → ℕ → ℕ → ℕ
unfolding min_duration double_delay
connector_retry_delay initial maximum failures =
    if leb failures 1 || leb maximum initial
    then min_duration initial maximum
    else double_delay (failures - 1) maximum initial

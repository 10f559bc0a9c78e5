-- ===== src/Retry/Bounds.antt =====
-- The closed form of the retry delay, and its bounds.
use native.Mathlib.Nat.{pow-succ'}
use workgraph.Common.{pow_two_pos, ℕ, zero, suc, ◌-◌, ◌*◌, ◌^◌, ◌≤◌, ◌<◌, ◌≡◌, arith, min}
use workgraph.Retry.{double_delay, connector_retry_delay}

le-mul-pow : (d k : ℕ) → d ≤ d * 2 ^ k
le-mul-pow d k = grind (arith, pow_two_pos k)

mul-pow-suc : (d k : ℕ) → d * 2 ^ suc k ≡ (d * 2) * 2 ^ k
mul-pow-suc d k = rw (pow-succ' 2 k) (omega arith)

double_delay-closed : (r m d : ℕ) → m < 2 ^ 63 → double_delay r m d ≡ min (d * 2 ^ r) m
unfolding double_delay
double_delay-closed zero m d h = ground arith
double_delay-closed (suc r) m d h = ground (
  arith,
  double_delay-closed r m (d * 2),
  mul-pow-suc d r,
  le-mul-pow d (suc r),
  le-mul-pow (d * 2) r,
)

-- For a maximum below 2 ^ 63, the delay is the initial one, doubled with each failure after the first,
-- or the maximum if that is less: no doubling wraps.
pub connector_retry_delay-closed :
    (initial maximum failures : ℕ)
    → maximum < 2 ^ 63
    → connector_retry_delay initial maximum failures ≡ min (initial * 2 ^ (failures - 1)) maximum
unfolding connector_retry_delay
connector_retry_delay-closed initial maximum failures h =
    ground
      (arith, double_delay-closed (failures - 1) maximum initial, le-mul-pow initial (failures - 1))

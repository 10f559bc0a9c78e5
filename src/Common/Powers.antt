-- ===== src/Common/Powers.antt =====
-- Powers of two.
use Prim.Native.Nat.{ℕ, zero, suc, ◌≤◌, ◌^◌}
use native.Mathlib.Nat.{pow-succ'}
use native.Mathlib.Omega.{arith}

pub pow_two_pos : (k : ℕ) → 1 ≤ 2 ^ k
pow_two_pos zero = omega arith
pow_two_pos (suc k) = omega (arith, pow-succ' 2 k, pow_two_pos k)

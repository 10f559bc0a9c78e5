-- ===== src/Clock/RoundTrip.antt =====
-- Parsing the text of an instant gives the instant back.
use workgraph.Common.{
  ℕ, zero, suc, ◌+◌, ◌-◌, ◌*◌, ◌/◌, ◌%◌, ◌^◌, ◌≤◌, ◌<◌, ◌≡◌, refl, ap, ◌∙◌, arith, List, [], ◌∷◌,
  some,
}
use native.Mathlib.Nat.{div-add-mod, mod-lt, pow-suc}
use workgraph.Clock.{second, digits, fraction, format, read_digits, read_tail, parse}

read_digits-cons :
    (k c n : ℕ) (cs : List ℕ)
    → 48 ≤ c
    → c ≤ 57
    → read_digits k cs ≡ some n
    → read_digits (suc k) (c ∷ cs) ≡ some ((c - 48) * 10 ^ k + n)
unfolding read_digits
read_digits-cons k c n [] p q h = cc
read_digits-cons k c n (d ∷ cs) p q h = ground arith

pow_ten_pos : (k : ℕ) → 0 < 10 ^ k
pow_ten_pos zero = omega arith
pow_ten_pos (suc k) = rw pow-suc (omega (arith, pow_ten_pos k))

regroup : (n d : ℕ) → (48 + n / d - 48) * d + n % d ≡ n
regroup n d = grind (arith, div-add-mod n d)

leading_digit : (k n : ℕ) → n < 10 ^ suc k → n / 10 ^ k < 10
leading_digit k n h = grind arith

read_digits-digits : (k n : ℕ) → n < 10 ^ k → read_digits k (digits k n) ≡ some n
unfolding read_digits digits
read_digits-digits zero zero h = refl
read_digits-digits zero (suc n) h = absurd (omega arith)
read_digits-digits (suc k) zero h = refl
read_digits-digits (suc k) (suc n) h =
    read_digits-cons k (48 + suc n / 10 ^ k) (suc n % 10 ^ k) _ (omega arith)
      (omega (arith, leading_digit k (suc n) h))
      (read_digits-digits k (suc n % 10 ^ k) (mod-lt (suc n) (pow_ten_pos k)))
    ∙ ap some (regroup (suc n) (10 ^ k))

read_tail-fraction : (n : ℕ) → n < second → read_tail (fraction n) ≡ some n
unfolding read_tail fraction
read_tail-fraction zero h = refl
read_tail-fraction (suc n) h = ground (arith, leading_digit 8 (suc n), read_digits-digits 9 (suc n))

-- Parsing the stored text of an instant gives that instant back, to the nanosecond.
pub parse-format : (t : ℕ) → parse (format t) ≡ some t
unfolding parse format
parse-format t = rw (read_tail-fraction (t % second) (omega arith), parse) (ap some (omega arith))

-- ===== src/Clock/Order.antt =====
-- How the order of the stored texts stands to the order of the instants.
use workgraph.Common.{
  ℕ, zero, suc, ◌+◌, ◌*◌, ◌/◌, ◌%◌, ◌≤◌, ◌<◌, ◌≡◌, refl, true, false, arith, List, [], ◌∷◌,
}
use workgraph.Clock.{Stamp, second, format, before, at_most, text_lt}

-- The earlier second has the earlier text.
pub before-format : (t u : ℕ) → t / second < u / second → before (format t) (format u) ≡ true
unfolding before format
before-format t u h = ground arith

pub before-seconds : (a b : Stamp) → before a b ≡ true → a.seconds ≤ b.seconds
unfolding before
before-seconds a b h = ground arith

-- A text is below that of an instant a second or more later.
pub before_of_second : (t u : ℕ) → t + second ≤ u → before (format t) (format u) ≡ true
before_of_second t u h = before-format t u (omega arith)

-- Within one second the stored texts are not in the order of their instants: the text of a whole second
-- stands after that of each of its fractions.
pub before-whole_second :
    (s d : ℕ) → 0 < d → d < second → before (format (s * second + d)) (format (s * second)) ≡ true
unfolding before format text_lt
before-whole_second s zero p q = absurd (omega arith)
before-whole_second s (suc d) p q =
    let whole : s * second / second ≡ s = omega arith in
    let none_left : s * second % second ≡ 0 = omega arith in
    let part : (s * second + suc d) / second ≡ s = omega arith in
    let left : (s * second + suc d) % second ≡ suc d = omega arith in
    rw (format, before, whole, none_left, part, left) (ground arith)

pub text_lt_irrefl : (cs : List ℕ) → text_lt cs cs ≡ false
unfolding text_lt
text_lt_irrefl [] = refl
text_lt_irrefl (c ∷ cs) = ground (arith, text_lt_irrefl cs)

pub at_most_refl : (a : Stamp) → at_most a a ≡ true
unfolding at_most
at_most_refl a = ground (arith, text_lt_irrefl a.tail)

-- Two tests that the queries make of one pair of texts are each other's negation.
pub at_most-eq-not-before : (a b : Stamp) → at_most a b ≡ true → before b a ≡ false
unfolding at_most
at_most-eq-not-before a b h = ground arith

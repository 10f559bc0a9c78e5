-- ===== src/Accuracy/Quotient.antt =====
-- The doubles of project_accuracy.go: the quotient of two counts, and its text with two decimals.
-- The counts are below 2^53, so each is itself as a double.
use Prim.Native.String.{◌++◌ as text_append, slice}
use workgraph.Common.{ℕ, zero, suc, ◌+◌, ◌-◌, ◌*◌, ◌/◌, ◌%◌, ◌^◌, String, ltb, if◌then◌else◌}
use workgraph.Links.{Double, minus, plus, one}

-- The number nearest to a fraction; of two that are as near, the even one.
unfoldable pub nearest : ℕ → ℕ → ℕ
nearest n d =
    let k = n / d in
    let twice = 2 * (n % d) in if ltb d twice then k + 1 else if ltb twice d then k else k + k % 2

-- The binary digits of a number, of which `fuel` are counted at most.
unfoldable pub bits : ℕ → ℕ → ℕ
bits zero n = 0
bits (suc fuel) zero = 0
bits (suc fuel) (suc n) = suc (bits fuel (suc n / 2))

-- What the last place is worth of a double that begins as a number does, in 53 binary digits.
unfoldable pub last_place : ℕ → ℕ
unfolding bits
last_place n = 2 ^ (bits 2200 n - 53)

-- float64(a) / float64(b), where b is not 0
unfoldable pub quotient : ℕ → ℕ → Double
unfolding nearest last_place
quotient a b = let step = last_place (a * one / b) in plus (nearest (a * one) (b * step) * step)

-- The decimal digit of a number below ten.
unfoldable pub digit : ℕ → String
digit n = slice "0123456789" n (n + 1)

-- %d, of a number of at most `fuel` digits and one
unfoldable pub decimal : ℕ → ℕ → String
unfolding digit
decimal zero n = digit n
decimal (suc fuel) n =
    let rest = decimal fuel (n / 10) in
    if ltb n 10 then digit n else text_append rest (digit (n % 10))

-- %d
unfoldable pub show : ℕ → String
unfolding decimal
show n = decimal n n

unfoldable pub hundredths : ℕ → String
unfolding show digit
hundredths n =
    text_append (show (n / 100))
      (text_append "." (text_append (digit (n / 10 % 10)) (digit (n % 10))))

-- %.2f
unfoldable pub two_decimals : Double → String
unfolding hundredths nearest
two_decimals (plus n) = hundredths (nearest (n * 100) one)
two_decimals (minus n) = text_append "-" (hundredths (nearest (n * 100) one))

-- ===== src/Clock.antt =====
-- The times that the store keeps as text (time.RFC3339Nano, in UTC), and how SQLite compares them.
--
-- An instant is a number of nanoseconds since the year 0. The text of an instant is its first
-- nineteen bytes, 2006-01-02T15:04:05, and the bytes after them. The nineteen have a fixed width,
-- so their byte order is that of the seconds they name, and the model keeps the seconds; the tail,
-- a fraction with no trailing zeros and the letter Z, is kept byte for byte.
pub mod Order
pub mod RoundTrip
use workgraph.Common.{
  ℕ, zero, suc, ◌+◌, ◌-◌, ◌*◌, ◌/◌, ◌%◌, ◌^◌, Bool, true, false, not, ◌&&◌, Option, none, some,
  List, [], ◌∷◌, ltb, leb, if◌then◌else◌,
}

abbrev pub second : ℕ
second = 1000000000

abbrev pub minute : ℕ
minute = 60 * second

abbrev pub hour : ℕ
hour = 60 * minute

abbrev pub day : ℕ
day = 24 * hour

pub record Stamp : Type 0 where
  pub seconds : ℕ
  pub tail : List ℕ

-- The digits of `n`, which has at most `k`, from the left and with no trailing zeros; then Z.
unfoldable pub digits : ℕ → ℕ → List ℕ
digits zero n = b'Z' ∷ []
digits (suc k) zero = b'Z' ∷ []
digits (suc k) (suc n) = (48 + suc n / 10 ^ k) ∷ digits k (suc n % 10 ^ k)

unfoldable pub fraction : ℕ → List ℕ
fraction zero = b'Z' ∷ []
fraction (suc n) = b'.' ∷ digits 9 (suc n)

-- t.UTC().Format(time.RFC3339Nano)
unfoldable pub format : ℕ → Stamp
unfolding fraction digits
format t = record { seconds = t / second; tail = fraction (t % second) }

-- t.UTC().Format(time.RFC3339): the fraction is dropped.
unfoldable pub format_seconds : ℕ → Stamp
format_seconds t = record { seconds = t / second; tail = b'Z' ∷ [] }

-- Up to nine digits of a fraction, each worth a tenth of the one before; further ones are dropped.
unfoldable pub read_digits : ℕ → List ℕ → Option ℕ
read_digits k [] = none
read_digits zero (c ∷ []) = if leb c b'Z' && leb b'Z' c then some 0 else none
read_digits zero (c ∷ d ∷ rest) =
    let more = read_digits zero (d ∷ rest) in if leb 48 c && leb c 57 then more else none
read_digits (suc k) (c ∷ []) = if leb c b'Z' && leb b'Z' c then some 0 else none
read_digits (suc k) (c ∷ d ∷ rest) = elim (read_digits k (d ∷ rest)) [
  | none ↦ none
  | some n ↦ if leb 48 c && leb c 57 then some ((c - 48) * 10 ^ k + n) else none
]

unfoldable pub read_tail : List ℕ → Option ℕ
unfolding read_digits
read_tail [] = none
read_tail (c ∷ []) = if leb c b'Z' && leb b'Z' c then some 0 else none
read_tail (c ∷ d ∷ rest) =
    if leb c b'.' && leb b'.' c && leb 48 d && leb d 57 then read_digits 9 (d ∷ rest) else none

-- time.Parse(time.RFC3339Nano, text), on texts in UTC
unfoldable pub parse : Stamp → Option ℕ
unfolding read_tail
parse s = elim (read_tail s.tail) [ none ↦ none | some n ↦ some (s.seconds * second + n) ]

-- Byte order, as SQLite's BINARY collation has it: a text stands after its proper prefixes.
unfoldable pub text_lt : List ℕ → List ℕ → Bool
text_lt [] [] = false
text_lt [] (d ∷ ds) = true
text_lt (c ∷ cs) [] = false
text_lt (c ∷ cs) (d ∷ ds) =
    let rest = text_lt cs ds in if ltb c d then true else if ltb d c then false else rest

-- a < b between two stored texts
unfoldable pub before : Stamp → Stamp → Bool
unfolding text_lt
before a b =
    if ltb a.seconds b.seconds
    then true
    else if ltb b.seconds a.seconds
    then false
    else text_lt a.tail b.tail

-- a <= b between two stored texts
unfoldable pub at_most : Stamp → Stamp → Bool
unfolding before
at_most a b = not (before b a)

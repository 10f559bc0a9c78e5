-- ===== src/Common/Text.antt =====
-- strings.TrimSpace and strings.ToLower of the Go library. Of the characters beyond ASCII, ToLower
-- is modelled on the two whose lower case is an ASCII letter; the rest are left as they are, and
-- occur in no name that the program compares with.
use native.Mathlib.Omega.{arith}
use Prim.Native.Nat.{ℕ, suc, ◌-◌, ◌≤◌}
use Prim.Native.Char.{Char, code}
use Prim.Native.String.{String, char_at}
use mathlib.Core.Bool.{Bool, true, false, ◌&&◌, ◌||◌}
use mathlib.Core.Path.{◌≡◌, refl}
use mathlib.Core.Logic.{inl, inr}
use workgraph.Common.Tests.{leb, if◌then◌else◌, Bool-cases}

-- unicode.IsSpace
unfoldable pub is_space : ℕ → Bool
is_space c =
    within 9 13
    || within 32 32
    || within 0x85 0x85
    || within 0xa0 0xa0
    || within 0x1680 0x1680
    || within 0x2000 0x200a
    || within 0x2028 0x2029
    || within 0x202f 0x202f
    || within 0x205f 0x205f
    || within 0x3000 0x3000
  where
    within : ℕ → ℕ → Bool
    within lo hi = leb lo c && leb c hi

unfoldable pub trim_left : String → String
unfolding is_space
trim_left String.[] = String.[]
trim_left (String.◌∷◌ c s) =
    let rest = trim_left s in if is_space (code c) then rest else String.◌∷◌ c s

-- Puts a character before a text, unless it is a space before nothing.
unless_trailing : Char → String → String
unless_trailing c String.[] = if is_space (code c) then String.[] else String.◌∷◌ c String.[]
unless_trailing c (String.◌∷◌ d s) = String.◌∷◌ c (String.◌∷◌ d s)

trim_right : String → String
trim_right String.[] = String.[]
trim_right (String.◌∷◌ c s) = unless_trailing c (trim_right s)

unfoldable pub trim_space : String → String
unfolding is_space trim_left unless_trailing trim_right
trim_space s = trim_right (trim_left s)

-- The number of characters.
abbrev pub runes : String → ℕ
runes String.[] = 0
runes (String.◌∷◌ c s) = suc (runes s)

runes-trim_left : (s : String) → runes (trim_left s) ≤ runes s
unfolding trim_left
runes-trim_left String.[] = omega arith
runes-trim_left (String.◌∷◌ c s) = ground (arith, runes-trim_left s)

runes-unless_trailing : (c : Char) (s : String) → runes (unless_trailing c s) ≤ suc (runes s)
unfolding unless_trailing
runes-unless_trailing c String.[] = at_most_one (is_space (code c))
  where
    at_most_one : (b : Bool) → runes (if b then String.[] else String.◌∷◌ c String.[]) ≤ 1
    at_most_one true = omega arith
    at_most_one false = omega arith
runes-unless_trailing c (String.◌∷◌ d s) = omega arith

runes-trim_right : (s : String) → runes (trim_right s) ≤ runes s
unfolding trim_right
runes-trim_right String.[] = omega arith
runes-trim_right (String.◌∷◌ c s) =
    omega (arith, runes-unless_trailing c (trim_right s), runes-trim_right s)

pub runes-trim_space : (s : String) → runes (trim_space s) ≤ runes s
unfolding trim_space
runes-trim_space s = omega (arith, runes-trim_right (trim_left s), runes-trim_left s)

lower : Char → Char
lower c =
    if leb 65 (code c) && leb (code c) 90
    then char_at "abcdefghijklmnopqrstuvwxyz" (code c - 65)
    else if leb 0x212a (code c) && leb (code c) 0x212a
    then char_at "k" 0
    else if leb 0x130 (code c) && leb (code c) 0x130
    then char_at "i" 0
    else c

unfoldable pub to_lower : String → String
unfolding lower
to_lower String.[] = String.[]
to_lower (String.◌∷◌ c s) = String.◌∷◌ (lower c) (to_lower s)

trim_right-unless_trailing :
    (c : Char) (t : String)
    → trim_right t ≡ t
    → trim_right (unless_trailing c t) ≡ unless_trailing c t
unfolding unless_trailing trim_right
trim_right-unless_trailing c String.[] h = elim (Bool-cases (is_space (code c))) [
  | inl k ↦ rw k refl
  | inr k ↦ rw k (rw k refl)
]
trim_right-unless_trailing c (String.◌∷◌ d t) h = rw h refl

trim_right_idem : (s : String) → trim_right (trim_right s) ≡ trim_right s
unfolding trim_right
trim_right_idem String.[] = refl
trim_right_idem (String.◌∷◌ c s) = trim_right-unless_trailing c (trim_right s) (trim_right_idem s)

trim_left-first :
    (c : Char) (s : String)
    → is_space (code c) ≡ false
    → trim_left (String.◌∷◌ c s) ≡ String.◌∷◌ c s
unfolding trim_left
trim_left-first c s h = rw h refl

unless_trailing-first :
    (c : Char) (t : String) → is_space (code c) ≡ false → unless_trailing c t ≡ String.◌∷◌ c t
unfolding unless_trailing
unless_trailing-first c String.[] h = rw h refl
unless_trailing-first c (String.◌∷◌ d t) h = refl

trim_left-trim_right-trim_left :
    (s : String) → trim_left (trim_right (trim_left s)) ≡ trim_right (trim_left s)
unfolding trim_left trim_right
trim_left-trim_right-trim_left String.[] = refl
trim_left-trim_right-trim_left (String.◌∷◌ c s) = elim (Bool-cases (is_space (code c))) [
  | inl k ↦ rw k (trim_left-trim_right-trim_left s)
  | inr k ↦
      rw k (rw (unless_trailing-first c (trim_right s) k) (trim_left-first c (trim_right s) k))
]

pub trim_space_idem : (s : String) → trim_space (trim_space s) ≡ trim_space s
unfolding trim_space
trim_space_idem s = rw (trim_left-trim_right-trim_left s) (trim_right_idem (trim_left s))

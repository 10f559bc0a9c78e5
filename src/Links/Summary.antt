-- ===== src/Links/Summary.antt =====
-- The summary of a link on one line of at most 120 characters (sanitizeProjectLinkSummary). Unicode's
-- table of format characters is the Go library's, and is an argument. The words of strings.Fields are
-- joined in one pass from the right.
use Prim.Native.Char.{code}
use Prim.Native.String.{char_at}
use workgraph.Common.{
  suc, zero, runes, runes-trim_space, Bool-cases, inl, inr, leb→le, ◌≤◌, arith, ℕ, zero, suc,
  String, Bool, ◌&&◌, ◌||◌, leb, is_space, trim_left, trim_space, if◌then◌else◌,
}

abbrev project_link_summary_max_runes : ℕ
project_link_summary_max_runes = 120

-- unicode.IsControl
is_control : ℕ → Bool
is_control c = leb c 0x1f || leb 0x7f c && leb c 0x9f

unfoldable pub without_controls : (ℕ → Bool) → String → String
unfolding is_control
without_controls is_format String.[] = String.[]
without_controls is_format (String.◌∷◌ c s) =
    let rest = without_controls is_format s in
    if is_control (code c) || is_format (code c) then rest else String.◌∷◌ c rest

-- One space before a text, unless it is empty or begins with the space of its own words.
one_space : String → String
unfolding is_space
one_space String.[] = String.[]
one_space (String.◌∷◌ c s) =
    if is_space (code c) then String.◌∷◌ c s else String.◌∷◌ (char_at " " 0) (String.◌∷◌ c s)

squeeze : String → String
unfolding is_space one_space
squeeze String.[] = String.[]
squeeze (String.◌∷◌ c s) =
    let rest = squeeze s in if is_space (code c) then one_space rest else String.◌∷◌ c rest

-- strings.Join(strings.Fields(…), " ")
unfoldable pub join_fields : String → String
unfolding squeeze trim_left
join_fields s = trim_left (squeeze s)

unfoldable pub first_runes : ℕ → String → String
first_runes zero s = String.[]
first_runes (suc n) String.[] = String.[]
first_runes (suc n) (String.◌∷◌ c s) = String.◌∷◌ c (first_runes n s)

unfoldable pub sanitize_project_link_summary : (ℕ → Bool) → String → String
unfolding without_controls join_fields first_runes trim_space
sanitize_project_link_summary is_format summary =
    let text = join_fields (without_controls is_format summary) in
    if leb (runes text) project_link_summary_max_runes
    then text
    else trim_space (first_runes project_link_summary_max_runes text)

runes-first_runes : (n : ℕ) (s : String) → runes (first_runes n s) ≤ n
unfolding first_runes
runes-first_runes zero s = omega arith
runes-first_runes (suc n) String.[] = omega arith
runes-first_runes (suc n) (String.◌∷◌ c s) = omega (arith, runes-first_runes n s)

-- The summary that is made of any text has at most 120 characters.
pub runes-sanitize_project_link_summary :
    (is_format : ℕ → Bool) (summary : String)
    → runes (sanitize_project_link_summary is_format summary) ≤ 120
unfolding sanitize_project_link_summary
runes-sanitize_project_link_summary is_format summary =
    let text = join_fields (without_controls is_format summary) in
    let cut = first_runes project_link_summary_max_runes text in
    elim (Bool-cases (leb (runes text) project_link_summary_max_runes)) [
      | inl e ↦ rw e (leb→le (runes text) 120 e)
      | inr e ↦ rw e (
          omega
            (arith, runes-trim_space cut, runes-first_runes project_link_summary_max_runes text))
    ]

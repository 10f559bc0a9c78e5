-- ===== src/Cadence/Open.antt =====
-- The cooldowns that are active at a time, by their rows.
use workgraph.Common.{
  String, Bool, false, ◌≡◌, refl, sym, ◌∙◌, Option, none, some, List, [], ◌∷◌, ◌==◌, first_with,
  first_with-past, first_with-here, Unrepeated, if◌then◌else◌, Bool-cases, inl, inr, eq_iff,
}
use workgraph.Clock.{Stamp, before}
use workgraph.Cadence.Cooldowns.{Cooldown, active_since, is_hash}

-- The row holds this hash at this time.
unfoldable pub is_open : Stamp → String → Option Cooldown → Bool
is_open now hash none = false
is_open now hash (some row) = if before now row.until then row.members_hash == hash else false

abbrev pub row_id : Cooldown → String
row_id row = row.unit_id

active_since-none :
    (now : Stamp) (id : String) (rows : List Cooldown)
    → first_with row_id id rows ≡ none
    → first_with row_id id (active_since now rows) ≡ none
unfolding first_with active_since
active_since-none now id [] h = refl
active_since-none now id (row ∷ rows) h = elim (Bool-cases (row_id row == id)) [
  | inl k ↦ absurd (cc (sym (first_with-here row_id id row rows k) ∙ h))
  | inr k ↦
      let later : first_with row_id id (active_since now rows) ≡ none =
        active_since-none now id rows (sym (first_with-past row_id id row rows k) ∙ h) in
      elim (Bool-cases (before now row.until)) [
        | inl b ↦ rw b (first_with-past row_id id row (active_since now rows) k ∙ later)
        | inr b ↦ rw b later
      ]
]

pub is_hash-active_since :
    (now : Stamp) (hash id : String) (rows : List Cooldown)
    → Unrepeated row_id rows
    → is_hash hash (first_with row_id id (active_since now rows))
      ≡ is_open now hash (first_with row_id id rows)
unfolding first_with active_since is_hash is_open
is_hash-active_since now hash id [] u = refl
is_hash-active_since now hash id (row ∷ rows) u = elim (Bool-cases (row_id row == id)) [
  | inl k ↦
      let past : first_with row_id id rows ≡ none = rw (sym ((eq_iff row.unit_id id).0 k)) u.0 in
      let gone = active_since-none now id rows past in
      elim (Bool-cases (before now row.until)) [
        | inl b ↦ rw (b, k) (rw b refl)
        | inr b ↦ rw (b, k) (rw (b, gone) refl)
      ]
  | inr k ↦
      let later = is_hash-active_since now hash id rows u.1 in
      elim (Bool-cases (before now row.until)) [ inl b ↦ rw (b, k) later | inr b ↦ rw (b, k) later ]
]

-- ===== src/Units/Gaps.antt =====
-- Where the events of one place are split.
use workgraph.Common.{
  ℕ, ◌+◌, ◌≤◌, ◌<◌, ◌≡◌, refl, List, [], ◌∷◌, All, concat_map, Bool-cases, inl, inr, arith,
}
use workgraph.Units.{ProjectUnitEvent, Members, project_unit_quiet_gap}
use workgraph.Units.Groups.{events_in, last_time}
use workgraph.Units.Bursts.{is_quiet, put_before, split_project_unit_events}
use workgraph.Units.Held.{split_project_unit_events-concat_map}

-- Each event comes less than the gap after the one before.
abbrev pub FollowsSoon : ℕ → List ProjectUnitEvent → Type 0
FollowsSoon at [] = Unit
FollowsSoon at (e ∷ es) = (e.timestamp < at + project_unit_quiet_gap) × FollowsSoon e.timestamp es

abbrev pub IsBurst : Members → Type 0
IsBurst group = FollowsSoon group.first.timestamp group.rest

-- Each group starts the gap or more after the last event of the one before.
abbrev pub AreApart : List Members → Type 0
AreApart [] = Unit
AreApart (g ∷ []) = Unit
AreApart (g ∷ h ∷ gs) =
    (last_time g.first.timestamp g.rest + project_unit_quiet_gap ≤ h.first.timestamp)
    × AreApart (h ∷ gs)

AreApart-put :
    (g h : Members) (gs : List Members)
    → last_time g.first.timestamp g.rest ≡ last_time h.first.timestamp h.rest
    → AreApart (h ∷ gs)
    → AreApart (g ∷ gs)
AreApart-put g h [] e a = tt
AreApart-put g h (k ∷ gs) e a = (rw e a.0, a.1)

put_before-IsBurst :
    (e : ProjectUnitEvent) (gs : List Members) → All IsBurst gs → All IsBurst (put_before e gs)
unfolding put_before is_quiet
put_before-IsBurst e [] a = (tt, tt)
put_before-IsBurst e (g ∷ gs) a = elim (Bool-cases (is_quiet e.timestamp g.first.timestamp)) [
  | inl h ↦ rw h (tt, a)
  | inr h ↦ rw h ((ground arith, a.0), a.1)
]

put_before-AreApart :
    (e : ProjectUnitEvent) (gs : List Members) → AreApart gs → AreApart (put_before e gs)
unfolding put_before is_quiet last_time
put_before-AreApart e [] a = tt
put_before-AreApart e (g ∷ gs) a = elim (Bool-cases (is_quiet e.timestamp g.first.timestamp)) [
  | inl h ↦ rw h (ground arith, a)
  | inr h ↦ rw h (AreApart-put (record { first = e; rest = g.first ∷ g.rest }) g gs refl a)
]

split-IsBurst : (es : List ProjectUnitEvent) → All IsBurst (split_project_unit_events es)
unfolding split_project_unit_events
split-IsBurst [] = tt
split-IsBurst (e ∷ es) = put_before-IsBurst e (split_project_unit_events es) (split-IsBurst es)

split-AreApart : (es : List ProjectUnitEvent) → AreApart (split_project_unit_events es)
unfolding split_project_unit_events
split-AreApart [] = tt
split-AreApart (e ∷ es) = put_before-AreApart e (split_project_unit_events es) (split-AreApart es)

-- The groups, one after the other, are the events; in a group each event comes less than two hours
-- after the one before, and a group starts two hours or more after the last event of the one before.
pub split_project_unit_events_lem :
    (es : List ProjectUnitEvent)
    → (concat_map events_in (split_project_unit_events es) ≡ es)
      × All IsBurst (split_project_unit_events es)
      × AreApart (split_project_unit_events es)
split_project_unit_events_lem es =
    (split_project_unit_events-concat_map es, split-IsBurst es, split-AreApart es)

-- ===== src/Relink/Planned.antt =====
-- Which links the commands plan to supersede.
use workgraph.Common.{
  and-eq-true, String, Bool, true, false, not, ◌&&◌, ◌||◌, ◌≡◌, refl, sym, ◌∙◌, subst, Option,
  Option-cases, none, some, List, [], ◌∷◌, ◌==◌, All, All-mono, All-always, Bool-cases, inl, inr,
  if◌then◌else◌, arith, ok, Ensures, returns, Ensures-bind, Ensures-after,
}
use workgraph.Links.{ProjectLink, is_proposed, is_current_of, has_link_id}
use workgraph.Links.Rows.{Distinct, no_twin, no_twin_after}
use workgraph.Links.Record.{ProjectLinkProposal}
use workgraph.Units.{ProjectUnit}
use workgraph.Relink.{
  ProjectRelinkChange, ProjectRelinkState, last_current, may_change, planned_change,
  container_change, container_changes, replaced_by, recheck_change, cons_change, recheck_changes,
  proposal_replaceable, project_container_mapping_link_movable, among,
}
use workgraph.Relink.Superseded.{is_planned, plans}

module _ (p : ProjectLink → Type 0) where
  last_current-All :
      (unit : String) (links : List ProjectLink) (r : ProjectLink)
      → All p links
      → last_current unit links ≡ some r
      → p r
  unfolding last_current
  last_current-All unit [] r a e = absurd (cc e)
  last_current-All unit (x ∷ links) r a e = elim (Option-cases (last_current unit links)) [
    | inl o ↦ elim (Bool-cases (is_current_of unit x)) [
      | inl k ↦ let same : some x ≡ some r = sym (rw (o, k) refl) ∙ e in subst p (cc same) a.0
      | inr k ↦ let no : none ≡ some r = sym (rw (o, k) refl) ∙ e in absurd (cc no)
    ]
    | inr (s, o) ↦
        let same : some s ≡ some r = sym (rw o refl) ∙ e in
        last_current-All unit links r a.1 (o ∙ same)
  ]

-- A row with the id of the unit's current link is that link.
last_current-only :
    (unit : String) (links : List ProjectLink) (r : ProjectLink)
    → Distinct links
    → last_current unit links ≡ some r
    → All (λ l. has_link_id r.id l ≡ true → l ≡ r) links
unfolding last_current
last_current-only unit [] r d e = tt
last_current-only unit (x ∷ links) r d e = elim (Option-cases (last_current unit links)) [
  | inl o ↦ elim (Bool-cases (is_current_of unit x)) [
    | inl k ↦
        let found : some x ≡ some r = sym (rw (o, k) refl) ∙ e in
        let same : x ≡ r = cc found in
        (λ g. same, All-mono _ _ (λ m apart g. absurd (no_twin x m apart (rw same g))) links d.0)
    | inr k ↦ let no : none ≡ some r = sym (rw (o, k) refl) ∙ e in absurd (cc no)
  ]
  | inr (s, o) ↦
      let same : some s ≡ some r = sym (rw o refl) ∙ e in
      (
        λ g. absurd (no_twin_after x r (last_current-All _ unit links r d.0 (o ∙ same)) g),
        last_current-only unit links r d.1 (o ∙ same),
      )
]

-- A link that a relinking may change.
abbrev pub is_relinkable : List ProjectLink → ProjectLink → Bool
is_relinkable links link =
    project_container_mapping_link_movable link || proposal_replaceable links link

-- A change is planned for a link of the table that may be changed.
abbrev pub IsAllowed : List ProjectLink → ProjectRelinkChange → Type 0
IsAllowed links change =
    (planned : ProjectLink)
    → change.current ≡ some planned
    → (is_relinkable links planned ≡ true)
      × All (λ l. has_link_id planned.id l ≡ true → l ≡ planned) links

abbrev IsAllowedIf : List ProjectLink → Option ProjectRelinkChange → Type 0
IsAllowedIf links none = Unit
IsAllowedIf links (some change) = IsAllowed links change

module _ (links : List ProjectLink) (distinct : Distinct links) (unit : ProjectUnit) where
  current-IsAllowed :
      (current : ProjectLink)
      → last_current unit.id links ≡ some current
      → is_relinkable links current ≡ true
      → (planned : ProjectLink) → some current ≡ some planned
      → (is_relinkable links planned ≡ true)
        × All (λ l. has_link_id planned.id l ≡ true → l ≡ planned) links
  current-IsAllowed current e h planned k =
      let same : current ≡ planned = cc k in
      (
        subst (λ c. is_relinkable links c ≡ true) same h,
        last_current-only unit.id links planned distinct (e ∙ k),
      )

  planned_change-IsAllowed :
      (o : Option ProjectLink) (resolved : Option ProjectLinkProposal)
      → last_current unit.id links ≡ o
      → may_change links unit o ≡ true
      → IsAllowedIf links (planned_change unit o resolved)
  unfolding planned_change may_change
  planned_change-IsAllowed none none e h = tt
  planned_change-IsAllowed none (some proposal) e h = λ planned k. absurd (cc k)
  planned_change-IsAllowed (some current) none e h = elim (Bool-cases (is_proposed current.state)) [
    | inl b ↦ rw b tt
    | inr b ↦ rw b (current-IsAllowed current e h)
  ]
  planned_change-IsAllowed (some current) (some proposal) e h =
      elim (Bool-cases (not (is_proposed current.state) && proposal.project == current.project)) [
        | inl b ↦ rw b tt
        | inr b ↦ rw b (current-IsAllowed current e h)
      ]

  replaced_by-IsAllowed :
      (current : ProjectLink) (resolved : Option ProjectLinkProposal)
      → last_current unit.id links ≡ some current
      → proposal_replaceable links current ≡ true
      → IsAllowedIf links (replaced_by unit current resolved)
  unfolding replaced_by
  replaced_by-IsAllowed current none e h = tt
  replaced_by-IsAllowed current (some proposal) e h =
      current-IsAllowed current e (rw h (ground arith))

cons-IsAllowed :
    (links : List ProjectLink) (o : Option ProjectRelinkChange) (changes : List ProjectRelinkChange)
    → IsAllowedIf links o
    → All (IsAllowed links) changes
    → All (IsAllowed links) (cons_change o changes)
cons-IsAllowed links none changes h a = a
cons-IsAllowed links (some change) changes h a = (h, a)

module _ (state : ProjectRelinkState) (distinct : Distinct state.links) where
  container_change-IsAllowed :
      (unit : ProjectUnit) → Ensures (IsAllowedIf state.links) (container_change state unit)
  unfolding container_change
  container_change-IsAllowed unit =
      elim (Bool-cases (may_change state.links unit (last_current unit.id state.links))) [
        | inl h ↦ rw h (
            Ensures-after (state.resolve unit) (λ resolved.
              returns _ (planned_change-IsAllowed state.links distinct unit _ resolved refl h)))
        | inr h ↦ rw h (returns _ tt)
      ]

  selected-IsAllowed :
      (b : Bool) (unit : ProjectUnit)
      → Ensures (IsAllowedIf state.links) (if b then container_change state unit else ok none)
  selected-IsAllowed true unit = container_change-IsAllowed unit
  selected-IsAllowed false unit = returns _ tt

  pub container_changes-IsAllowed :
      (containers : List String) (units : List ProjectUnit)
      → Ensures (All (IsAllowed state.links)) (container_changes state containers units)
  unfolding container_changes
  container_changes-IsAllowed containers [] = returns _ tt
  container_changes-IsAllowed containers (unit ∷ units) =
      Ensures-bind _ (selected-IsAllowed (among unit.container containers) unit) (λ change h.
        Ensures-bind _ (container_changes-IsAllowed containers units)
          (λ rest a. returns _ (cons-IsAllowed state.links change rest h a)))

  recheck_change-IsAllowed :
      (unit : ProjectUnit) (o : Option ProjectLink)
      → last_current unit.id state.links ≡ o
      → Ensures (IsAllowedIf state.links) (recheck_change state unit o)
  unfolding recheck_change
  recheck_change-IsAllowed unit none e = returns _ tt
  recheck_change-IsAllowed unit (some current) e =
      elim (Bool-cases (proposal_replaceable state.links current)) [
        | inl h ↦ rw h (
            Ensures-after (state.resolve unit) (λ resolved.
              returns _ (replaced_by-IsAllowed state.links distinct unit current resolved e h)))
        | inr h ↦ rw h (returns _ tt)
      ]

  pub recheck_changes-IsAllowed :
      (units : List ProjectUnit)
      → Ensures (All (IsAllowed state.links)) (recheck_changes state units)
  unfolding recheck_changes
  recheck_changes-IsAllowed [] = returns _ tt
  recheck_changes-IsAllowed (unit ∷ units) =
      Ensures-bind _ (recheck_change-IsAllowed unit _ refl) (λ change h.
        Ensures-bind _ (recheck_changes-IsAllowed units)
          (λ rest a. returns _ (cons-IsAllowed state.links change rest h a)))

or-true :
    (a b c : Bool) → (a || b) ≡ true → (a ≡ true → c ≡ true) → (b ≡ true → c ≡ true) → c ≡ true
or-true true b c h f g = f refl
or-true false b c h f g = g h

-- Where the changes are allowed, a planned link may be changed.
plans-relinkable :
    (all links : List ProjectLink) (o : Option ProjectLink)
    → ((planned : ProjectLink)
        → o ≡ some planned
        → (is_relinkable all planned ≡ true)
          × All (λ l. has_link_id planned.id l ≡ true → l ≡ planned) links)
    → All (λ l. plans o l ≡ true → is_relinkable all l ≡ true) links
plans-relinkable all links none h = All-always _ (λ l k. absurd (cc k)) links
plans-relinkable all links (some planned) h =
    let (may, only) = h planned refl in
    All-mono _ _
      (λ l same k. subst (λ x. is_relinkable all x ≡ true) (sym (same (and-eq-true _ _ k).0)) may)
      links only

pub is_planned-relinkable :
    (links : List ProjectLink) (changes : List ProjectRelinkChange)
    → All (IsAllowed links) changes
    → All (λ l. is_planned changes l ≡ true → is_relinkable links l ≡ true) links
unfolding is_planned
is_planned-relinkable links [] a = All-always _ (λ l k. absurd (cc k)) links
is_planned-relinkable links (change ∷ changes) a =
    All-both links (plans-relinkable links links change.current a.0)
      (is_planned-relinkable links changes a.1)
  where
    All-both :
        (ls : List ProjectLink)
        → All (λ l. plans change.current l ≡ true → is_relinkable links l ≡ true) ls
        → All (λ l. is_planned changes l ≡ true → is_relinkable links l ≡ true) ls
        → All
            (λ l.
              (plans change.current l || is_planned changes l) ≡ true
              → is_relinkable links l ≡ true)
            ls
    All-both [] p q = tt
    All-both (l ∷ ls) p q = (λ k. or-true _ _ _ k p.0 q.0, All-both ls p.1 q.1)

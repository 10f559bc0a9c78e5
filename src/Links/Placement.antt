-- ===== src/Links/Placement.antt =====
-- What users see of the links: where each unit is placed. The assignments refine updates of that map.
use workgraph.Common.{
  ℕ, String, ◌≡◌, refl, ap, subst, ◌∙◌, Bool, true, false, Option, none, some, List, [], ◌∷◌, ◌++◌,
  ◌==◌, Result, ok, err, eq_iff, Bool-cases, inl, inr, All, All-mono, All-always, if◌then◌else◌,
  and-eq-true, Ensures, returns, Ensures-after, Ensures-guard, Ensures-mono, Ensures-ok,
}
use workgraph.Links.{
  corrected, ProjectLink, LinkStore, is_current, has_link_id, find_link, is_current_of,
  current_project_link, update_link,
}
use workgraph.Links.Write.{written_link, insert_project_link, decided_row, decide_project_link}
use workgraph.Links.Rows.{IsWellFormed, find_link-only, find_link-All}
use workgraph.Links.Decide.{
  Assignment, assigned_link, inherit, rejected_as, assign_over, assign_project_link,
}
use workgraph.Links.Outcomes.{assign_project_link_lem}
use workgraph.Links.Review.{released, decide_each}
use workgraph.Links.Current.{assign-keeps, released-keeps}

-- The target of a unit's current link, and its project.
abbrev pub Placement : Type 0
Placement = Option (String × String)

abbrev pub placed_at : Option ProjectLink → Placement
placed_at none = none
placed_at (some link) = some (link.target, link.project)

unfoldable pub placement : LinkStore → String → Placement
unfolding current_project_link
placement store unit = placed_at (current_project_link unit store)

-- An assignment, as an update of the map.
abbrev pub place : Assignment → (String → Placement) → String → Placement
place assignment before unit =
    if assignment.unit_id == unit then some (assignment.target, assignment.project) else before unit

find_link-append_other :
    (unit : String) (w : ProjectLink) (links : List ProjectLink)
    → is_current_of unit w ≡ false
    → find_link (is_current_of unit) (links ++ w ∷ []) ≡ find_link (is_current_of unit) links
unfolding find_link
find_link-append_other unit w [] h = rw h refl
find_link-append_other unit w (l ∷ links) h = elim (Bool-cases (is_current_of unit l)) [
  | inl e ↦ rw e refl
  | inr e ↦ rw e (find_link-append_other unit w links h)
]

other_unit :
    (unit : String) (l : ProjectLink) → (l.unit_id == unit) ≡ false → is_current_of unit l ≡ false
unfolding is_current_of
other_unit unit l h = rw h refl

insert-other :
    (is_format : ℕ → Bool) (now : ℕ) (link : ProjectLink) (store : LinkStore) (unit : String)
    → (link.unit_id == unit) ≡ false
    → Ensures
        (λ r. current_project_link unit r.0 ≡ current_project_link unit store)
        (insert_project_link is_format now link store)
unfolding insert_project_link current_project_link written_link
insert-other is_format now link store unit h = Ensures-after _ λ valid. Ensures-guard _ _ _ λ free.
    let w = written_link is_format store.next_id now link in
    returns _ (find_link-append_other unit w store.links (other_unit unit w h))

-- A decision on the rows of a key, none of which is of the unit.
update_link-other :
    (unit : String) (id : ℕ) (d : ProjectLink) (links : List ProjectLink)
    → All (λ l. has_link_id id l ≡ true → (l.unit_id == unit) ≡ false) links
    → find_link (is_current_of unit) (update_link id (decided_row d) links)
      ≡ find_link (is_current_of unit) links
unfolding find_link update_link decided_row
update_link-other unit id d [] a = refl
update_link-other unit id d (l ∷ links) a = elim (Bool-cases (has_link_id id l)) [
  | inl h ↦
      rw (h, other_unit unit (decided_row d l) (a.0 h), other_unit unit l (a.0 h))
        (update_link-other unit id d links a.1)
  | inr h ↦ elim (Bool-cases (is_current_of unit l)) [
    | inl e ↦ rw (h, e) refl
    | inr e ↦ rw (h, e) (update_link-other unit id d links a.1)
  ]
]

found-unit :
    (unit : String) (links : List ProjectLink) (current : ProjectLink)
    → find_link (is_current_of unit) links ≡ some current
    → current.unit_id ≡ unit
unfolding is_current_of
found-unit unit links current e =
    let passed =
      (find_link-All (is_current_of unit) (λ l. Unit) links (All-always _ (λ l. tt) links) e).1 in
    (eq_iff current.unit_id unit).0 (and-eq-true _ (is_current current.state) passed).0

assign_over-other :
    (is_format : ℕ → Bool) (now : ℕ) (o : Option ProjectLink) (assignment : Assignment)
    (store : LinkStore) (unit : String)
    → IsWellFormed store
    → find_link (is_current_of assignment.unit_id) store.links ≡ o
    → (assignment.unit_id == unit) ≡ false
    → Ensures
        (λ r. current_project_link unit r.0 ≡ current_project_link unit store)
        (assign_over is_format now o (assigned_link assignment) store)
unfolding assign_over assigned_link inherit rejected_as decide_project_link current_project_link
assign_over-other is_format now none assignment store unit w e h =
    insert-other is_format now (assigned_link assignment) store unit h
assign_over-other is_format now (some current) assignment store unit w e h =
    let rejected = rejected_as corrected now current in
    let of_unit = found-unit assignment.unit_id store.links current e in
    let apart : (current.unit_id == unit) ≡ false = ap (λ u. u == unit) of_unit ∙ h in
    let only = find_link-only (is_current_of assignment.unit_id) store.links current w.distinct e in
    Ensures-mono _
      (insert-other is_format now (inherit current (assigned_link assignment))
        (decide_project_link rejected store) unit h)
      λ r k.
        k
        ∙ update_link-other unit current.id rejected store.links (
            All-mono _ _
              (λ l same key. ap (λ (m : ProjectLink). m.unit_id == unit) (same key) ∙ apart)
              store.links only)

-- One assignment.
assign-placement :
    (is_format : ℕ → Bool) (now : ℕ) (assignment : Assignment) (store : LinkStore)
    (result : LinkStore × ProjectLink) (unit : String)
    → IsWellFormed store
    → assign_project_link is_format now assignment store ≡ ok result
    → placement result.0 unit ≡ place assignment (placement store) unit
unfolding placement assign_project_link current_project_link
assign-placement is_format now assignment store result unit w h =
    elim (Bool-cases (assignment.unit_id == unit)) [
      | inl e ↦
          let assigned = assign_project_link_lem is_format now assignment store result h in
          let there : some (result.1.target, result.1.project)
              ≡ some (assignment.target, assignment.project) =
            cc (assigned.target.0, assigned.target.1) in
          rw e (
            subst (λ u. placement result.0 u ≡ some (assignment.target, assignment.project))
              ((eq_iff assignment.unit_id unit).0 e) (ap placed_at assigned.current ∙ there))
      | inr e ↦ rw e (
          ap placed_at (
            Ensures-ok {P = λ r. current_project_link unit r.0 ≡ current_project_link unit store}
              (assign_over-other is_format now _ assignment store unit w refl e) h))
    ]

-- What the assignments of a list do to the map, by their outcomes: one that is refused does nothing.
unfoldable pub replay :
    List Assignment → List (Result ProjectLink) → (String → Placement) → String → Placement
replay [] outcomes before = before
replay (a ∷ rest) [] before = before
replay (a ∷ rest) (ok link ∷ outcomes) before = replay rest outcomes (place a before)
replay (a ∷ rest) (err e ∷ outcomes) before = replay rest outcomes before

place-pointwise :
    (a : Assignment) (f g : String → Placement) (unit : String)
    → f unit ≡ g unit
    → place a f unit ≡ place a g unit
place-pointwise a f g unit h =
    ap (λ p. if a.unit_id == unit then some (a.target, a.project) else p) h

replay-pointwise :
    (assignments : List Assignment) (outcomes : List (Result ProjectLink))
    (f g : String → Placement)
    → ((unit : String) → f unit ≡ g unit)
    → (unit : String) → replay assignments outcomes f unit ≡ replay assignments outcomes g unit
unfolding replay
replay-pointwise [] outcomes f g h unit = h unit
replay-pointwise (a ∷ rest) [] f g h unit = h unit
replay-pointwise (a ∷ rest) (ok link ∷ outcomes) f g h unit =
    replay-pointwise rest outcomes (place a f) (place a g) (λ u. place-pointwise a f g u (h u)) unit
replay-pointwise (a ∷ rest) (err e ∷ outcomes) f g h unit =
    replay-pointwise rest outcomes f g h unit

-- One assignment of a list, by its outcome.
after_one-placement :
    (is_format : ℕ → Bool) (now : ℕ) (a : Assignment) (rest : List Assignment)
    (outcomes : List (Result ProjectLink)) (store : LinkStore)
    (m : Result (LinkStore × ProjectLink))
    → IsWellFormed store
    → assign_project_link is_format now a store ≡ m
    → (unit : String)
    → replay rest outcomes (placement (released store m).0) unit
      ≡ replay (a ∷ rest) ((released store m).1 ∷ outcomes) (placement store) unit
unfolding replay released
after_one-placement is_format now a rest outcomes store (ok r) w h unit =
    replay-pointwise rest outcomes _ _ (λ u. assign-placement is_format now a store r u w h) unit
after_one-placement is_format now a rest outcomes store (err e) w h unit = refl

-- Assignments refine updates of a map: from well-formed links, a list of assignments, each under its
-- savepoint, places every unit where the same list puts it in a map from units to targets and projects,
-- if the ones that are refused are left out.
pub assignments_refine :
    (is_format : ℕ → Bool) (now : ℕ) (assignments : List Assignment) (store : LinkStore)
    (unit : String)
    → IsWellFormed store
    → (let after = decide_each (assign_project_link is_format now) assignments store in
        placement after.0 unit ≡ replay assignments after.1 (placement store) unit)
unfolding decide_each replay
assignments_refine is_format now [] store unit w = refl
assignments_refine is_format now (a ∷ rest) store unit w =
    let m = assign_project_link is_format now a store in
    assignments_refine is_format now rest (released store m).0 unit
      (released-keeps store m w (assign-keeps is_format now a store w))
    ∙ after_one-placement is_format now a rest _ store m w refl unit

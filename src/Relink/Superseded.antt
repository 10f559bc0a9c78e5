-- ===== src/Relink/Superseded.antt =====
-- What a change may do to the links: it supersedes one that nobody decided on, and adds new ones.
use workgraph.Common.{
  ℕ, String, Bool, true, false, ◌&&◌, ◌||◌, ◌≡◌, refl, sym, ◌∙◌, ap, subst, ◌⊎◌, Option, none, some,
  List, [], ◌∷◌, ◌++◌, ◌==◌, All, All-always, Bool-cases, inl, inr, arith, Ensures, returns,
  Ensures-guard, Ensures-after, and-eq-true,
}
use workgraph.Links.{
  ProjectLink, LinkStore, rejected, Decision, undecided, approved, confirmed, corrected, undone,
  is_current, is_current_of, same_id, has_link_id, current_project_link, update_link,
}
use workgraph.Links.Review.{same_state}
use workgraph.Links.Rows.{IsWellFormed, find_link-only, find_link-All, decide-IsWellFormed}
use workgraph.Links.Write.{decide_project_link, decided_row, insert_project_link}
use workgraph.Relink.{ProjectRelinkChange, is_undecided}
use workgraph.Relink.Apply.{is_same_link, superseded_link, supersede}

-- Some change was planned for this link.
abbrev pub plans : Option ProjectLink → ProjectLink → Bool
plans none link = false
plans (some planned) link = same_id link.id planned.id && same_state link.state planned.state

unfoldable pub is_planned : List ProjectRelinkChange → ProjectLink → Bool
is_planned [] link = false
is_planned (change ∷ changes) link = plans change.current link || is_planned changes link

-- A link that a change superseded: it was current and undecided, and is rejected with no decision.
pub record IsSuperseded (now : ℕ) (changes : List ProjectRelinkChange) (l m : ProjectLink)
    : Type 0 where
  pub was_current : is_current l.state ≡ true
  pub was_undecided : l.decision ≡ undecided
  pub planned : is_planned changes l ≡ true
  pub result : m ≡ superseded_link now l

abbrev pub Became : ℕ → List ProjectRelinkChange → ProjectLink → ProjectLink → Type 0
Became now changes l m = (m ≡ l) ⊎ IsSuperseded now changes l m

-- Each link is as it was or superseded, and new ones are at the end.
abbrev pub Replaced : ℕ → List ProjectRelinkChange → List ProjectLink → List ProjectLink → Type 0
Replaced now changes [] ys = Unit
Replaced now changes (x ∷ xs) [] = ⊥
Replaced now changes (x ∷ xs) (y ∷ ys) = Became now changes x y × Replaced now changes xs ys

undecided-of : (d : Decision) → is_undecided d ≡ true → d ≡ undecided
undecided-of undecided h = refl
undecided-of approved h = absurd (cc h)
undecided-of confirmed h = absurd (cc h)
undecided-of corrected h = absurd (cc h)
undecided-of undone h = absurd (cc h)

current-of :
    (unit : String) (link : ProjectLink)
    → is_current_of unit link ≡ true
    → is_current link.state ≡ true
unfolding is_current_of
current-of unit link h = (and-eq-true (link.unit_id == unit) (is_current link.state) h).1

module _ (now : ℕ) (changes : List ProjectRelinkChange) where
  pub Replaced-refl : (xs : List ProjectLink) → Replaced now changes xs xs
  Replaced-refl [] = tt
  Replaced-refl (x ∷ xs) = (inl refl, Replaced-refl xs)

  Replaced-append : (xs ys : List ProjectLink) → Replaced now changes xs (xs ++ ys)
  Replaced-append [] ys = tt
  Replaced-append (x ∷ xs) ys = (inl refl, Replaced-append xs ys)

  Became-trans :
      (l m n : ProjectLink)
      → Became now changes l m
      → Became now changes m n
      → Became now changes l n
  unfolding superseded_link
  Became-trans l m n (inl p) (inl q) = inl (q ∙ p)
  Became-trans l m n (inr p) (inl q) = inr (record {
    was_current = p.was_current;
    was_undecided = p.was_undecided;
    planned = p.planned;
    result = q ∙ p.result;
  })
  Became-trans l m n (inl p) (inr q) = inr (subst (λ x. IsSuperseded now changes x n) p q)
  Became-trans l m n (inr p) (inr q) =
      let gone : m.state ≡ rejected = ap (λ x. x.state) p.result in
      absurd (cc (sym (ap (λ s. is_current s) gone) ∙ q.was_current))

  pub Replaced-trans :
      (xs ys zs : List ProjectLink)
      → Replaced now changes xs ys
      → Replaced now changes ys zs
      → Replaced now changes xs zs
  Replaced-trans [] ys zs p q = tt
  Replaced-trans (x ∷ xs) [] zs p q = absurd p
  Replaced-trans (x ∷ xs) (y ∷ ys) [] p q = absurd q
  Replaced-trans (x ∷ xs) (y ∷ ys) (z ∷ zs) p q =
      (Became-trans x y z p.0 q.0, Replaced-trans xs ys zs p.1 q.1)

  decided-IsSuperseded :
      (current l : ProjectLink)
      → is_current current.state ≡ true
      → current.decision ≡ undecided
      → is_planned changes current ≡ true
      → l ≡ current
      → IsSuperseded now changes l (decided_row (superseded_link now current) l)
  unfolding decided_row superseded_link
  decided-IsSuperseded current l c u p same =
      subst (λ x. IsSuperseded now changes x (decided_row (superseded_link now current) x))
        (sym same) (record { was_current = c; was_undecided = u; planned = p; result = refl })

  decided-Replaced :
      (current : ProjectLink) (links : List ProjectLink)
      → is_current current.state ≡ true
      → current.decision ≡ undecided
      → is_planned changes current ≡ true
      → All (λ l. has_link_id current.id l ≡ true → l ≡ current) links
      → Replaced now changes links
          (update_link current.id (decided_row (superseded_link now current)) links)
  unfolding update_link decided_row superseded_link
  decided-Replaced current [] c u p only = tt
  decided-Replaced current (l ∷ links) c u p only = elim (Bool-cases (has_link_id current.id l)) [
    | inl k ↦ rw k (
      inr (decided-IsSuperseded current l c u p (only.0 k)),
      decided-Replaced current links c u p only.1,
    )
    | inr k ↦ rw k (inl refl, decided-Replaced current links c u p only.1)
  ]

  -- The link that a change was planned for is planned.
  same-planned :
      (current planned : ProjectLink)
      → is_same_link current planned ≡ true
      → (plans (some planned) current ≡ true) × (current.decision ≡ undecided)
  unfolding is_same_link
  same-planned current planned h = (ground arith, undecided-of current.decision (ground arith))

  pub supersede-Replaced :
      (unit : String) (change : Option ProjectLink) (o : Option ProjectLink) (store : LinkStore)
      → current_project_link unit store ≡ o
      → ((link : ProjectLink) → plans change link ≡ true → is_planned changes link ≡ true)
      → IsWellFormed store
      → Replaced now changes store.links (supersede now o change store).0.links
        × IsWellFormed (supersede now o change store).0
  unfolding supersede current_project_link decide_project_link superseded_link
  supersede-Replaced unit none none store e among w = (Replaced-refl store.links, w)
  supersede-Replaced unit none (some current) store e among w = (Replaced-refl store.links, w)
  supersede-Replaced unit (some planned) none store e among w = (Replaced-refl store.links, w)
  supersede-Replaced unit (some planned) (some current) store e among w =
      let only = find_link-only _ store.links current w.distinct e in
      let (always, held) =
        find_link-All (is_current_of unit) (λ l. Unit {0}) store.links
          (All-always _ (λ l. tt) store.links) e in
      elim (Bool-cases (is_same_link current planned)) [
        | inl k ↦
            let (plan, free) = same-planned current planned k in
            rw k (
              decided-Replaced current store.links (current-of unit current held) free
                  (among current plan) only,
              decide-IsWellFormed (superseded_link now current) store w
                  (All-always _ (λ l g c. absurd (cc c)) store.links),
            )
        | inr k ↦ rw k (Replaced-refl store.links, w)
      ]

  pub insert-Replaced :
      (is_format : ℕ → Bool) (link : ProjectLink) (store : LinkStore)
      → Ensures
          (λ r. Replaced now changes store.links r.0.links)
          (insert_project_link is_format now link store)
  unfolding insert_project_link
  insert-Replaced is_format link store =
      Ensures-after _
        (λ valid. Ensures-guard _ _ _ (λ free. returns _ (Replaced-append store.links _)))

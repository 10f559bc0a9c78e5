-- ===== src/Relink/Relinked.antt =====
-- What a relinking and a recheck leave of the links.
use Prim.Native.String.{◌++◌ as text_append}
use workgraph.Common.{
  ℕ, zero, suc, ◌+◌, ◌≤◌, ◌<◌, String, Bool, true, false, ◌≡◌, refl, sym, subst, ◌⊎◌, none, List,
  [], ◌∷◌, All, inl, inr, arith, ok, returns, Ensures-bind, Ensures-ok, length, take, drop,
}
use workgraph.Links.{ProjectLink, undecided, is_current}
use workgraph.Links.Rows.{IsWellFormed, Distinct}
use workgraph.Accuracy.{Database, AutoApplyThresholds}
use workgraph.Relink.{ProjectRelinkChange, ProjectRelinkState}
use workgraph.Relink.Apply.{
  superseded_link, batches, left_over, RelinkOutcome, apply_project_relink_changes,
  project_link_batch_size,
}
use workgraph.Relink.Containers.{
  ProjectContainerRelink, relink_project_containers, recheck_project_proposals,
}
use workgraph.Relink.Superseded.{is_planned, Became, Replaced}
use workgraph.Relink.Batches.{Moves, AreAmong, Outcome, apply_batches-Outcome}
use workgraph.Relink.Planned.{
  is_relinkable, IsAllowed, container_changes-IsAllowed, recheck_changes-IsAllowed,
  is_planned-relinkable,
}

is_planned-take :
    (n : ℕ) (xs : List ProjectRelinkChange) (l : ProjectLink)
    → is_planned (take n xs) l ≡ true
    → is_planned xs l ≡ true
unfolding is_planned
is_planned-take zero xs l h = absurd (cc h)
is_planned-take (suc n) [] l h = h
is_planned-take (suc n) (x ∷ xs) l h = ground (arith, is_planned-take n xs l)

is_planned-drop :
    (n : ℕ) (xs : List ProjectRelinkChange) (l : ProjectLink)
    → is_planned (drop n xs) l ≡ true
    → is_planned xs l ≡ true
unfolding is_planned
is_planned-drop zero xs l h = h
is_planned-drop (suc n) [] l h = h
is_planned-drop (suc n) (x ∷ xs) l h = ground (arith, is_planned-drop n xs l)

batches-AreAmong :
    (now : ℕ) (all : List ProjectRelinkChange) (size fuel : ℕ) (xs : List ProjectRelinkChange)
    → ((l : ProjectLink) → is_planned xs l ≡ true → is_planned all l ≡ true)
    → All (AreAmong now all) (batches size fuel xs)
unfolding batches AreAmong
batches-AreAmong now all size zero xs a = tt
batches-AreAmong now all size (suc fuel) [] a = tt
batches-AreAmong now all size (suc fuel) (x ∷ xs) a = (
  λ l h. a l (is_planned-take size (x ∷ xs) l h),
  batches-AreAmong now all size fuel (drop size (x ∷ xs))
      (λ l h. a l (is_planned-drop size (x ∷ xs) l h)),
)

length-take-drop {ℓ} :
    {A : Type ℓ} (n : ℕ) (xs : List A) → length (take n xs) + length (drop n xs) ≡ length xs
length-take-drop zero xs = omega arith
length-take-drop (suc n) [] = omega arith
length-take-drop (suc n) (x ∷ xs) = omega (arith, length-take-drop n xs)

length-drop-le {ℓ} : {A : Type ℓ} (n : ℕ) (xs : List A) → length (drop n xs) ≤ length xs
length-drop-le n xs = omega (arith, length-take-drop n xs)

-- No change is left out of the batches.
left_over-batches :
    (size fuel : ℕ) (xs : List ProjectRelinkChange)
    → 0 < size
    → length xs ≤ fuel
    → left_over (batches size fuel xs) ≡ length xs
unfolding batches
left_over-batches size zero [] p h = refl
left_over-batches size zero (x ∷ xs) p h = absurd (omega arith)
left_over-batches size (suc fuel) [] p h = refl
left_over-batches zero (suc fuel) (x ∷ xs) p h = absurd (omega arith)
left_over-batches (suc n) (suc fuel) (x ∷ xs) p h =
    let shorter = length-drop-le n xs in
    let rest = left_over-batches (suc n) fuel (drop n xs) p (omega arith) in
    let parts = length-take-drop n xs in omega arith

-- A link that a relinking superseded: it was current, nobody decided on it, and it was a deterministic
-- link by a container's mapping or a proposal of a model that was not undone.
pub record IsRelinked (now : ℕ) (links : List ProjectLink) (l m : ProjectLink) : Type 0 where
  pub was_current : is_current l.state ≡ true
  pub was_undecided : l.decision ≡ undecided
  pub relinkable : is_relinkable links l ≡ true
  pub result : m ≡ superseded_link now l

-- Each link is as it was or superseded, and new ones are at the end.
abbrev pub AreRelinked : ℕ → List ProjectLink → List ProjectLink → List ProjectLink → Type 0
AreRelinked now links [] ys = Unit
AreRelinked now links (x ∷ xs) [] = ⊥
AreRelinked now links (x ∷ xs) (y ∷ ys) =
    ((y ≡ x) ⊎ IsRelinked now links x y) × AreRelinked now links xs ys

module _ (now : ℕ) (changes : List ProjectRelinkChange) (links : List ProjectLink) where
  Became-IsRelinked :
      (x y : ProjectLink)
      → (is_planned changes x ≡ true → is_relinkable links x ≡ true)
      → Became now changes x y
      → (y ≡ x) ⊎ IsRelinked now links x y
  Became-IsRelinked x y may (inl e) = inl e
  Became-IsRelinked x y may (inr s) = inr (record {
    was_current = s.was_current;
    was_undecided = s.was_undecided;
    relinkable = may s.planned;
    result = s.result;
  })

  Replaced-AreRelinked :
      (xs ys : List ProjectLink)
      → All (λ l. is_planned changes l ≡ true → is_relinkable links l ≡ true) xs
      → Replaced now changes xs ys
      → AreRelinked now links xs ys
  Replaced-AreRelinked [] ys may r = tt
  Replaced-AreRelinked (x ∷ xs) [] may r = r
  Replaced-AreRelinked (x ∷ xs) (y ∷ ys) may r =
      (Became-IsRelinked x y may.0 r.0, Replaced-AreRelinked xs ys may.1 r.1)

-- What a command leaves, by the changes that it planned.
abbrev pub LeavesLinks : ℕ → Database → RelinkOutcome → Type 0
LeavesLinks now db outcome =
    AreRelinked now db.store.links db.store.links outcome.db.store.links
    × IsWellFormed outcome.db.store
    × (outcome.failure ≡ none → outcome.unfinished ≡ 0)

module _ (is_format : ℕ → Bool) (now : ℕ) (thresholds : AutoApplyThresholds) (drawn : String)
    (db : Database) (w : IsWellFormed db.store) where
  apply_changes-LeavesLinks :
      (changes : List ProjectRelinkChange)
      → All (IsAllowed db.store.links) changes
      → LeavesLinks now db (apply_project_relink_changes is_format now thresholds drawn changes db)
        × (length (apply_project_relink_changes is_format now thresholds drawn changes db).done
              + (apply_project_relink_changes is_format now thresholds drawn changes db).unfinished
            ≤ length changes)
  unfolding apply_project_relink_changes Outcome Moves
  apply_changes-LeavesLinks changes allowed =
      let parts = batches project_link_batch_size (length changes) changes in
      let known : Outcome now changes is_format db.store (0 + left_over parts)
          (apply_project_relink_changes is_format now thresholds drawn changes db) =
        apply_batches-Outcome now changes is_format thresholds (text_append "run_" drawn) parts db
          [] false
          (batches-AreAmong now changes project_link_batch_size (length changes) changes (λ l h. h))
          w in
      let total =
        left_over-batches project_link_batch_size (length changes) changes (omega arith)
          (omega arith) in
      let bound : length
              (apply_project_relink_changes is_format now thresholds drawn changes db).done
            + (apply_project_relink_changes is_format now thresholds drawn changes db).unfinished
          ≤ 0 + left_over parts =
        known.1 in
      (
        (
          Replaced-AreRelinked now changes db.store.links db.store.links _
              (is_planned-relinkable db.store.links changes allowed) known.0.0,
          known.0.1,
          known.2,
        ),
        omega arith,
      )

  module _ (state : ProjectRelinkState) (read : state.links ≡ db.store.links) where
    read-Distinct : Distinct state.links
    read-Distinct = subst Distinct (sym read) w.distinct

    -- A relinking by well-formed links as they are in the store leaves each link as it was, or supersedes
    -- it: then it was current, nobody had decided on it, and it was a deterministic link by its
    -- container's mapping, applied by itself, or a proposal of a model for a unit with no undone link;
    -- and it is rejected with no decision. New links stand at the end, the links are well formed still,
    -- and where nothing failed no change is left over.
    pub relink_project_containers_lem :
        (containers : List String) (outcome : RelinkOutcome) (rows : List ProjectContainerRelink)
        → relink_project_containers is_format now thresholds drawn state containers db
          ≡ ok (outcome, rows)
        → LeavesLinks now db outcome
    unfolding relink_project_containers
    relink_project_containers_lem containers outcome rows e =
        Ensures-ok {P = λ r. LeavesLinks now db r.0}
          (Ensures-bind _ (container_changes-IsAllowed state read-Distinct containers state.units)
            (λ changes a.
              returns _
                (apply_changes-LeavesLinks changes
                  (subst (λ ls. All (IsAllowed ls) changes) read a)).0))
          e

    -- The same of a recheck.
    pub recheck_project_proposals-LeavesLinks :
        (outcome : RelinkOutcome)
        → recheck_project_proposals is_format now thresholds drawn state db ≡ ok outcome
        → LeavesLinks now db outcome
    unfolding recheck_project_proposals
    recheck_project_proposals-LeavesLinks outcome e =
        Ensures-ok {P = LeavesLinks now db}
          (Ensures-bind _ (recheck_changes-IsAllowed state read-Distinct state.units) (λ changes a.
            returns _
              (apply_changes-LeavesLinks changes
                (subst (λ ls. All (IsAllowed ls) changes) read a)).0))
          e

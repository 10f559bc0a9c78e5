-- ===== src/Links/Rows.antt =====
-- What holds of the rows of project_links, and what an insert or a decision keeps of it.
use workgraph.Common.{
  ℕ, ◌<◌, ◌≡◌, refl, Bool, true, false, ◌&&◌, ◌||◌, some, List, [], ◌∷◌, ◌++◌, ◌==◌, arith, inl,
  inr, Bool-cases, All, All-mono, All-append, if◌then◌else◌, Ensures, returns, Ensures-guard,
  Ensures-after,
}
use workgraph.Links.{
  ProjectLink, LinkStore, is_current, same_id, has_link_id, find_link, is_current_of, update_link,
}
use workgraph.Links.Write.{
  taken_unit, written_link, insert_project_link, decided_row, decide_project_link,
}

-- Two links that the primary key or the index on current links forbids beside each other
unfoldable pub clash : ProjectLink → ProjectLink → Bool
clash l m = same_id l.id m.id || is_current l.state && is_current m.state && l.unit_id == m.unit_id

abbrev pub Distinct : List ProjectLink → Type 0
Distinct [] = Unit
Distinct (l ∷ links) = All (λ m. clash l m ≡ false) links × Distinct links

-- The keys differ and are drawn, and no unit has two current links.
pub record IsWellFormed (store : LinkStore) : Type 0 where
  pub distinct : Distinct store.links
  pub drawn : All (λ l. l.id < store.next_id) store.links

-- A change that keeps the key and the unit, and makes no link current that was not.
pub record Keeps (l m : ProjectLink) : Type 0 where
  pub id : m.id ≡ l.id
  pub unit : m.unit_id ≡ l.unit_id
  pub current : is_current m.state ≡ true → is_current l.state ≡ true

Keeps-refl : (l : ProjectLink) → Keeps l l
Keeps-refl l = record { id = refl; unit = refl; current = λ h. h }

clash-Keeps :
    (l l' m m' : ProjectLink) → Keeps l l' → Keeps m m' → clash l m ≡ false → clash l' m' ≡ false
unfolding clash
clash-Keeps l l' m m' a b h =
    rw (a.id, a.unit, b.id, b.unit) (ground (arith, h, a.current, b.current))

module _ (key : ℕ) (f : ProjectLink → ProjectLink) where
  -- The change is within the rules on the row of the key.
  abbrev pub KeepsAt : List ProjectLink → Type 0
  KeepsAt links = All (λ l. has_link_id key l ≡ true → Keeps l (f l)) links

  changed-Keeps :
      (l : ProjectLink)
      → (has_link_id key l ≡ true → Keeps l (f l))
      → Keeps l (if has_link_id key l then f l else l)
  changed-Keeps l h = elim (Bool-cases (has_link_id key l)) [
    | inl e ↦ rw e (h e)
    | inr e ↦ rw e (Keeps-refl l)
  ]

  apart-update :
      (l l' : ProjectLink) (links : List ProjectLink)
      → Keeps l l'
      → KeepsAt links
      → All (λ m. clash l m ≡ false) links
      → All (λ m. clash l' m ≡ false) (update_link key f links)
  unfolding update_link
  apart-update l l' [] a k h = tt
  apart-update l l' (m ∷ links) a k h =
      (clash-Keeps l l' m _ a (changed-Keeps m k.0) h.0, apart-update l l' links a k.1 h.1)

  update_link-Distinct :
      (links : List ProjectLink)
      → KeepsAt links
      → Distinct links
      → Distinct (update_link key f links)
  unfolding update_link
  update_link-Distinct [] k d = tt
  update_link-Distinct (l ∷ links) k d =
      (apart-update l _ links (changed-Keeps l k.0) k.1 d.0, update_link-Distinct links k.1 d.1)

  update_link-drawn :
      (n : ℕ) (links : List ProjectLink)
      → KeepsAt links
      → All (λ l. l.id < n) links
      → All (λ l. l.id < n) (update_link key f links)
  unfolding update_link
  update_link-drawn n [] k d = tt
  update_link-drawn n (l ∷ links) k d =
      (rw (changed-Keeps l k.0).id d.0, update_link-drawn n links k.1 d.1)

  pub update_link-IsWellFormed :
      (store : LinkStore)
      → KeepsAt store.links
      → IsWellFormed store
      → IsWellFormed (record store { links = update_link key f store.links })
  update_link-IsWellFormed store k w = record {
    distinct = update_link-Distinct store.links k w.distinct;
    drawn = update_link-drawn store.next_id store.links k w.drawn;
  }

-- A row that a query finds is among the rows, and passes its test.
pub find_link-All :
    (p : ProjectLink → Bool) (P : ProjectLink → Type 0) (links : List ProjectLink) {r : ProjectLink}
    → All P links
    → find_link p links ≡ some r
    → P r × (p r ≡ true)
unfolding find_link
find_link-All p P [] a e = absurd (cc e)
find_link-All p P (x ∷ links) {r} a e = elim (Bool-cases (p x)) [
  | inl h ↦ (let same : x ≡ r = ground arith in rw (← same) (a.0, h))
  | inr h ↦ find_link-All p P links a.1 (ground arith)
]

pub no_twin : (x m : ProjectLink) → clash x m ≡ false → has_link_id x.id m ≡ true → ⊥
unfolding clash
no_twin x m apart k = ground arith

pub no_twin_after : (x r : ProjectLink) → clash x r ≡ false → has_link_id r.id x ≡ true → ⊥
unfolding clash
no_twin_after x r apart k = ground arith

-- A row with the key of one that a query found is that row.
pub find_link-only :
    (p : ProjectLink → Bool) (links : List ProjectLink) (r : ProjectLink)
    → Distinct links
    → find_link p links ≡ some r
    → All (λ l. has_link_id r.id l ≡ true → l ≡ r) links
unfolding find_link
find_link-only p [] r d e = tt
find_link-only p (x ∷ links) r d e = elim (Bool-cases (p x)) [
  | inl h ↦
      let same : x ≡ r = ground arith in
      ((λ k. same), All-mono _ _ (λ m apart k. absurd (no_twin x m apart (rw same k))) links d.0)
  | inr h ↦ (
    (λ k. absurd (no_twin_after x r (find_link-All p _ links d.0 (ground arith)).0 k)),
    find_link-only p links r d.1 (ground arith),
  )
]

-- An insert draws a key above the others, for a unit with no current link or a link that is none.
Distinct-append :
    (w : ProjectLink) (links : List ProjectLink)
    → Distinct links
    → All (λ l. clash l w ≡ false) links
    → Distinct (links ++ w ∷ [])
Distinct-append w [] d a = (tt, tt)
Distinct-append w (l ∷ links) d a =
    (All-append _ links (w ∷ []) d.0 (a.0, tt), Distinct-append w links d.1 a.1)

fresh-apart :
    (w : ProjectLink) (links : List ProjectLink)
    → All (λ l. l.id < w.id) links
    → (is_current w.state && taken_unit w.unit_id links) ≡ false
    → All (λ l. clash l w ≡ false) links
unfolding clash taken_unit is_current_of
fresh-apart w [] a h = tt
fresh-apart w (l ∷ links) a h =
    (ground (arith, h, a.0), fresh-apart w links a.1 (ground (arith, h)))

pub insert-IsWellFormed :
    (is_format : ℕ → Bool) (now : ℕ) (link : ProjectLink) (store : LinkStore)
    → IsWellFormed store
    → Ensures (λ r. IsWellFormed r.0) (insert_project_link is_format now link store)
unfolding insert_project_link written_link
insert-IsWellFormed is_format now link store w = Ensures-after _ λ valid.
    Ensures-guard _ _ _ λ free. returns _ (record {
      distinct =
          Distinct-append (written_link is_format store.next_id now link) store.links w.distinct (
            fresh-apart (written_link is_format store.next_id now link) store.links w.drawn
              (ground (arith, free)));
      drawn =
          All-append _ store.links (_ ∷ [])
            (All-mono _ _ (λ l h. omega (arith, h)) store.links w.drawn) (omega arith, tt);
    })

-- A decision that rejects, or whose link was current, keeps the rows well formed.
pub decide-IsWellFormed :
    (link : ProjectLink) (store : LinkStore)
    → IsWellFormed store
    → All
        (λ l.
          has_link_id link.id l ≡ true → is_current link.state ≡ true → is_current l.state ≡ true)
        store.links
    → IsWellFormed (decide_project_link link store)
unfolding decide_project_link decided_row
decide-IsWellFormed link store w may =
    update_link-IsWellFormed link.id (decided_row link) store
      (All-mono _ _ (λ l h k. record { id = refl; unit = refl; current = h k }) store.links may) w

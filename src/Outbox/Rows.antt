-- ===== src/Outbox/Rows.antt =====
-- What holds of the rows of capture_requests, and what an update or an insert keeps of it.
use workgraph.Common.{
  ◌≤◌, ◌≡◌, refl, Bool, true, false, Option, none, some, List, [], ◌∷◌, ◌++◌, ok, arith, eq_iff,
  inl, inr, Bool-cases, All, All-append, if◌then◌else◌, ap, ◌∙◌,
}
use workgraph.Outbox.{Request, Status, claimed, is_active, update, insert, conflicts, conflicts_any}

abbrev pub present {ℓ} : {A : Type ℓ} → Option A → Bool
present none = false
present (some a) = true

-- What the columns of a claim hold, by the status of their row.
abbrev pub ClaimColumns : Status → Request → Type 0
ClaimColumns claimed r =
    (present r.claim_token ≡ true)
    × (present r.claimed_by ≡ true)
    × (present r.claimed_at ≡ true)
    × (present r.lease_expires_at ≡ true)
    × (1 ≤ r.attempts)
ClaimColumns _ r = (r.claim_token ≡ none) × (r.lease_expires_at ≡ none)

abbrev pub IsSound : Request → Type 0
IsSound r = ClaimColumns r.status r

-- No two rows that the unique indices forbid: the ids differ, and no two active rows are of one
-- connector.
abbrev pub Distinct : List Request → Type 0
Distinct [] = Unit
Distinct (r ∷ rs) = All (λ s. conflicts r s ≡ false) rs × Distinct rs

pub record IsWellFormed (rows : List Request) : Type 0 where
  pub distinct : Distinct rows
  pub sound : All IsSound rows

-- What a row may become: it keeps its identity, its window's start and its attempts so far, brings
-- no conflict, and is the same row once it is completed or cancelled.
pub record Follows (r s : Request) : Type 0 where
  pub same_id : s.id ≡ r.id
  pub same_connector : s.connector_id ≡ r.connector_id
  pub same_kind : s.kind ≡ r.kind
  pub same_since : s.since ≡ r.since
  pub same_created : s.created_at ≡ r.created_at
  pub attempts_kept : r.attempts ≤ s.attempts
  pub no_wider : is_active s.status ≡ true → is_active r.status ≡ true
  pub settled_kept : is_active r.status ≡ false → s ≡ r

pub Follows-refl : (r : Request) → Follows r r
Follows-refl r = record {
  same_id = refl;
  same_connector = refl;
  same_kind = refl;
  same_since = refl;
  same_created = refl;
  attempts_kept = omega arith;
  no_wider = λ h. h;
  settled_kept = λ h. refl;
}

pub Follows-trans : (r s t : Request) → Follows r s → Follows s t → Follows r t
Follows-trans r s t a b = record {
  same_id = cc;
  same_connector = cc;
  same_kind = cc;
  same_since = cc;
  same_created = cc;
  attempts_kept = omega arith;
  no_wider = λ h. a.no_wider (b.no_wider h);
  settled_kept = λ h.
      let kept = a.settled_kept h in
      b.settled_kept (ap (λ (x : Request). is_active x.status) kept ∙ h) ∙ kept;
}

conflicts-Follows :
    (r r' s s' : Request)
    → Follows r r'
    → Follows s s'
    → conflicts r s ≡ false
    → conflicts r' s' ≡ false
unfolding conflicts
conflicts-Follows r r' s s' a b h =
    rw (a.same_id, a.same_connector, b.same_id, b.same_connector) (ground arith)

conflicts_comm : (r s : Request) → conflicts r s ≡ false → conflicts s r ≡ false
unfolding conflicts
conflicts_comm r s h = ground (
  arith,
  eq_iff r.id s.id,
  eq_iff s.id r.id,
  eq_iff r.connector_id s.connector_id,
  eq_iff s.connector_id r.connector_id,
)

-- An update whose change is within the conflict rules and keeps rows sound.
abbrev pub KeepsRows : (Request → Bool) → (Request → Request) → Type 0
KeepsRows p f = (r : Request) → p r ≡ true → Follows r (f r) × (IsSound r → IsSound (f r))

module _ (p : Request → Bool) (f : Request → Request) (keeps : KeepsRows p f) where
  pub changed-Follows : (r : Request) → Follows r (if p r then f r else r)
  changed-Follows r = elim (Bool-cases (p r)) [
    | inl e ↦ rw e (keeps r e).0
    | inr e ↦ rw e (Follows-refl r)
  ]

  changed-IsSound : (r : Request) → IsSound r → IsSound (if p r then f r else r)
  changed-IsSound r s = elim (Bool-cases (p r)) [ inl e ↦ rw e ((keeps r e).1 s) | inr e ↦ rw e s ]

  apart-update :
      (r r' : Request) (rows : List Request)
      → Follows r r'
      → All (λ s. conflicts r s ≡ false) rows
      → All (λ s. conflicts r' s ≡ false) (update p f rows)
  unfolding update
  apart-update r r' [] a h = tt
  apart-update r r' (s ∷ rows) a h =
      (conflicts-Follows r r' s _ a (changed-Follows s) h.0, apart-update r r' rows a h.1)

  update-Distinct : (rows : List Request) → Distinct rows → Distinct (update p f rows)
  unfolding update
  update-Distinct [] d = tt
  update-Distinct (r ∷ rows) d =
      (apart-update r _ rows (changed-Follows r) d.0, update-Distinct rows d.1)

  update-IsSound : (rows : List Request) → All IsSound rows → All IsSound (update p f rows)
  unfolding update
  update-IsSound [] d = tt
  update-IsSound (r ∷ rows) d = (changed-IsSound r d.0, update-IsSound rows d.1)

  pub update-IsWellFormed :
      (rows : List Request) → IsWellFormed rows → IsWellFormed (update p f rows)
  update-IsWellFormed rows w = record {
    distinct = update-Distinct rows w.distinct;
    sound = update-IsSound rows w.sound;
  }

Distinct-append :
    (r : Request) (rows : List Request)
    → conflicts_any r rows ≡ false
    → Distinct rows
    → Distinct (rows ++ r ∷ [])
unfolding conflicts_any
Distinct-append r [] h d = (tt, tt)
Distinct-append r (s ∷ rows) h d = (
  All-append (λ x. conflicts s x ≡ false) rows (r ∷ []) d.0 (conflicts_comm r s (ground arith), tt),
  Distinct-append r rows (ground arith) d.1,
)

pub insert-eq-ok :
    (r : Request) (rows after : List Request)
    → insert r rows ≡ ok after
    → (conflicts_any r rows ≡ false) × (rows ++ r ∷ [] ≡ after)
unfolding insert
insert-eq-ok r rows after h = ground arith

pub insert-IsWellFormed :
    (r : Request) (rows after : List Request)
    → insert r rows ≡ ok after
    → IsSound r
    → IsWellFormed rows
    → IsWellFormed after
insert-IsWellFormed r rows after h s w =
    let (free, shape) = insert-eq-ok r rows after h in
    rw (← shape) (record {
      distinct = Distinct-append r rows free w.distinct;
      sound = All-append IsSound rows (r ∷ []) w.sound (s, tt);
    })

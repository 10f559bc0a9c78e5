-- ===== src/Outbox/Expiry.antt =====
-- Recycling, row by row: a claim whose lease has run out is put back, and every other row is kept.
use workgraph.Common.{
  ℕ, ◌+◌, String, ◌≡◌, refl, Bool, true, false, ◌&&◌, ◌||◌, some, List, [], ◌∷◌, arith, eq_iff,
  eq_refl, Bool-cases, inl, inr, All, All-mono, select, if◌then◌else◌,
}
use workgraph.Clock.{format}
use workgraph.Retry.{retry_initial, retry_max, connector_retry_delay}
use workgraph.Outbox.{Request, has_id, is_claimed, find, update}
use workgraph.Outbox.Rows.{Distinct, KeepsRows}
use workgraph.Outbox.Evolution.{find-update}
use workgraph.Outbox.Single.{find-update_passed, same_id-conflicts}
use workgraph.Outbox.Holder.{find-has_id}
use workgraph.Outbox.Invariant.Updates.{requeue-KeepsRows}
use workgraph.Outbox.Recycle.{requeue, has_expired, requeue_each, recycle_expired_capture_claims}

-- A claim put back, with the delay of its attempts.
abbrev pub expired_row : ℕ → Request → Request
expired_row now r =
    requeue (format (now + connector_retry_delay retry_initial retry_max r.attempts))
      "claim lease expired" r

module _ (now : ℕ) (id : String) where
  abbrev hit : Request → Request → Bool
  hit c r = has_id c.id r && is_claimed r.status

  -- The update for one listed claim.
  abbrev put_back : Request → Request → Request
  put_back c =
      requeue (format (now + connector_retry_delay retry_initial retry_max c.attempts))
        "claim lease expired"

  put_back-KeepsRows : (c : Request) → KeepsRows (hit c) (put_back c)
  put_back-KeepsRows c = requeue-KeepsRows (hit c) _ _ (λ r h. ground arith)

  update-missed :
      (c : Request) (rows : List Request) (r : Request)
      → find (has_id id) rows ≡ some r
      → hit c r ≡ false
      → find (has_id id) (update (hit c) (put_back c) rows) ≡ some r
  update-missed c rows r found off =
      let here = find-update (hit c) (put_back c) (put_back-KeepsRows c) id rows r found in
      rw (here, off) refl

  requeue_each-unclaimed :
      (claims rows : List Request) (r : Request)
      → find (has_id id) rows ≡ some r
      → is_claimed r.status ≡ false
      → find (has_id id) (requeue_each now claims rows) ≡ some r
  unfolding requeue_each
  requeue_each-unclaimed [] rows r found off = found
  requeue_each-unclaimed (c ∷ claims) rows r found off =
      requeue_each-unclaimed claims _ r (update-missed c rows r found (ground (arith, off))) off

  -- What is known of the listed claims: the one under the id is the row.
  AreOf : Request → List Request → Type 0
  AreOf r claims = All (λ c. has_id id c ≡ true → c ≡ r) claims

  any_of : List Request → Bool
  any_of [] = false
  any_of (c ∷ claims) = has_id id c || any_of claims

  requeue_each-row :
      (claims rows : List Request) (r : Request)
      → AreOf r claims
      → find (has_id id) rows ≡ some r
      → is_claimed r.status ≡ true
      → find (has_id id) (requeue_each now claims rows)
        ≡ some (if any_of claims then expired_row now r else r)
  unfolding requeue_each any_of AreOf
  requeue_each-row [] rows r of found on = found
  requeue_each-row (c ∷ claims) rows r of found on = elim (Bool-cases (has_id id c)) [
    | inl e ↦
        let same = of.0 e in
        rw (e, same)
          (requeue_each-unclaimed claims _ (expired_row now r)
            (find-update_passed id (hit r) (put_back r) rows r (put_back-KeepsRows r) found
              (rw (eq_refl r.id, on) refl))
            refl)
    | inr e ↦ rw e (
        requeue_each-row claims _ r of.1
          (update-missed c rows r found (
            let named = find-has_id id rows r found in
            ground (arith, eq_iff r.id c.id, eq_iff c.id id, named)))
          on)
  ]

  rows-AreOf :
      (rows : List Request) (r : Request)
      → Distinct rows
      → find (has_id id) rows ≡ some r
      → AreOf r rows
  unfolding AreOf find
  rows-AreOf [] r d found = tt
  rows-AreOf (x ∷ rows) r d found = elim (Bool-cases (has_id id x)) [
    | inl e ↦
        let same : x ≡ r = ground arith in
        (
          (λ h. same),
          All-mono _ _ (λ c apart h. absurd (same_id-conflicts id x c e h apart)) rows d.0,
        )
    | inr e ↦ ((λ h. absurd (cc (h, e))), rows-AreOf rows r d.1 (ground arith))
  ]

  select-AreOf :
      (p : Request → Bool) (rows : List Request) (r : Request)
      → AreOf r rows
      → AreOf r (select p rows)
  unfolding AreOf
  select-AreOf p [] r of = tt
  select-AreOf p (x ∷ rows) r of = elim (Bool-cases (p x)) [
    | inl e ↦ rw e (of.0, select-AreOf p rows r of.1)
    | inr e ↦ rw e (select-AreOf p rows r of.1)
  ]

  any_of-select_none :
      (p : Request → Bool) (rows : List Request) (r : Request)
      → AreOf r rows
      → p r ≡ false
      → any_of (select p rows) ≡ false
  unfolding AreOf any_of
  any_of-select_none p [] r of off = refl
  any_of-select_none p (x ∷ rows) r of off = elim (Bool-cases (p x)) [
    | inr e ↦ rw e (any_of-select_none p rows r of.1 off)
    | inl e ↦ elim (Bool-cases (has_id id x)) [
      | inl h ↦ absurd (let same = of.0 h in cc (same, e, off))
      | inr h ↦ rw (e, h) (any_of-select_none p rows r of.1 off)
    ]
  ]

  any_of-select :
      (p : Request → Bool) (rows : List Request) (r : Request)
      → AreOf r rows
      → find (has_id id) rows ≡ some r
      → any_of (select p rows) ≡ p r
  unfolding AreOf any_of find
  any_of-select p [] r of found = absurd (cc found)
  any_of-select p (x ∷ rows) r of found = elim (Bool-cases (has_id id x)) [
    | inl h ↦
        let same : x ≡ r = ground arith in
        elim (Bool-cases (p r)) [
          | inl e ↦ rw (same, e) (rw (← same, h) refl)
          | inr e ↦ rw (same, e) (any_of-select_none p rows r of.1 e)
        ]
    | inr h ↦
        let rest = any_of-select p rows r of.1 (ground arith) in
        elim (Bool-cases (p x)) [ inl e ↦ rw (e, h) rest | inr e ↦ rw e rest ]
  ]

-- Where no two rows conflict, recycling puts back each claim whose lease has run out, available after
-- the delay of its attempts, and keeps every other row.
pub recycle_expired_capture_claims_lem :
    (now : ℕ) (id : String) (rows : List Request) (r : Request)
    → Distinct rows
    → find (has_id id) rows ≡ some r
    → find (has_id id) (recycle_expired_capture_claims now rows)
      ≡ some (if has_expired (format now) r then expired_row now r else r)
unfolding recycle_expired_capture_claims has_expired
recycle_expired_capture_claims_lem now id rows r d found =
    let of = rows-AreOf now id rows r d found in
    let listed = select (has_expired (format now)) rows in
    elim (Bool-cases (is_claimed r.status)) [
      | inl on ↦
          rw (← any_of-select now id (has_expired (format now)) rows r of found)
            (requeue_each-row now id listed rows r (select-AreOf now id _ rows r of) found on)
      | inr off ↦ rw off (requeue_each-unclaimed now id listed rows r found off)
    ]

-- ===== src/Outbox/Covered.antt =====
-- A completed capture ended by its connector's watermark. Each statement on capture_requests but the one
-- that completes a capture leaves that so, whatever the watermarks are.
use workgraph.Common.{
  ℕ, zero, suc, ◌≤◌, String, ◌≡◌, refl, sym, ◌∙◌, Bool, true, false, ◌&&◌, some, List, [], ◌∷◌, inl,
  inr, Bool-cases, All, All-append, Ensures, returns, refuses, Ensures-bind, Ensures-of_ok,
  Ensures-mono, Ensures-after, Ensures-exactly_one, select,
}
use workgraph.Clock.{Stamp, format, parse}
use workgraph.Outbox.{
  Request, Kind, Status, completed, Cursor, is_capture, is_claimed, has_id, update, affected,
  insert,
}
use workgraph.Outbox.Rows.{insert-eq-ok}
use workgraph.Outbox.Watermark.{IsWatermark}
use workgraph.Outbox.Recycle.{requeue, requeue_each, recycle_expired_capture_claims, has_expired}
use workgraph.Outbox.Claim.{
  ClaimConfig, take_claim, may_take, claimed_row, claim_one, claim_each, claim_rows, listed_claims,
}
use workgraph.Outbox.Capability.{update_one}

abbrev pub is_completed : Status → Bool
is_completed completed = true
is_completed _ = false

-- If the row is a completed capture, its connector has a watermark at its end or past it.
abbrev pub Covered : List Cursor → Request → Type 0
Covered cursors r =
    is_completed r.status ≡ true
    → is_capture r.kind ≡ true
    → (until : ℕ) → parse r.until ≡ some until
    → (t : ℕ) × IsWatermark r.connector_id cursors t × (until ≤ t)

abbrev pub Quiet : List Request → List Request → Type 0
Quiet rows after =
    (cursors : List Cursor) → All (Covered cursors) rows → All (Covered cursors) after

-- A change that leaves covered rows so.
abbrev pub Stays : (Request → Bool) → (Request → Request) → Type 0
Stays p f =
    (r : Request) → p r ≡ true → (cursors : List Cursor) → Covered cursors r → Covered cursors (f r)

pub not_completed-Stays :
    (p : Request → Bool) (f : Request → Request)
    → ((r : Request) → is_completed (f r).status ≡ false)
    → Stays p f
not_completed-Stays p f pends r h cursors c done = absurd (cc (sym (pends r) ∙ done))

pub update-Quiet :
    (p : Request → Bool) (f : Request → Request) (rows : List Request)
    → Stays p f
    → Quiet rows (update p f rows)
unfolding update
update-Quiet p f [] stays cursors a = tt
update-Quiet p f (r ∷ rows) stays cursors a = elim (Bool-cases (p r)) [
  | inl e ↦ rw e (stays r e cursors a.0, update-Quiet p f rows stays cursors a.1)
  | inr e ↦ rw e (a.0, update-Quiet p f rows stays cursors a.1)
]

pub update_one-Quiet :
    (p : Request → Bool) (f : Request → Request) (rows : List Request)
    → Stays p f
    → Ensures (Quiet rows) (update_one p f rows)
unfolding update_one
update_one-Quiet p f rows stays =
    Ensures-exactly_one _ (affected p rows) _ (update-Quiet p f rows stays)

-- A change that leaves no row completed.
pub pending-Quiet :
    (p : Request → Bool) (f : Request → Request) (rows : List Request)
    → ((r : Request) → is_completed (f r).status ≡ false)
    → Quiet rows (update p f rows)
pending-Quiet p f rows pends = update-Quiet p f rows (not_completed-Stays p f pends)

pub pending_one-Quiet :
    (p : Request → Bool) (f : Request → Request) (rows : List Request)
    → ((r : Request) → is_completed (f r).status ≡ false)
    → Ensures (Quiet rows) (update_one p f rows)
pending_one-Quiet p f rows pends = update_one-Quiet p f rows (not_completed-Stays p f pends)

pub insert-Quiet :
    (r : Request) (rows : List Request)
    → is_completed r.status ≡ false
    → Ensures (Quiet rows) (insert r rows)
insert-Quiet r rows pends = Ensures-of_ok (insert r rows) λ after h cursors a.
    rw (← (insert-eq-ok r rows after h).1)
      (All-append (Covered cursors) rows (r ∷ []) a ((λ done. absurd (cc (sym pends ∙ done))), tt))

requeue_each-Quiet :
    (now : ℕ) (claims rows : List Request) → Quiet rows (requeue_each now claims rows)
unfolding requeue_each requeue
requeue_each-Quiet now [] rows cursors a = a
requeue_each-Quiet now (c ∷ claims) rows cursors a =
    requeue_each-Quiet now claims _ cursors
      (pending-Quiet (λ r. has_id c.id r && is_claimed r.status) _ rows (λ r. refl) cursors a)

pub recycle-Quiet :
    (now : ℕ) (rows : List Request) → Quiet rows (recycle_expired_capture_claims now rows)
unfolding recycle_expired_capture_claims
recycle-Quiet now rows = requeue_each-Quiet now (select (has_expired (format now)) rows) rows

claimed_row-Quiet :
    (n : ℕ) (id token : String) (taken rows : List Request)
    → Quiet rows taken
    → Ensures (λ r. Quiet rows r.0) (claimed_row n id token taken rows)
unfolding claimed_row
claimed_row-Quiet zero id token taken rows q = returns _ (λ cursors a. a)
claimed_row-Quiet (suc n) id token taken rows q = Ensures-after _ λ row. returns _ q

claim_one-Quiet :
    (now expires : Stamp) (worker token id : String) (rows : List Request)
    → Ensures (λ r. Quiet rows r.0) (claim_one now expires worker token id rows)
unfolding claim_one take_claim
claim_one-Quiet now expires worker token id rows =
    claimed_row-Quiet _ _ _ _ rows (pending-Quiet (may_take id now) _ rows λ r. refl)

claim_each-Quiet :
    (now expires : Stamp) (worker : String) (tokens : List String) (listed rows : List Request)
    → Ensures (λ r. Quiet rows r.0) (claim_each now expires worker tokens listed rows)
unfolding claim_each
claim_each-Quiet now expires worker tokens [] rows = returns _ (λ cursors a. a)
claim_each-Quiet now expires worker [] (r ∷ rs) rows = refuses _
claim_each-Quiet now expires worker (token ∷ tokens) (r ∷ rs) rows =
    Ensures-bind (λ r. Quiet rows r.0) (claim_one-Quiet now expires worker token r.id rows)
      λ one q.
        Ensures-bind (λ r. Quiet one.0 r.0) (claim_each-Quiet now expires worker tokens rs one.0)
          λ rest q'. returns _ (λ cursors a. q' cursors (q cursors a))

pub claim_rows-Quiet :
    (config : ClaimConfig) (max : ℕ) (kind : Kind) (connector : String) (rows : List Request)
    → Ensures (λ r. Quiet rows r.0) (claim_rows config max kind connector rows)
unfolding claim_rows
claim_rows-Quiet config max kind connector rows =
    Ensures-mono (λ r. Quiet (recycle_expired_capture_claims config.now rows) r.0)
      (claim_each-Quiet _ _ _ config.tokens
        (listed_claims config max kind connector (recycle_expired_capture_claims config.now rows))
        _)
      λ r q cursors a. q cursors (recycle-Quiet config.now rows cursors a)

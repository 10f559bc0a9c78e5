-- ===== src/Outbox/Holder.antt =====
-- What a call with a claim token does to the outbox: it changes the one row that the token holds, or it
-- is refused.
use workgraph.Common.{
  ℕ, ◌+◌, String, ◌≡◌, refl, true, Option, none, some, List, [], ◌∷◌, ok, arith, eq_iff, inl, inr,
  exactly_one, ◌>>=◌, Ensures, returns, Ensures-bind, Ensures-of_ok, Ensures-ok, trim_space,
  Bool-cases,
}
use workgraph.Clock.{Stamp, format, parse}
use workgraph.Outbox.{Request, Store, with_requests, has_id, update, find, found_request}
use workgraph.Outbox.Rows.{IsWellFormed}
use workgraph.Outbox.Single.{
  ById, ChangesOne, update_one-ChangesOne, affected-one, find-update_passed,
}
use workgraph.Outbox.Invariant.Updates.{renewed-KeepsRows}
use workgraph.Outbox.Claim.{lease_or_default}
use workgraph.Outbox.Capability.{
  CapabilityConfig, holds_claim, holds_live_claim, update_one, renew_capture_request, parsed,
}

pub find-has_id :
    (id : String) (rows : List Request) (r : Request) → find (has_id id) rows ≡ some r → r.id ≡ id
unfolding find
find-has_id id [] r e = absurd (cc e)
find-has_id id (x ∷ rows) r e = elim (Bool-cases (has_id id x)) [
  | inl hit ↦ (let same : x ≡ r = ground arith in rw (← same) ((eq_iff x.id id).0 hit))
  | inr miss ↦ find-has_id id rows r (ground arith)
]

pub holds_claim-ById : (id token : String) → ById id (holds_claim id token)
unfolding holds_claim
holds_claim-ById id token r h = ground arith

pub holds_live_claim-ById :
    (id token : String) (now : Stamp) → ById id (holds_live_claim id token now)
unfolding holds_live_claim holds_claim
holds_live_claim-ById id token now r h = ground arith

abbrev pub with_lease : Stamp → Request → Request
with_lease expires r = record r { lease_expires_at = some expires }

-- The outbox and the row that a renewal returns.
pub record Renewed (config : CapabilityConfig) (store : Store) (result : Store × Request)
    : Type 0 where
  pub change :
      ChangesOne
        (trim_space config.request_id)
        (holds_live_claim (trim_space config.request_id) config.claim_token (format config.now))
        (with_lease (format (config.now + lease_or_default config.lease)))
        store.requests
        result.0.requests
  pub returned : find (has_id (trim_space config.request_id)) result.0.requests ≡ some result.1
  pub rest : result.0 ≡ with_requests store result.0.requests

pub found_request-eq-ok :
    (id : String) (o : Option Request) (r : Request) → found_request id o ≡ ok r → o ≡ some r
unfolding found_request
found_request-eq-ok id none r h = absurd (cc h)
found_request-eq-ok id (some s) r h = cc

renew-Renewed :
    (config : CapabilityConfig) (store : Store)
    → IsWellFormed store.requests
    → Ensures (Renewed config store) (renew_capture_request config store)
unfolding renew_capture_request
renew-Renewed config store w =
    Ensures-bind _
      (Ensures-of_ok _ λ rows e.
        update_one-ChangesOne _ _ _ store.requests rows (holds_live_claim-ById _ _ _)
          (renewed-KeepsRows _ _ _ _) w e)
      λ rows c.
        Ensures-bind _ (Ensures-of_ok _ λ row e. found_request-eq-ok _ _ row e)
          λ row e. returns _ (record { change = c; returned = e; rest = refl })

-- On well-formed rows, a renewal that succeeds found the row under the trimmed id claimed by its token
-- with a lease that had not expired, set that row's lease, and changed no row of another id and nothing
-- else of the store; it returns the row.
pub renew_capture_request_lem :
    (config : CapabilityConfig) (store : Store) (result : Store × Request)
    → IsWellFormed store.requests
    → renew_capture_request config store ≡ ok result
    → Renewed config store result
renew_capture_request_lem config store result w h = Ensures-ok (renew-Renewed config store w) h

-- The outbox after a renewal that is accepted.
abbrev pub renewed : CapabilityConfig → Store → Store
renewed config store = with_requests store (
    update (holds_live_claim (trim_space config.request_id) config.claim_token (format config.now))
      (with_lease (format (config.now + lease_or_default config.lease))) store.requests)

-- On well-formed rows, a renewal for a row that is claimed by its token with a lease that has not
-- expired succeeds, and returns that row with the new lease.
pub renew_capture_request-accepts :
    (config : CapabilityConfig) (store : Store) (r : Request)
    → IsWellFormed store.requests
    → find (has_id (trim_space config.request_id)) store.requests ≡ some r
    → holds_live_claim (trim_space config.request_id) config.claim_token (format config.now) r
      ≡ true
    → renew_capture_request config store
      ≡ ok
          (renewed config store, with_lease (format (config.now + lease_or_default config.lease)) r)
unfolding renew_capture_request update_one exactly_one ◌>>=◌ found_request
renew_capture_request-accepts config store r w found held =
    let count =
      affected-one _ _ store.requests r (holds_live_claim-ById _ _ _) w.distinct found held in
    let back =
      find-update_passed (trim_space config.request_id) _
        (with_lease (format (config.now + lease_or_default config.lease))) store.requests r
        (renewed-KeepsRows _ _ _ _) found held in
    rw (count, back) refl

pub parsed-eq-ok : (text : Stamp) (t : ℕ) → parsed text ≡ ok t → parse text ≡ some t
unfolding parsed
parsed-eq-ok text t h = ground arith

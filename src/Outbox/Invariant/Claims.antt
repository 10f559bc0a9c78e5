-- ===== src/Outbox/Invariant/Claims.antt =====
-- The claims and what their holders do with them: each keeps the rows well formed, and moves each
-- row along its life cycle.
use workgraph.Common.{
  ℕ, zero, suc, String, Bool, true, false, ◌&&◌, Option, none, some, List, [], ◌∷◌, arith, Ensures,
  returns, refuses, Ensures-bind, Ensures-mono, Ensures-after, Ensures-guard, Ensures-exactly_one,
  select,
}
use workgraph.Clock.{Stamp, format}
use workgraph.Outbox.{Request, Kind, Store, is_claimed, has_id, affected}
use workgraph.Outbox.Rows.{KeepsRows}
use workgraph.Outbox.Evolution.{Evolves, Evolves-refl, Evolves-trans, update-Evolves}
use workgraph.Outbox.Invariant.Updates.{
  OnlyClaimed, requeue-KeepsRows, shrink_window-KeepsRows, take_claim-KeepsRows, renewed-KeepsRows,
}
use workgraph.Outbox.Recycle.{requeue_each, recycle_expired_capture_claims, has_expired}
use workgraph.Outbox.Claim.{
  ClaimConfig, claimed_row, claim_one, claim_each, claim_rows, listed_claims,
  claim_capture_requests,
}
use workgraph.Outbox.Capability.{
  CapabilityConfig, holds_claim, holds_worker_claim, update_one, renew_capture_request, apply_split,
  narrowed_on_failure, retry_later, after_split, fail_capture_request, release_claim, release_each,
  release_worker_capture_claims, is_worker_claim,
}

abbrev pub StoreEvolves : Store → Store → Type 0
StoreEvolves store after = Evolves store.requests after.requests

requeue_each-Evolves :
    (now : ℕ) (claims rows : List Request) → Evolves rows (requeue_each now claims rows)
unfolding requeue_each
requeue_each-Evolves now [] rows = Evolves-refl rows
requeue_each-Evolves now (c ∷ claims) rows =
    Evolves-trans rows _ _
      (update-Evolves _ _
        (requeue-KeepsRows (λ r. has_id c.id r && is_claimed r.status) _ _ (λ r h. ground arith))
        rows)
      (requeue_each-Evolves now claims _)

pub recycle-Evolves :
    (now : ℕ) (rows : List Request) → Evolves rows (recycle_expired_capture_claims now rows)
unfolding recycle_expired_capture_claims
recycle-Evolves now rows = requeue_each-Evolves now (select (has_expired (format now)) rows) rows

claimed_row-Evolves :
    (n : ℕ) (id token : String) (taken rows : List Request)
    → Evolves rows taken
    → Ensures (λ r. Evolves rows r.0) (claimed_row n id token taken rows)
unfolding claimed_row
claimed_row-Evolves zero id token taken rows e = returns _ (Evolves-refl rows)
claimed_row-Evolves (suc n) id token taken rows e = Ensures-after _ λ row. returns _ e

claim_one-Evolves :
    (now expires : Stamp) (worker token id : String) (rows : List Request)
    → Ensures (λ r. Evolves rows r.0) (claim_one now expires worker token id rows)
unfolding claim_one
claim_one-Evolves now expires worker token id rows =
    claimed_row-Evolves _ _ _ _ rows
      (update-Evolves _ _ (take_claim-KeepsRows id token worker now expires) rows)

claim_each-Evolves :
    (now expires : Stamp) (worker : String) (tokens : List String) (listed rows : List Request)
    → Ensures (λ r. Evolves rows r.0) (claim_each now expires worker tokens listed rows)
unfolding claim_each
claim_each-Evolves now expires worker tokens [] rows = returns _ (Evolves-refl rows)
claim_each-Evolves now expires worker [] (r ∷ rs) rows = refuses _
claim_each-Evolves now expires worker (token ∷ tokens) (r ∷ rs) rows =
    Ensures-bind (λ r. Evolves rows r.0) (claim_one-Evolves now expires worker token r.id rows)
      λ one e.
        Ensures-bind (λ r. Evolves one.0 r.0)
          (claim_each-Evolves now expires worker tokens rs one.0)
          λ rest e'. returns _ (Evolves-trans rows one.0 rest.0 e e')

claim_rows-Evolves :
    (config : ClaimConfig) (max : ℕ) (kind : Kind) (connector : String) (rows : List Request)
    → Ensures (λ r. Evolves rows r.0) (claim_rows config max kind connector rows)
unfolding claim_rows
claim_rows-Evolves config max kind connector rows =
    Ensures-mono (λ r. Evolves (recycle_expired_capture_claims config.now rows) r.0)
      (claim_each-Evolves _ _ _ config.tokens
        (listed_claims config max kind connector (recycle_expired_capture_claims config.now rows))
        _)
      λ r e. Evolves-trans rows _ r.0 (recycle-Evolves config.now rows) e

pub claim-Evolves :
    (config : ClaimConfig) (store : Store)
    → Ensures (λ r. StoreEvolves store r.0) (claim_capture_requests config store)
unfolding claim_capture_requests
claim-Evolves config store = Ensures-guard _ _ _ λ _. Ensures-guard _ _ _ λ _.
    Ensures-after _ λ connector. Ensures-after _ λ kind.
      Ensures-bind (λ r. Evolves store.requests r.0)
        (claim_rows-Evolves config _ kind connector store.requests) λ result e. returns _ e

pub update_one-Evolves :
    (p : Request → Bool) (f : Request → Request) (rows : List Request)
    → KeepsRows p f
    → Ensures (Evolves rows) (update_one p f rows)
unfolding update_one
update_one-Evolves p f rows keeps =
    Ensures-exactly_one _ (affected p rows) _ (update-Evolves p f keeps rows)

pub renew-Evolves :
    (config : CapabilityConfig) (store : Store)
    → Ensures (λ r. StoreEvolves store r.0) (renew_capture_request config store)
unfolding renew_capture_request
renew-Evolves config store =
    Ensures-bind (Evolves store.requests)
      (update_one-Evolves _ _ store.requests (renewed-KeepsRows _ _ _ _))
      (λ rows e. Ensures-after _ λ row. returns _ e)

holds_claim-OnlyClaimed : (id token : String) → OnlyClaimed (holds_claim id token)
unfolding holds_claim
holds_claim-OnlyClaimed id token r h = ground arith

holds_worker_claim-OnlyClaimed :
    (id worker token : String) → OnlyClaimed (holds_worker_claim id worker token)
unfolding holds_worker_claim
holds_worker_claim-OnlyClaimed id worker token r h = ground arith

retry_later-Evolves :
    (config : CapabilityConfig) (row : Request) (store : Store)
    → Ensures (StoreEvolves store) (retry_later config row store)
unfolding retry_later
retry_later-Evolves config row store =
    Ensures-bind (Evolves store.requests)
      (update_one-Evolves _ _ store.requests
        (requeue-KeepsRows _ _ _ (holds_claim-OnlyClaimed config.request_id config.claim_token)))
      (λ rows e. returns _ e)

abbrev RowsEvolve : List Request → Option (List Request) → Type 0
RowsEvolve rows none = Unit
RowsEvolve rows (some after) = Evolves rows after

apply_split-Evolves :
    (id token message : String) (now : ℕ) (rows : List Request) (split : ℕ × Bool)
    → Ensures (RowsEvolve rows) (apply_split id token message now rows split)
unfolding apply_split
apply_split-Evolves id token message now rows (until, false) = returns _ tt
apply_split-Evolves id token message now rows (until, true) =
    Ensures-bind (Evolves rows)
      (update_one-Evolves _ _ rows
        (shrink_window-KeepsRows _ _ _ _ (holds_claim-OnlyClaimed id token)))
      λ after e. returns _ e

narrowed_on_failure-Evolves :
    (asked : Bool) (config : CapabilityConfig) (rows : List Request)
    → Ensures (RowsEvolve rows) (narrowed_on_failure asked config rows)
unfolding narrowed_on_failure
narrowed_on_failure-Evolves false config rows = returns _ tt
narrowed_on_failure-Evolves true config rows =
    Ensures-after _
      λ row. Ensures-after _ λ since. Ensures-after _ λ until. apply_split-Evolves _ _ _ _ rows _

after_split-Evolves :
    (config : CapabilityConfig) (row : Request) (store : Store) (rows : Option (List Request))
    → RowsEvolve store.requests rows
    → Ensures (StoreEvolves store) (after_split config row store rows)
unfolding after_split
after_split-Evolves config row store (some rows) e = returns _ e
after_split-Evolves config row store none e = retry_later-Evolves config row store

pub fail-Evolves :
    (config : CapabilityConfig) (store : Store)
    → Ensures (StoreEvolves store) (fail_capture_request config store)
unfolding fail_capture_request
fail-Evolves config store = Ensures-guard _ _ _ λ _. Ensures-after _ λ row. Ensures-guard _ _ _ λ _.
    Ensures-bind (RowsEvolve store.requests) (narrowed_on_failure-Evolves _ config store.requests)
      (after_split-Evolves config row store)

release_claim-Evolves :
    (worker reason : String) (now : ℕ) (claim : Request) (store : Store)
    → StoreEvolves store (release_claim worker reason now claim store)
unfolding release_claim
release_claim-Evolves worker reason now claim store =
    update-Evolves _ _
      (requeue-KeepsRows (holds_worker_claim _ _ _) _ _ (holds_worker_claim-OnlyClaimed _ _ _)) _

release_each-Evolves :
    (worker reason : String) (now : ℕ) (claims : List Request) (store : Store)
    → StoreEvolves store (release_each worker reason now claims store)
unfolding release_each
release_each-Evolves worker reason now [] store = Evolves-refl _
release_each-Evolves worker reason now (c ∷ claims) store =
    Evolves-trans _ _ _ (release_claim-Evolves worker reason now c store)
      (release_each-Evolves worker reason now claims (release_claim worker reason now c store))

pub release_worker-Evolves :
    (worker reason : String) (now : ℕ) (store : Store)
    → StoreEvolves store (release_worker_capture_claims worker reason now store)
unfolding release_worker_capture_claims
release_worker-Evolves worker reason now store =
    release_each-Evolves worker reason now (select (is_worker_claim worker) store.requests) store

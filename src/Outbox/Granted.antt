-- ===== src/Outbox/Granted.antt =====
-- What a worker is given when it claims requests: each claim is a row of the outbox that holds the
-- token it was given with.
use workgraph.Common.{
  ℕ, zero, suc, ◌+◌, ◌≤◌, String, ◌≡◌, refl, true, false, some, List, [], ◌∷◌, ok, arith, eq_iff,
  subst, Ensures, returns, refuses, Ensures-bind, Ensures-after, Ensures-guard, Ensures-mono,
  Ensures-of_ok, Ensures-ok, trim_space, All, All-mono, All-append, length, length-append,
  length-take-le, leb→le,
}
use workgraph.Clock.{Stamp, format}
use workgraph.Outbox.{Request, Kind, Store, is_claimed, has_id, find, update, affected}
use workgraph.Outbox.Rows.{IsWellFormed, update-IsWellFormed}
use workgraph.Outbox.Evolution.{find-update}
use workgraph.Outbox.Single.{ById, affected-found, find-update_passed}
use workgraph.Outbox.Holder.{found_request-eq-ok}
use workgraph.Outbox.Invariant.Updates.{take_claim-KeepsRows}
use workgraph.Outbox.Invariant.Claims.{recycle-Evolves}
use workgraph.Outbox.Recycle.{recycle_expired_capture_claims}
use workgraph.Outbox.Claim.{
  ClaimConfig, ClaimedRequest, take_claim, may_take, claimed_row, claim_one, claim_each,
  listed_claims, claim_rows, claim_capture_requests, max_claims, lease_or_default,
}

-- A claim that was given stands in the rows as it was given.
pub record IsGranted (now expires : Stamp) (worker : String) (rows : List Request)
    (c : ClaimedRequest) : Type 0 where
  pub stored : find (has_id c.request.id) rows ≡ some c.request
  pub claimed_now : is_claimed c.request.status ≡ true
  pub token : c.request.claim_token ≡ some c.claim_token
  pub holder : c.request.claimed_by ≡ some worker
  pub since : c.request.claimed_at ≡ some now
  pub lease : c.request.lease_expires_at ≡ some expires
  pub counted : 1 ≤ c.request.attempts

-- Rows that are claimed stay as they are.
abbrev KeepsClaimed : List Request → List Request → Type 0
KeepsClaimed rows after =
    (id : String) (r : Request)
    → find (has_id id) rows ≡ some r
    → is_claimed r.status ≡ true
    → find (has_id id) after ≡ some r

module _ (now expires : Stamp) (worker : String) where
  abbrev AreGranted : ℕ → List Request → List Request × List ClaimedRequest → Type 0
  AreGranted n rows result =
      IsWellFormed result.0
      × KeepsClaimed rows result.0
      × All (IsGranted now expires worker result.0) result.1
      × (length result.1 ≤ n)

  may_take-ById : (id : String) → ById id (may_take id now)
  unfolding may_take
  may_take-ById id r h = ground arith

  may_take-claimed :
      (id : String) (r : Request) → is_claimed r.status ≡ true → may_take id now r ≡ false
  unfolding may_take
  may_take-claimed id r h = ground arith

  taken-KeepsClaimed :
      (id token : String) (rows : List Request)
      → KeepsClaimed rows (update (may_take id now) (take_claim token worker now expires) rows)
  taken-KeepsClaimed id token rows other r found held =
      let here =
        find-update _ _ (take_claim-KeepsRows id token worker now expires) other rows r found in
      rw (here, may_take-claimed id r held) refl

  taken-IsGranted :
      (id token : String) (rows : List Request) (r row : Request)
      → find (has_id id) rows ≡ some r
      → may_take id now r ≡ true
      → find (has_id id) (update (may_take id now) (take_claim token worker now expires) rows)
        ≡ some row
      → IsGranted now expires worker
          (update (may_take id now) (take_claim token worker now expires) rows)
          (record { request = row; claim_token = token })
  unfolding take_claim may_take
  taken-IsGranted id token rows r row found may there =
      let keeps = take_claim-KeepsRows id token worker now expires in
      let back =
        find-update_passed id (may_take id now) (take_claim token worker now expires) rows r keeps
          found may in
      let same : take_claim token worker now expires r ≡ row = cc in
      let named : id ≡ r.id = ground (arith, eq_iff r.id id) in
      rw (← same) (record {
        stored =
            subst
              (λ i.
                find (has_id i)
                  (update (may_take id now) (take_claim token worker now expires) rows)
                ≡ some (take_claim token worker now expires r))
              named back;
        claimed_now = refl;
        token = refl;
        holder = refl;
        since = refl;
        lease = refl;
        counted = omega arith;
      })

  claimed_row-AreGranted :
      (n : ℕ) (id token : String) (rows : List Request)
      → IsWellFormed rows
      → affected (may_take id now) rows ≡ n
      → Ensures (AreGranted 1 rows) (
          claimed_row n id token
            (update (may_take id now) (take_claim token worker now expires) rows)
            rows)
  unfolding claimed_row
  claimed_row-AreGranted zero id token rows w e =
      returns _ (w, (λ id r found held. found), tt, omega arith)
  claimed_row-AreGranted (suc n) id token rows w e =
      let (r, found, may) =
        affected-found id (may_take id now) rows (may_take-ById id) w.distinct (omega (arith, e)) in
      Ensures-bind _ (Ensures-of_ok _ λ row h. found_request-eq-ok _ _ row h) λ row there.
        returns _ (
          update-IsWellFormed _ _ (take_claim-KeepsRows id token worker now expires) rows w,
          taken-KeepsClaimed id token rows,
          (taken-IsGranted id token rows r row found may there, tt),
          omega arith,
        )

  later :
      (rows after : List Request)
      → KeepsClaimed rows after
      → (c : ClaimedRequest) → IsGranted now expires worker rows c
      → IsGranted now expires worker after c
  later rows after keeps c g = record {
    stored = keeps c.request.id c.request g.stored g.claimed_now;
    claimed_now = g.claimed_now;
    token = g.token;
    holder = g.holder;
    since = g.since;
    lease = g.lease;
    counted = g.counted;
  }

  claim_each-AreGranted :
      (tokens : List String) (listed rows : List Request)
      → IsWellFormed rows
      → Ensures (AreGranted (length listed) rows) (claim_each now expires worker tokens listed rows)
  unfolding claim_each claim_one
  claim_each-AreGranted tokens [] rows w =
      returns _ (w, (λ id r found held. found), tt, omega arith)
  claim_each-AreGranted [] (c ∷ listed) rows w = refuses _
  claim_each-AreGranted (token ∷ tokens) (c ∷ listed) rows w =
      Ensures-bind (AreGranted 1 rows) (claimed_row-AreGranted _ c.id token rows w refl) λ one a.
        Ensures-bind (AreGranted (length listed) one.0)
          (claim_each-AreGranted tokens listed one.0 a.0)
          λ rest b. returns _ (
            b.0,
            (λ id r found held. b.1 id r (a.1 id r found held) held),
            All-append _ one.1 rest.1 (All-mono _ _ (λ c g. later one.0 rest.0 b.1 c g) one.1 a.2)
                b.2,
            (let both = length-append one.1 rest.1 in omega (arith, both, a.3, b.3)),
          )

listed_claims-short :
    (config : ClaimConfig) (max : ℕ) (kind : Kind) (connector : String) (rows : List Request)
    → length (listed_claims config max kind connector rows) ≤ max
unfolding listed_claims
listed_claims-short config max kind connector rows = length-take-le max _

claim_rows-AreGranted :
    (config : ClaimConfig) (max : ℕ) (kind : Kind) (connector : String) (rows : List Request)
    → IsWellFormed rows
    → Ensures
        (λ r.
          All
            (IsGranted
              (format config.now)
              (format (config.now + lease_or_default config.lease))
              (trim_space config.worker)
              r.0)
            r.1
          × (length r.1 ≤ max))
        (claim_rows config max kind connector rows)
unfolding claim_rows
claim_rows-AreGranted config max kind connector rows w =
    let recycled = recycle_expired_capture_claims config.now rows in
    let short = listed_claims-short config max kind connector recycled in
    Ensures-mono _
      (claim_each-AreGranted _ _ _ config.tokens _ recycled
        ((recycle-Evolves config.now rows).keeps w))
      λ r a. (a.2, omega (arith, a.3, short))

-- The outbox and the claims that a claiming worker is given.
pub record Granted (config : ClaimConfig) (result : Store × List ClaimedRequest) : Type 0 where
  pub claims :
      All
        (IsGranted
          (format config.now)
          (format (config.now + lease_or_default config.lease))
          (trim_space config.worker)
          result.0.requests)
        result.1
  pub asked_at_most : length result.1 ≤ max_claims config.max
  pub at_most_100 : length result.1 ≤ 100

claim-Granted :
    (config : ClaimConfig) (store : Store)
    → IsWellFormed store.requests
    → Ensures (Granted config) (claim_capture_requests config store)
unfolding claim_capture_requests
claim-Granted config store w = Ensures-guard _ _ _ λ _. Ensures-guard _ _ _ λ small.
    Ensures-after _ λ connector. Ensures-after _ λ kind.
      Ensures-bind _ (claim_rows-AreGranted config _ kind connector store.requests w) λ result a.
        returns _ (record {
          claims = a.0;
          asked_at_most = a.1;
          at_most_100 = omega (arith, a.1, leb→le (max_claims config.max) 100 small);
        })

-- On well-formed rows, the claims that a claiming worker is returned are rows of the outbox as they
-- stand after the call: each is claimed by that worker at that instant, holds the token it was
-- returned with, has a lease that ends the configured time later (the default one for 0), and counts
-- an attempt. They are no more than were asked for (one for 0), and no more than 100.
pub claim_capture_requests_lem :
    (config : ClaimConfig) (store : Store) (result : Store × List ClaimedRequest)
    → IsWellFormed store.requests
    → claim_capture_requests config store ≡ ok result
    → Granted config result
claim_capture_requests_lem config store result w h = Ensures-ok (claim-Granted config store w) h

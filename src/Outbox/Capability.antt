-- ===== src/Outbox/Capability.antt =====
-- What the holder of a claim token does with a claim: it renews the lease, or gives the request back
-- (RenewCaptureRequest, FailCaptureRequest, releaseWorkerCaptureClaims, narrowCaptureRequestWindow).
-- A lease of 0 or less in the configuration is 0 here.
use Prim.Native.String.{◌++◌ as text_append}
use workgraph.Common.{
  ℕ, zero, suc, ◌+◌, String, Bool, true, false, ◌&&◌, ◌||◌, Option, none, some, List, [], ◌∷◌, ◌==◌,
  Result, ok, err, ◌>>=◌, guard, exactly_one, stale_claim, unknown_failure_reason, bad_time, select,
  trim_space, if◌then◌else◌,
}
use workgraph.Clock.{Stamp, format, parse}
use workgraph.Retry.{retry_initial, retry_max, connector_retry_delay}
use workgraph.Registry.{captures_bounded_window}
use workgraph.Window.{narrowed_capture_until}
use workgraph.Runtime.{RuntimeFile, failed, record_connector_poll_attempt}
use workgraph.Outbox.{
  Request, Store, is_claimed, is_capture, has_id, found_request, holds, holds_after, or_empty,
  update, affected, find,
}
use workgraph.Outbox.Recycle.{requeue}
use workgraph.Outbox.Claim.{lease_or_default}

pub record CapabilityConfig : Type 0 where
  pub request_id : String
  pub claim_token : String
  pub error : String
  pub reason : String
  pub now : ℕ
  pub lease : ℕ

-- WHERE id = ? AND status = 'claimed' AND claim_token = ?
unfoldable pub holds_claim : String → String → Request → Bool
holds_claim id token r = has_id id r && is_claimed r.status && holds r.claim_token token

-- … AND lease_expires_at > ?
unfoldable pub holds_live_claim : String → String → Stamp → Request → Bool
unfolding holds_claim
holds_live_claim id token now r = holds_claim id token r && holds_after r.lease_expires_at now

-- An UPDATE that must change exactly one row.
unfoldable pub update_one :
    (Request → Bool) → (Request → Request) → List Request → Result (List Request)
unfolding update affected
update_one p f rows = exactly_one stale_claim (affected p rows) (update p f rows)

unfoldable pub renew_capture_request : CapabilityConfig → Store → Result (Store × Request)
unfolding holds_live_claim update_one find found_request format trim_space
renew_capture_request config store = do
  let id = trim_space config.request_id
  let now = format config.now
  let expires = format (config.now + lease_or_default config.lease)
  rows ←
      update_one (holds_live_claim id config.claim_token now)
        (λ r. record r { lease_expires_at = some expires }) store.requests
  row ← found_request id (find (has_id id) rows)
  ok (record store { requests = rows }, row)

abbrev window_too_large : String
window_too_large = "window_too_large"

unfoldable pub valid_failure_reason : String → Bool
valid_failure_reason reason = reason == "" || reason == window_too_large

unfoldable pub parsed : Stamp → Result ℕ
unfolding parse
parsed text = elim (parse text) [ none ↦ err bad_time | some t ↦ ok t ]

unfoldable pub shrink_window : Stamp → Stamp → String → Request → Request
unfolding requeue
shrink_window until now detail r = record (requeue now detail r) { until = until }

-- The update of a split that was found, or none. The message's two instants are left out of it.
unfoldable pub apply_split :
    String → String → String → ℕ → List Request → ℕ × Bool → Result (Option (List Request))
unfolding update_one holds_claim shrink_window format
apply_split id token message now rows (until, false) = ok none
apply_split id token message now rows (until, true) =
    update_one (holds_claim id token)
      (shrink_window (format until) (format now)
        (text_append "window too large; narrowed: " message))
      rows
    >>= λ narrowed. ok (some narrowed)

-- The rows after a split, or none if the window is too short for one.
unfoldable pub narrow_capture_request_window :
    String → String → String → ℕ → List Request → Result (Option (List Request))
unfolding found_request find parsed narrowed_capture_until apply_split trim_space
narrow_capture_request_window raw_id token message now rows = do
  let id = trim_space raw_id
  row ← found_request id (find (has_id id) rows)
  since ← parsed row.since
  until ← parsed row.until
  apply_split id token message now rows (narrowed_capture_until since until)

unfoldable pub error_or_default : String → String
unfolding trim_space
error_or_default error =
    let trimmed = trim_space error in
    if trimmed == "" then "bridge reported capture failure" else trimmed

-- Whether a failure asks for a split, and its request has a window.
unfoldable pub asks_split : CapabilityConfig → Request → Bool
unfolding captures_bounded_window
asks_split config row =
    config.reason == window_too_large
    && is_capture row.kind
    && captures_bounded_window row.connector_id

unfoldable pub narrowed_on_failure :
    Bool → CapabilityConfig → List Request → Result (Option (List Request))
unfolding narrow_capture_request_window error_or_default
narrowed_on_failure false config rows = ok none
narrowed_on_failure true config rows =
    narrow_capture_request_window config.request_id config.claim_token
      (error_or_default config.error) config.now rows

-- A capture's connector hears of the failure; an llm task has no connector.
unfoldable pub note_failure : RuntimeFile → Request → ℕ → ℕ → String → RuntimeFile
unfolding record_connector_poll_attempt
note_failure file row now available message =
    if is_capture row.kind
    then record_connector_poll_attempt file row.connector_id now (some available)
        (some row.attempts) (some (failed message))
    else file

-- The second half of FailCaptureRequest. The update goes by the id as given, not trimmed.
unfoldable pub retry_later : CapabilityConfig → Request → Store → Result Store
unfolding update_one holds_claim requeue error_or_default note_failure format connector_retry_delay
retry_later config row store = do
  let available = config.now + connector_retry_delay retry_initial retry_max row.attempts
  let message = error_or_default config.error
  rows ←
      update_one (holds_claim config.request_id config.claim_token)
        (requeue (format available) message) store.requests
  ok (record store {
    requests = rows;
    runtime = note_failure store.runtime row config.now available message;
  })

unfoldable pub after_split :
    CapabilityConfig → Request → Store → Option (List Request) → Result Store
unfolding retry_later
after_split config row store (some rows) = ok (record store { requests = rows })
after_split config row store none = retry_later config row store

unfoldable pub fail_capture_request : CapabilityConfig → Store → Result Store
unfolding valid_failure_reason found_request find asks_split narrowed_on_failure after_split
    trim_space
fail_capture_request config store = do
  _ ← guard (valid_failure_reason config.reason) unknown_failure_reason
  let id = trim_space config.request_id
  row ← found_request id (find (has_id id) store.requests)
  _ ← guard (is_claimed row.status && or_empty row.claim_token == config.claim_token) stale_claim
  split ← narrowed_on_failure (asks_split config row) config store.requests
  after_split config row store split

-- WHERE id = ? AND status = 'claimed' AND claimed_by = ? AND claim_token = ?
unfoldable pub holds_worker_claim : String → String → String → Request → Bool
unfolding holds_claim
holds_worker_claim id worker token r = holds_claim id token r && holds r.claimed_by worker

unfoldable pub is_worker_claim : String → Request → Bool
is_worker_claim worker r =
    is_claimed r.status && holds r.claimed_by worker && has_token r.claim_token
  where
    has_token : Option String → Bool
    has_token none = false
    has_token (some token) = true

-- One round of the loop; the runtime file hears of a row that changed.
unfoldable pub release_claim : String → String → ℕ → Request → Store → Store
unfolding update affected holds_worker_claim requeue note_failure format connector_retry_delay
release_claim worker reason now claim store =
    let available = now + connector_retry_delay retry_initial retry_max claim.attempts in
    let held = holds_worker_claim claim.id worker (or_empty claim.claim_token) in
    record store {
      requests = update held (requeue (format available) reason) store.requests;
      runtime = elim (affected held store.requests) [
        | suc zero ↦ note_failure store.runtime claim now available reason
        | _ ↦ store.runtime
      ];
    }

unfoldable pub release_each : String → String → ℕ → List Request → Store → Store
unfolding release_claim
release_each worker reason now [] store = store
release_each worker reason now (claim ∷ claims) store =
    release_each worker reason now claims (release_claim worker reason now claim store)

-- releaseWorkerCaptureClaims
unfoldable pub release_worker_capture_claims : String → String → ℕ → Store → Store
unfolding release_each is_worker_claim
release_worker_capture_claims worker reason now store =
    release_each worker reason now (select (is_worker_claim worker) store.requests) store

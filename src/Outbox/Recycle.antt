-- ===== src/Outbox/Recycle.antt =====
-- Claims whose lease has run out go back to the queue (recycleExpiredCaptureClaims).
use workgraph.Common.{ℕ, ◌+◌, String, Bool, ◌&&◌, none, some, List, [], ◌∷◌, select}
use workgraph.Clock.{Stamp, format}
use workgraph.Retry.{retry_initial, retry_max, connector_retry_delay}
use workgraph.Outbox.{Request, pending, is_claimed, has_id, holds_at_most, update}

-- The columns that every return to the queue sets.
unfoldable pub requeue : Stamp → String → Request → Request
requeue available error r = record r {
  status = pending;
  available_at = available;
  last_error = some error;
  claim_token = none;
  claimed_by = none;
  claimed_at = none;
  lease_expires_at = none;
}

unfoldable pub has_expired : Stamp → Request → Bool
has_expired now r = is_claimed r.status && holds_at_most r.lease_expires_at now

-- The second loop: one UPDATE for each claim that the query listed.
unfoldable pub requeue_each : ℕ → List Request → List Request → List Request
unfolding requeue format update connector_retry_delay
requeue_each now [] rows = rows
requeue_each now (claim ∷ claims) rows =
    let delay = connector_retry_delay retry_initial retry_max claim.attempts in
    requeue_each now claims (
      update (λ r. has_id claim.id r && is_claimed r.status)
        (requeue (format (now + delay)) "claim lease expired") rows)

unfoldable pub recycle_expired_capture_claims : ℕ → List Request → List Request
unfolding has_expired requeue_each format
recycle_expired_capture_claims now rows =
    requeue_each now (select (has_expired (format now)) rows) rows

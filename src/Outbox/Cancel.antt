-- ===== src/Outbox/Cancel.antt =====
-- Requests that an operator or a change of a connector takes back (CancelCaptureRequest,
-- cancelConnectorCaptureRequest, cancelActiveCaptureRequests).
use workgraph.Common.{
  ℕ, String, Bool, ◌&&◌, Option, none, some, ◌==◌, not, Result, ok, err, ◌>>=◌, guard, exactly_one,
  request_id_required, request_settled, trim_space, if◌then◌else◌,
}
use workgraph.Clock.{Stamp, format}
use workgraph.Outbox.{
  Request, Status, completed, cancelled, Store, with_requests, is_active, is_active_for, has_id,
  found_request, update, affected, find,
}

pub record CancelConfig : Type 0 where
  pub request_id : String
  pub reason : String
  pub now : ℕ

unfoldable pub cancel_row : Stamp → Option String → Request → Request
cancel_row now error r = record r {
  status = cancelled;
  cancelled_at = some now;
  last_error = error;
  claim_token = none;
  lease_expires_at = none;
}

unfoldable pub reason_or_default : String → String
unfolding trim_space
reason_or_default reason =
    let trimmed = trim_space reason in if trimmed == "" then "cancelled by operator" else trimmed

-- WHERE id = ? AND status IN ('pending', 'claimed')
unfoldable pub is_open : String → Request → Bool
is_open id r = has_id id r && is_active r.status

-- By the status that was read.
unfoldable pub cancel_found : String → String → Stamp → Status → Store → Result Store
unfolding is_open update affected cancel_row
cancel_found id reason now cancelled store = ok store
cancel_found id reason now completed store = err request_settled
cancel_found id reason now _ store =
    exactly_one request_settled (affected (is_open id) store.requests)
      (with_requests store (update (is_open id) (cancel_row now (some reason)) store.requests))

unfoldable pub cancel_capture_request : CancelConfig → Store → Result Store
unfolding found_request find cancel_found reason_or_default format trim_space
cancel_capture_request config store = do
  let id = trim_space config.request_id
  _ ← guard (not (id == "")) request_id_required
  row ← found_request id (find (has_id id) store.requests)
  cancel_found id (reason_or_default config.reason) (format config.now) row.status store

-- By the active request that was found; it is returned.
unfoldable pub cancel_active_found :
    String → Stamp → Option Request → Store → Store × Option Request
unfolding is_open update cancel_row
cancel_active_found reason now none store = (store, none)
cancel_active_found reason now (some active) store = (
  with_requests store (update (is_open active.id) (cancel_row now (some reason)) store.requests),
  some active,
)

-- The request that was cancelled, if the connector had an active one.
unfoldable pub cancel_connector_capture_request :
    String → String → ℕ → Store → Store × Option Request
unfolding is_active_for find cancel_active_found format
cancel_connector_capture_request connector reason now store =
    cancel_active_found reason (format now) (find (is_active_for connector) store.requests) store

unfoldable pub cancel_active_row : Stamp → Request → Request
cancel_active_row now r = record r {
  status = cancelled;
  cancelled_at = some now;
  claim_token = none;
  lease_expires_at = none;
}

unfoldable pub cancel_active_capture_requests : String → ℕ → Store → Store
unfolding is_active_for update cancel_active_row format
cancel_active_capture_requests connector now store = record store {
  requests = update (is_active_for connector) (cancel_active_row (format now)) store.requests;
}

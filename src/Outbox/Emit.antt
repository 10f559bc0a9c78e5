-- ===== src/Outbox/Emit.antt =====
-- The daemon asks for a capture (EmitBridgedCaptureRequest) and for an llm task
-- (emitLLMTaskRequest). The id is the value that newEventID draws; the scope of a connector is
-- validated by connector.go's validatedBridgeParams, which is an argument here.
use workgraph.Common.{
  ℕ, ◌+◌, ◌-◌, ◌*◌, String, Bool, true, false, ◌&&◌, Option, none, some, List, [], ◌∷◌, ◌==◌,
  Result, ok, ◌>>=◌, guard, not_bridged, ltb, if◌then◌else◌,
}
use workgraph.Clock.{Stamp, day, minute, format}
use workgraph.Registry.{
  llm_associate_connector_id, captures_bounded_window, normalize_connector_id,
  validate_bridgeable_connector,
}
use workgraph.Runtime.{entry, connector_enabled, connector_capture_mode}
use workgraph.Outbox.{
  Kind, capture, llm_task, Params, scope, task, Request, pending, Cursor, Store, with_requests,
  is_active_for, find, insert, cursor_of,
}
use workgraph.Outbox.Recycle.{recycle_expired_capture_claims}
use workgraph.Outbox.Capability.{parsed}

abbrev pub bridged_initial_window : ℕ
bridged_initial_window = day

abbrev pub bridged_max_window : ℕ
bridged_max_window = day

abbrev pub bridged_overlap : ℕ
bridged_overlap = 5 * minute

-- Where the next capture starts: a little before the watermark, or a day before now. An instant
-- before the year 0 is the year 0.
unfoldable pub capture_since : Option Cursor → ℕ → Result ℕ
unfolding parsed
capture_since none now = ok (now - bridged_initial_window)
capture_since (some cursor) now = parsed cursor.completed_through >>= λ t. ok (t - bridged_overlap)

-- Where it ends: now, or a day after its start.
unfoldable pub capture_until : String → ℕ → ℕ → ℕ
unfolding captures_bounded_window
capture_until connector since now =
    if captures_bounded_window connector && ltb (since + bridged_max_window) now
    then since + bridged_max_window
    else now

unfoldable pub new_request : String → String → Kind → Stamp → Stamp → Params → Stamp → Request
new_request id connector kind since until params now = record {
  id = id;
  connector_id = connector;
  kind = kind;
  since = since;
  until = until;
  params = params;
  status = pending;
  attempts = 0;
  available_at = now;
  last_error = none;
  created_at = now;
  claim_token = none;
  claimed_by = none;
  claimed_at = none;
  lease_expires_at = none;
  completed_at = none;
  cancelled_at = none;
}

pub record Emitted : Type 0 where
  pub request : Request
  pub created : Bool

-- A new row, where the connector has no active one.
unfoldable pub emit_new : Request → Store → Result (Store × Emitted)
unfolding insert
emit_new request store = insert request store.requests >>= λ rows.
    ok (with_requests store rows, record { request = request; created = true })

unfoldable pub window_request :
    (String → String → Result String) → String → String → ℕ → Store → Result Request
unfolding capture_since capture_until new_request cursor_of entry format
window_request validated id connector now store = do
  since ← capture_since (cursor_of connector store.cursors) now
  params ← validated connector (entry store.runtime connector).bridge_params
  ok (
      new_request id connector capture (format since) (format (capture_until connector since now))
        (scope params) (format now))

-- Join the active request that was found, or make a new one.
unfoldable pub join_or_emit :
    Option Request
    → (String → String → Result String)
    → String
    → String
    → ℕ
    → Store
    → Result (Store × Emitted)
unfolding window_request emit_new
join_or_emit (some active) validated id connector now store =
    ok (store, record { request = active; created = false })
join_or_emit none validated id connector now store =
    window_request validated id connector now store >>= λ request. emit_new request store

-- The transaction.
unfoldable pub emit_for :
    (String → String → Result String) → String → String → ℕ → Store → Result (Store × Emitted)
unfolding recycle_expired_capture_claims is_active_for find join_or_emit
emit_for validated id connector now store =
    let recycled = recycle_expired_capture_claims now store.requests in
    join_or_emit (find (is_active_for connector) recycled) validated id connector now
      (with_requests store recycled)

unfoldable pub emit_bridged_capture_request :
    (String → String → Result String) → String → String → ℕ → Store → Result (Store × Emitted)
unfolding normalize_connector_id validate_bridgeable_connector connector_enabled
    connector_capture_mode emit_for
emit_bridged_capture_request validated id raw_connector now store = do
  connector ← normalize_connector_id raw_connector
  _ ← validate_bridgeable_connector connector
  _ ←
      guard
        (connector_enabled store.runtime connector
          && connector_capture_mode store.runtime connector == "bridged")
        (not_bridged connector)
  emit_for validated id connector now store

unfoldable pub llm_request : String → List String → ℕ → Request
unfolding new_request format
llm_request id units now =
    new_request id llm_associate_connector_id llm_task (format now) (format now) (task "" units)
      (format now)

-- By the active request and the eligible units. With neither, the transaction is rolled back, with
-- what it recycled.
unfoldable pub join_or_emit_task :
    Option Request
    → List String
    → String
    → ℕ
    → Store
    → List Request
    → Result (Store × Option Emitted)
unfolding llm_request emit_new
join_or_emit_task (some active) units id now store recycled =
    ok (with_requests store recycled, some (record { request = active; created = false }))
join_or_emit_task none [] id now store recycled = ok (store, none)
join_or_emit_task none (u ∷ us) id now store recycled =
    emit_new (llm_request id (u ∷ us) now) (with_requests store recycled) >>= λ emitted.
    ok (emitted.0, some emitted.1)

unfoldable pub emit_llm_task_request :
    String → List String → ℕ → Store → Result (Store × Option Emitted)
unfolding recycle_expired_capture_claims is_active_for find join_or_emit_task
emit_llm_task_request id units now store =
    let recycled = recycle_expired_capture_claims now store.requests in
    join_or_emit_task (find (is_active_for llm_associate_connector_id) recycled) units id now store
      recycled

-- ===== src/Outbox/Complete.antt =====
-- A claim ends well: its events are stored, the request is completed and the connector's watermark
-- moves on, in one transaction (IngestBridgedCapture, completeClaimedCaptureRequest, completeLLMTaskTx).
-- The events are those that the ingest has prepared from its input; the Slack
-- List snapshots, whose ids depend on the rows stored before, are left out.
use workgraph.Common.{
  ℕ, suc, ◌+◌, String, Bool, false, not, ◌&&◌, ◌||◌, Option, none, some, List, [], ◌∷◌, ◌==◌, ◌++◌,
  Result, ok, err, ◌>>=◌, not_validly_claimed, lease_expired, stale_claim, wrong_kind, ltb,
  trim_space, if◌then◌else◌,
}
use workgraph.Clock.{Stamp, format, parse}
use workgraph.Runtime.{record_connector_capture_completion}
use workgraph.Outbox.{
  Request, completed, Cursor, Store, is_claimed, is_capture, has_id, found_request, or_empty, find,
  cursor_of, move_cursor,
}
use workgraph.Outbox.Claim.{contains}
use workgraph.Outbox.Capability.{holds_live_claim, update_one, parsed}

unfoldable pub complete_row : Stamp → Request → Request
complete_row now r = record r {
  status = completed;
  completed_at = some now;
  claim_token = none;
  lease_expires_at = none;
}

-- By the connector's cursor. The watermark only moves forward, by the instants and not by their texts.
unfoldable pub advance_from :
    Option Cursor → String → ℕ → Stamp → List Cursor → Result (List Cursor)
unfolding move_cursor parsed format
advance_from none connector until now cursors = ok (
    cursors
    ++ record { connector_id = connector; completed_through = format until; updated_at = now } ∷ [])
advance_from (some cursor) connector until now cursors =
    parsed cursor.completed_through >>= λ stored.
    ok (if ltb stored until then move_cursor connector (format until) now cursors else cursors)

unfoldable pub advance_cursor : String → ℕ → Stamp → List Cursor → Result (List Cursor)
unfolding cursor_of advance_from
advance_cursor connector until now cursors =
    advance_from (cursor_of connector cursors) connector until now cursors

-- `request` is the row as it was read before the transaction.
unfoldable pub complete_claimed_capture_request : Request → String → Stamp → Store → Result Store
unfolding holds_live_claim update_one complete_row parsed advance_cursor
complete_claimed_capture_request request token now store = do
  rows ← update_one (holds_live_claim request.id token now) (complete_row now) store.requests
  until ← parsed request.until
  cursors ← advance_cursor request.connector_id until now store.cursors
  ok (record store { requests = rows; cursors = cursors })

-- INSERT OR IGNORE INTO events, with the counts of new and of known events.
pub record Stored : Type 0 where
  pub events : List String
  pub inserted : ℕ
  pub duplicate : ℕ

unfoldable pub store_event : String → Stored → Stored
unfolding contains
store_event id s =
    if contains id s.events
    then record s { duplicate = s.duplicate + 1 }
    else record s { events = id ∷ s.events; inserted = s.inserted + 1 }

unfoldable pub store_events : List String → Stored → Stored
unfolding store_event
store_events [] s = s
store_events (id ∷ ids) s = store_events ids (store_event id s)

-- The checks on the claim that an ingest makes before it reads its input.
unfoldable pub validly_claimed : Request → String → ℕ → Result Request
unfolding parse trim_space
validly_claimed r token now =
    if not (is_capture r.kind)
    then err wrong_kind
    else if not (is_claimed r.status) || trim_space token == ""
    then err not_validly_claimed
    else if not (or_empty r.claim_token == token)
    then err stale_claim
    else if lease_open r.lease_expires_at
    then ok r
    else err lease_expired
  where
    lease_open : Option Stamp → Bool
    lease_open none = false
    lease_open (some text) = elim (parse text) [ none ↦ false | some t ↦ ltb now t ]

pub record IngestConfig : Type 0 where
  pub request_id : String
  pub claim_token : String
  pub events : List String
  pub checked_at : ℕ
  pub now : ℕ

pub record Ingested : Type 0 where
  pub events_read : ℕ
  pub events_inserted : ℕ
  pub events_duplicate : ℕ

unfoldable pub count_events : List String → ℕ
count_events [] = 0
count_events (id ∷ ids) = suc (count_events ids)

-- An ingest for a claimed request. The time is read twice, before the input and after it.
unfoldable pub ingest_claimed : IngestConfig → Store → Result (Store × Ingested)
unfolding found_request find validly_claimed store_events complete_claimed_capture_request
    count_events record_connector_capture_completion format trim_space
ingest_claimed config store = do
  let id = trim_space config.request_id
  row ← found_request id (find (has_id id) store.requests)
  claim ← validly_claimed row config.claim_token config.checked_at
  let stored =
      store_events config.events (record { events = store.events; inserted = 0; duplicate = 0 })
  done ←
      complete_claimed_capture_request claim config.claim_token (format config.now)
        (record store { events = stored.events })
  ok (
    record done {
      runtime =
          record_connector_capture_completion done.runtime claim.connector_id config.now
            claim.until;
    },
    record {
      events_read = count_events config.events;
      events_inserted = stored.inserted;
      events_duplicate = stored.duplicate;
    },
  )

-- completeLLMTaskTx
unfoldable pub complete_llm_task : String → String → ℕ → Store → Result Store
unfolding holds_live_claim update_one complete_row format
complete_llm_task id token now store = do
  rows ←
      update_one (λ r. not (is_capture r.kind) && holds_live_claim id token (format now) r)
        (complete_row (format now)) store.requests
  ok (record store { requests = rows })

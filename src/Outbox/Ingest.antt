-- ===== src/Outbox/Ingest.antt =====
-- An ingest completes its claim once, with its events stored.
use workgraph.Common.{
  ℕ, suc, ◌+◌, String, ◌≡◌, refl, true, some, List, [], ◌∷◌, ok, err, arith, eq_refl, Bool-cases,
  ◌>>=◌, inl, inr, All, Ensures, returns, Ensures-bind, Ensures-of_ok, Ensures-ok, trim_space,
  not_validly_claimed,
}
use workgraph.Clock.{Stamp, format, parse}
use workgraph.Outbox.{Request, Store, has_id, find, is_capture, found_request}
use workgraph.Outbox.Rows.{IsWellFormed}
use workgraph.Outbox.Single.{ChangesOne, update_one-ChangesOne}
use workgraph.Outbox.Holder.{found_request-eq-ok, parsed-eq-ok, holds_live_claim-ById, find-has_id}
use workgraph.Outbox.Watermark.{Advanced, advance_cursor-Advanced}
use workgraph.Outbox.Invariant.Requests.{holds_live_claim-OnlyActive}
use workgraph.Outbox.Invariant.Updates.{complete_row-KeepsRows}
use workgraph.Outbox.Claim.{contains}
use workgraph.Outbox.Capability.{holds_live_claim}
use workgraph.Outbox.Complete.{
  IngestConfig, Ingested, Stored, store_event, store_events, count_events, complete_row,
  complete_claimed_capture_request, validly_claimed, ingest_claimed,
}

-- What storing events does: each is counted once, as new or as known, is stored, and none is lost.
pub record Keeps (ids : List String) (s t : Stored) : Type 0 where
  pub counted : t.inserted + t.duplicate ≡ s.inserted + s.duplicate + count_events ids
  pub all : All (λ id. contains id t.events ≡ true) ids
  pub lost_none : (id : String) → contains id s.events ≡ true → contains id t.events ≡ true

store_event-Keeps :
    (event : String) (s : Stored)
    → ((store_event event s).inserted + (store_event event s).duplicate
        ≡ suc (s.inserted + s.duplicate))
      × (contains event (store_event event s).events ≡ true)
      × ((id : String)
          → contains id s.events ≡ true
          → contains id (store_event event s).events ≡ true)
unfolding store_event contains
store_event-Keeps event s = elim (Bool-cases (contains event s.events)) [
  | inl e ↦ rw (e, e) (omega arith, refl, λ id h. h)
  | inr e ↦ rw e (omega arith, rw (eq_refl event) refl, λ id h. ground (arith, h))
]

pub store_events-Keeps : (ids : List String) (s : Stored) → Keeps ids s (store_events ids s)
unfolding store_events count_events
store_events-Keeps [] s = record { counted = omega arith; all = tt; lost_none = λ id h. h }
store_events-Keeps (event ∷ ids) s =
    let one = store_event-Keeps event s in
    let rest = store_events-Keeps ids (store_event event s) in
    record {
      counted = omega (arith, one.0, rest.counted);
      all = (rest.lost_none event one.1, rest.all);
      lost_none = λ id h. rest.lost_none id (one.2 id h);
    }

-- The request as its claim is checked is the one that was read, a capture.
pub validly_claimed-same :
    (r c : Request) (token : String) (now : ℕ)
    → validly_claimed r token now ≡ ok c
    → (c ≡ r) × (is_capture r.kind ≡ true)
unfolding validly_claimed
validly_claimed-same r c token now h = ground arith

-- What completing a claim does to the outbox, beside its events.
record Completed (request : Request) (token : String) (now : Stamp) (store after : Store)
    : Type 0 where
  change :
      ChangesOne request.id
        (holds_live_claim request.id token now)
        (complete_row now)
        store.requests
        after.requests
  until : ℕ
  until_read : parse request.until ≡ some until
  watermark : Advanced request.connector_id until store.cursors after.cursors
  events : after.events ≡ store.events

complete-Completed :
    (request : Request) (token : String) (now : Stamp) (store : Store)
    → IsWellFormed store.requests
    → Ensures
        (Completed request token now store)
        (complete_claimed_capture_request request token now store)
unfolding complete_claimed_capture_request
complete-Completed request token now store w =
    Ensures-bind _
      (Ensures-of_ok _ λ rows e.
        update_one-ChangesOne _ _ _ store.requests rows (holds_live_claim-ById _ _ _)
          (complete_row-KeepsRows _ _ (holds_live_claim-OnlyActive request.id token now)) w e)
      λ rows c. Ensures-bind _ (Ensures-of_ok _ (parsed-eq-ok request.until)) λ until p.
        Ensures-bind _ (advance_cursor-Advanced request.connector_id until now store.cursors)
          λ cursors a.
            returns _
              (record { change = c; until = until; until_read = p; watermark = a; events = refl })

-- The outbox and the counts that an ingest returns.
pub record Settled (config : IngestConfig) (store : Store) (result : Store × Ingested)
    : Type 0 where
  pub row : Request
  pub found : find (has_id (trim_space config.request_id)) store.requests ≡ some row
  pub capture : is_capture row.kind ≡ true
  pub change :
      ChangesOne row.id
        (holds_live_claim row.id config.claim_token (format config.now))
        (complete_row (format config.now))
        store.requests
        result.0.requests
  pub until : ℕ
  pub until_read : parse row.until ≡ some until
  pub watermark : Advanced row.connector_id until store.cursors result.0.cursors
  pub read : result.1.events_read ≡ count_events config.events
  pub counted : result.1.events_inserted + result.1.events_duplicate ≡ result.1.events_read
  pub stored : All (λ id. contains id result.0.events ≡ true) config.events
  pub lost_none :
      (id : String) → contains id store.events ≡ true → contains id result.0.events ≡ true

ingest-Settled :
    (config : IngestConfig) (store : Store)
    → IsWellFormed store.requests
    → Ensures (Settled config store) (ingest_claimed config store)
unfolding ingest_claimed
ingest-Settled config store w =
    Ensures-bind _ (Ensures-of_ok _ λ row e. found_request-eq-ok _ _ row e) λ row found.
      Ensures-bind (λ c. (c ≡ row) × (is_capture row.kind ≡ true))
        (Ensures-of_ok _ λ c e. validly_claimed-same row c config.claim_token config.checked_at e)
        λ claim same.
          Ensures-bind _ (complete-Completed claim config.claim_token (format config.now) _ w)
            λ done c.
              let events =
                store_events-Keeps config.events
                  (record { events = store.events; inserted = 0; duplicate = 0 }) in
              returns _ (record {
                row = claim;
                found = rw same.0 found;
                capture = rw same.0 same.1;
                change = c.change;
                until = c.until;
                until_read = c.until_read;
                watermark = c.watermark;
                read = refl;
                counted = omega (arith, events.counted);
                stored = rw c.events events.all;
                lost_none = rw c.events events.lost_none;
              })

-- On well-formed rows, an ingest that succeeds completes the one row that its token holds with an open
-- lease, and leaves the row of every other id. The connector's watermark is then at the end of the
-- request's window or past it, no watermark has moved back, and the other connectors' are the same.
-- Each event that was read is counted once, as new or as known, and is stored; no stored event is
-- lost.
pub ingest_claimed_lem :
    (config : IngestConfig) (store : Store) (result : Store × Ingested)
    → IsWellFormed store.requests
    → ingest_claimed config store ≡ ok result
    → Settled config store result
ingest_claimed_lem config store result w h = Ensures-ok (ingest-Settled config store w) h

complete_row-not_claimed :
    (r : Request) (now : Stamp) (token : String) (t : ℕ)
    → is_capture r.kind ≡ true
    → validly_claimed (complete_row now r) token t ≡ err not_validly_claimed
unfolding validly_claimed complete_row
complete_row-not_claimed r now token t h = ground arith

completed-refused :
    (again : IngestConfig) (after : Store) (row : Request) (now : Stamp)
    → find (has_id (trim_space again.request_id)) after.requests ≡ some (complete_row now row)
    → is_capture row.kind ≡ true
    → ingest_claimed again after ≡ err not_validly_claimed
unfolding ingest_claimed found_request ◌>>=◌
completed-refused again after row now found kind =
    let refused = complete_row-not_claimed row now again.claim_token again.checked_at kind in
    rw (found, refused) refl

-- After an ingest that succeeded on well-formed rows, every further ingest for the same request, by any
-- token and at any time, is refused as not validly claimed.
pub ingest_claimed_once :
    (config again : IngestConfig) (store : Store) (result : Store × Ingested)
    → IsWellFormed store.requests
    → ingest_claimed config store ≡ ok result
    → trim_space again.request_id ≡ trim_space config.request_id
    → ingest_claimed again result.0 ≡ err not_validly_claimed
ingest_claimed_once config again store result w h same =
    let s = ingest_claimed_lem config store result w h in
    let named = find-has_id _ store.requests s.row s.found in
    let before : s.change.before ≡ s.row = cc (s.found, s.change.found, named) in
    completed-refused again result.0 s.change.before (format config.now)
      (rw (same, ← named) s.change.changed) (rw before s.capture)

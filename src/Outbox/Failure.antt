-- ===== src/Outbox/Failure.antt =====
-- What a failure that a claim's holder reports does to the outbox: one claim is put back, after a delay
-- or with a shorter window.
use workgraph.Common.{
  ℕ, ◌+◌, String, ◌≡◌, refl, Bool, true, false, ◌&&◌, Option, none, some, List, ◌==◌, ok, arith,
  ◌⊎◌, inl, inr, Ensures, returns, Ensures-bind, Ensures-guard, Ensures-of_ok, Ensures-ok,
  Ensures-mono, trim_space,
}
use workgraph.Clock.{format, parse}
use workgraph.Window.{narrowed_capture_until}
use workgraph.Retry.{retry_initial, retry_max, connector_retry_delay}
use workgraph.Outbox.{Request, Store, has_id, find, is_claimed, or_empty}
use workgraph.Outbox.Recycle.{requeue}
use workgraph.Outbox.Rows.{IsWellFormed}
use workgraph.Outbox.Single.{ChangesOne, update_one-ChangesOne}
use workgraph.Outbox.Invariant.Updates.{OnlyClaimed, requeue-KeepsRows, shrink_window-KeepsRows}
use workgraph.Outbox.Capability.{
  CapabilityConfig, holds_claim, fail_capture_request, retry_later, after_split,
  narrowed_on_failure, asks_split, error_or_default, shrink_window, apply_split,
  narrow_capture_request_window,
}
use workgraph.Outbox.Holder.{holds_claim-ById, found_request-eq-ok, parsed-eq-ok}

-- The claim is put back in the queue, after the delay of its attempts.
pub record Retried (config : CapabilityConfig) (row : Request) (rows after : List Request)
    : Type 0 where
  pub change :
      ChangesOne config.request_id
        (holds_claim config.request_id config.claim_token)
        (requeue
          (format (config.now + connector_retry_delay retry_initial retry_max row.attempts))
          (error_or_default config.error))
        rows
        after

-- The window of the claim is cut, at an instant inside it, and the claim put back at once.
pub record Narrowed (config : CapabilityConfig) (row : Request) (rows after : List Request)
    : Type 0 where
  pub asked : asks_split config row ≡ true
  pub since : ℕ
  pub until : ℕ
  pub since_read : parse row.since ≡ some since
  pub until_read : parse row.until ≡ some until
  pub cut : ℕ
  pub split : narrowed_capture_until since until ≡ (cut, true)
  pub change :
      (detail : String) × ChangesOne
        (trim_space config.request_id)
        (holds_claim (trim_space config.request_id) config.claim_token)
        (shrink_window (format cut) (format config.now) detail)
        rows
        after

pub record Failed (config : CapabilityConfig) (store after : Store) : Type 0 where
  pub row : Request
  pub found : find (has_id (trim_space config.request_id)) store.requests ≡ some row
  pub held : (is_claimed row.status && or_empty row.claim_token == config.claim_token) ≡ true
  pub outcome :
      Retried config row store.requests after.requests
      ⊎ Narrowed config row store.requests after.requests
  pub cursors_kept : after.cursors ≡ store.cursors
  pub events_kept : after.events ≡ store.events

abbrev SplitOutcome : CapabilityConfig → Request → List Request → Option (List Request) → Type 0
SplitOutcome config row rows none = Unit
SplitOutcome config row rows (some after) = Narrowed config row rows after

holds_claim-OnlyClaimed : (id token : String) → OnlyClaimed (holds_claim id token)
unfolding holds_claim
holds_claim-OnlyClaimed id token r h = ground arith

module _ (config : CapabilityConfig) (row : Request) (rows : List Request)
    (w : IsWellFormed rows) where
  apply_split-outcome :
      (since until : ℕ) (split : ℕ × Bool)
      → asks_split config row ≡ true
      → parse row.since ≡ some since
      → parse row.until ≡ some until
      → narrowed_capture_until since until ≡ split
      → Ensures (SplitOutcome config row rows) (
          apply_split
            (trim_space config.request_id)
            config.claim_token
            (error_or_default config.error)
            config.now
            rows
            split)
  unfolding apply_split
  apply_split-outcome since until (u, false) asked a b e = returns _ tt
  apply_split-outcome since until (u, true) asked a b e =
      Ensures-bind _
        (Ensures-of_ok _ λ after done.
          update_one-ChangesOne _ _ _ rows after (holds_claim-ById _ _)
            (shrink_window-KeepsRows _ _ _ _ (holds_claim-OnlyClaimed _ _)) w done)
        λ after c. returns _ (record {
          asked = asked;
          since = since;
          until = until;
          since_read = a;
          until_read = b;
          cut = u;
          split = e;
          change = (_, c);
        })

  narrowed-outcome :
      (asked : Bool)
      → asks_split config row ≡ asked
      → find (has_id (trim_space config.request_id)) rows ≡ some row
      → Ensures (SplitOutcome config row rows) (narrowed_on_failure asked config rows)
  unfolding narrowed_on_failure narrow_capture_request_window
  narrowed-outcome false e found = returns _ tt
  narrowed-outcome true e found =
      Ensures-bind (λ r. r ≡ row)
        (Ensures-of_ok _ λ r h. let there = found_request-eq-ok _ _ r h in cc)
        λ r same. rw same (
          Ensures-bind _ (Ensures-of_ok _ (parsed-eq-ok row.since)) λ since a.
            Ensures-bind _ (Ensures-of_ok _ (parsed-eq-ok row.until)) λ until b.
              apply_split-outcome since until (narrowed_capture_until since until) e a b refl)

retry_later-outcome :
    (config : CapabilityConfig) (row : Request) (store : Store)
    → IsWellFormed store.requests
    → Ensures
        (λ after.
          Retried config row store.requests after.requests
          × (after.cursors ≡ store.cursors)
          × (after.events ≡ store.events))
        (retry_later config row store)
unfolding retry_later
retry_later-outcome config row store w =
    Ensures-bind _
      (Ensures-of_ok _ λ rows e.
        update_one-ChangesOne _ _ _ store.requests rows (holds_claim-ById _ _)
          (requeue-KeepsRows _ _ _ (holds_claim-OnlyClaimed _ _)) w e)
      λ rows c. returns _ (record { change = c }, refl, refl)

fail-Failed :
    (config : CapabilityConfig) (store : Store)
    → IsWellFormed store.requests
    → Ensures (Failed config store) (fail_capture_request config store)
unfolding fail_capture_request after_split
fail-Failed config store w = Ensures-guard _ _ _ λ known.
    Ensures-bind _ (Ensures-of_ok _ λ row e. found_request-eq-ok _ _ row e) λ row found.
      Ensures-guard _ _ _ λ held.
        Ensures-bind (SplitOutcome config row store.requests)
          (narrowed-outcome config row store.requests w (asks_split config row) refl found)
          (after_outcome row found held)
  where
    after_outcome :
        (row : Request)
        → find (has_id (trim_space config.request_id)) store.requests ≡ some row
        → (is_claimed row.status && or_empty row.claim_token == config.claim_token) ≡ true
        → (split : Option (List Request)) → SplitOutcome config row store.requests split
        → Ensures (Failed config store) (after_split config row store split)
    after_outcome row found held (some rows) s = returns _ (record {
      row = row;
      found = found;
      held = held;
      outcome = inr s;
      cursors_kept = refl;
      events_kept = refl;
    })
    after_outcome row found held none s =
        Ensures-mono _ (retry_later-outcome config row store w) λ after r. record {
          row = row;
          found = found;
          held = held;
          outcome = inl r.0;
          cursors_kept = r.1;
          events_kept = r.2;
        }

-- On well-formed rows, a failure that is accepted found the row under the trimmed id claimed by its
-- token. Either the one row under the id as it was given, which the token holds, is put back in the
-- queue after the delay of the found row's attempts; or the failure asked for a split, and the one row
-- under the trimmed id is put back at once, its window cut at the instant that narrowedCaptureUntil
-- computes. No row of another id changes, and no watermark and no event.
pub fail_capture_request_lem :
    (config : CapabilityConfig) (store after : Store)
    → IsWellFormed store.requests
    → fail_capture_request config store ≡ ok after
    → Failed config store after
fail_capture_request_lem config store after w h = Ensures-ok (fail-Failed config store w) h

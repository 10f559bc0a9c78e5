-- ===== src/Outbox/Window.antt =====
-- The capture that an emission leaves active, and the window that a new one has.
use workgraph.Common.{
  ℕ, ◌+◌, ◌-◌, ◌≤◌, String, ◌≡◌, refl, Bool, true, Option, none, some, List, [], ◌∷◌, ◌++◌, ok,
  arith, eq_refl, ◌>>=◌, >>=-eq-ok, Ensures, returns, Ensures-bind, Ensures-after, Ensures-guard,
  Ensures-of_ok, Ensures-ok, Result,
}
use workgraph.Clock.{Stamp, day, format, parse}
use workgraph.Registry.{captures_bounded_window, normalize_connector_id}
use workgraph.Outbox.{
  Request, Cursor, Store, with_requests, capture, Params, scope, find, is_active_for, cursor_of,
}
use workgraph.Outbox.Rows.{insert-eq-ok}
use workgraph.Outbox.Capability.{parsed}
use workgraph.Outbox.Holder.{parsed-eq-ok}
use workgraph.Outbox.Watermark.{IsWatermark}
use workgraph.Outbox.Recycle.{recycle_expired_capture_claims}
use workgraph.Outbox.Emit.{
  capture_since, capture_until, new_request, Emitted, emit_new, window_request, join_or_emit,
  emit_for, emit_bridged_capture_request, bridged_overlap,
}

-- A window that starts no later than the connector's watermark, ends by now, and is at most a day long
-- where the connector's captures are bounded.
pub record IsWindow (connector : String) (now : ℕ) (cursors : List Cursor) (since until : ℕ)
    : Type 0 where
  pub no_gap : (t : ℕ) → IsWatermark connector cursors t → since ≤ t
  pub ends : until ≤ now
  pub bounded : captures_bounded_window connector ≡ true → until ≤ since + day

minus-eq : (a since : ℕ) → ok (a - bridged_overlap) ≡ ok since → since ≤ a
minus-eq a since h = ground arith

capture_since-le :
    (o : Option Cursor) (now since : ℕ)
    → capture_since o now ≡ ok since
    → (cursor : Cursor) (t : ℕ) → o ≡ some cursor
    → parse cursor.completed_through ≡ some t
    → since ≤ t
unfolding capture_since
capture_since-le none now since h cursor t e p = absurd (cc e)
capture_since-le (some c) now since h cursor t e p =
    let (a, read, done) = >>=-eq-ok (parsed c.completed_through) _ h in
    let here = parsed-eq-ok c.completed_through a read in
    let same : a ≡ t = cc in omega (arith, same, minus-eq a since done)

capture_until-le : (connector : String) (since now : ℕ) → capture_until connector since now ≤ now
unfolding capture_until
capture_until-le connector since now = ground arith

capture_until-bounded :
    (connector : String) (since now : ℕ)
    → captures_bounded_window connector ≡ true
    → capture_until connector since now ≤ since + day
unfolding capture_until
capture_until-bounded connector since now h = ground arith

-- The connector's active request after an emission is the one that is returned; a new one is a pending
-- capture of a window, to be claimed at once.
pub record Requested (id connector : String) (now : ℕ) (cursors : List Cursor)
    (result : Store × Emitted) : Type 0 where
  pub active : find (is_active_for connector) result.0.requests ≡ some result.1.request
  pub window :
      result.1.created ≡ true
      → (since : ℕ) × (until : ℕ) × (params : String) × (result.1.request
          ≡ new_request id connector capture
              (format since)
              (format until)
              (scope params)
              (format now))
        × IsWindow connector now cursors since until
  pub cursors_kept : result.0.cursors ≡ cursors

find-append_last :
    (p : Request → Bool) (rows : List Request) (r : Request)
    → find p rows ≡ none
    → p r ≡ true
    → find p (rows ++ r ∷ []) ≡ some r
unfolding find
find-append_last p [] r e h = rw h refl
find-append_last p (x ∷ rows) r e h = ground (arith, find-append_last p rows r)

window_request-IsWindow :
    (validated : String → String → Result String) (id connector : String) (now : ℕ) (store : Store)
    → Ensures
        (λ request.
          (since : ℕ) × (until : ℕ) × (params : String) × (request
            ≡ new_request id connector capture
                (format since)
                (format until)
                (scope params)
                (format now))
          × IsWindow connector now store.cursors since until)
        (window_request validated id connector now store)
unfolding window_request
window_request-IsWindow validated id connector now store =
    Ensures-bind (λ since. (t : ℕ) → IsWatermark connector store.cursors t → since ≤ t)
      (Ensures-of_ok _ λ since e t w.
        capture_since-le (cursor_of connector store.cursors) now since e w.0 t w.1 w.2)
      λ since early. Ensures-after _ λ params. returns _ (
        since,
        capture_until connector since now,
        params,
        refl,
        record {
          no_gap = early;
          ends = capture_until-le connector since now;
          bounded = capture_until-bounded connector since now;
        },
      )

new_request-active :
    (id connector : String) (since until : Stamp) (params : Params) (now : Stamp)
    → is_active_for connector (new_request id connector capture since until params now) ≡ true
unfolding is_active_for new_request
new_request-active id connector since until params now = rw (eq_refl connector) refl

join_or_emit-Requested :
    (o : Option Request) (validated : String → String → Result String) (id connector : String)
    (now : ℕ) (store : Store)
    → find (is_active_for connector) store.requests ≡ o
    → Ensures
        (Requested id connector now store.cursors)
        (join_or_emit o validated id connector now store)
unfolding join_or_emit emit_new
join_or_emit-Requested (some active) validated id connector now store e =
    returns _ (record { active = e; window = λ h. absurd (cc h); cursors_kept = refl })
join_or_emit-Requested none validated id connector now store e =
    Ensures-bind _ (window_request-IsWindow validated id connector now store) λ request w.
      Ensures-bind (λ rows. store.requests ++ request ∷ [] ≡ rows)
        (Ensures-of_ok _ λ rows h. (insert-eq-ok request store.requests rows h).1)
        λ rows shape. returns _ (record {
          active = rw (← shape) (
              find-append_last (is_active_for connector) store.requests request e
                (rw w.3 (new_request-active id connector _ _ _ _)));
          window = λ h. w;
          cursors_kept = refl;
        })

emit-Requested :
    (validated : String → String → Result String) (id raw connector : String) (now : ℕ)
    (store : Store)
    → normalize_connector_id raw ≡ ok connector
    → Ensures
        (Requested id connector now store.cursors)
        (emit_bridged_capture_request validated id raw now store)
unfolding emit_bridged_capture_request emit_for ◌>>=◌
emit-Requested validated id raw connector now store e =
    let recycled = recycle_expired_capture_claims now store.requests in
    rw e (
      Ensures-after _ λ _. Ensures-guard _ _ _ λ _.
        join_or_emit-Requested (find (is_active_for connector) recycled) validated id connector now
          (with_requests store recycled) refl)

-- For a name that stands for a connector, an emission that succeeds returns the connector's active
-- request. If it made a new one, that request is a pending capture of a window that starts no later
-- than the connector's watermark, ends by now, and is at most a day long where the connector's captures
-- are bounded. No watermark changes.
pub emit_bridged_capture_request_lem :
    (validated : String → String → Result String) (id raw connector : String) (now : ℕ)
    (store : Store) (result : Store × Emitted)
    → normalize_connector_id raw ≡ ok connector
    → emit_bridged_capture_request validated id raw now store ≡ ok result
    → Requested id connector now store.cursors result
emit_bridged_capture_request_lem validated id raw connector now store result e h =
    Ensures-ok (emit-Requested validated id raw connector now store e) h

-- ===== src/Outbox/Progress.antt =====
-- What a history of calls has reached is not lost: the watermarks, the stored events, and that a
-- completed capture ended by its connector's watermark.
pub mod Requests
pub mod Completion
use workgraph.Common.{
  ℕ, ◌≤◌, ◌+◌, String, ◌≡◌, refl, sym, ap, subst, ◌∙◌, Bool, true, false, ◌&&◌, Option, none, some,
  List, [], ◌∷◌, arith, inl, inr, Bool-cases, All, All-mono, if◌then◌else◌, eq_iff, Ensures,
  returns, refuses, Ensures-bind, Ensures-of_ok, Ensures-mono, Ensures-after, Ensures-guard,
  Ensures-exactly_one, ok, Result, not, trim_space, select,
}
use workgraph.Clock.{Stamp, format, parse}
use workgraph.Outbox.{
  Request, Store, Cursor, Status, completed, cancelled, is_capture, has_id, find, update, affected,
  conflicts, with_requests, insert, is_active_for, or_empty,
}
use workgraph.Retry.{connector_retry_delay, retry_initial, retry_max}
use workgraph.Outbox.Rows.{IsWellFormed, Distinct}
use workgraph.Outbox.Watermark.{IsWatermark, Advanced, advance_cursor-Advanced}
use workgraph.Outbox.Covered.{
  is_completed, Covered, Quiet, Stays, pending-Quiet, pending_one-Quiet, update-Quiet,
  update_one-Quiet, insert-Quiet, recycle-Quiet, claim_rows-Quiet,
}
use workgraph.Outbox.Recycle.{requeue, recycle_expired_capture_claims}
use workgraph.Outbox.Claim.{ClaimConfig, contains, claim_capture_requests}
use workgraph.Outbox.Capability.{
  CapabilityConfig, holds_claim, holds_worker_claim, holds_live_claim, update_one,
  renew_capture_request, apply_split, shrink_window, narrowed_on_failure, retry_later, after_split,
  fail_capture_request, release_claim, release_each, release_worker_capture_claims, is_worker_claim,
}
use workgraph.Outbox.Cancel.{
  CancelConfig, is_open, cancel_row, cancel_active_row, cancel_found, cancel_capture_request,
  cancel_active_found, cancel_connector_capture_request, cancel_active_capture_requests,
}
use workgraph.Outbox.Emit.{
  new_request, emit_new, window_request, join_or_emit, emit_for, emit_bridged_capture_request,
  llm_request, join_or_emit_task, emit_llm_task_request,
}

-- Each completed capture ended by its connector's watermark.
abbrev pub IsCovered : Store → Type 0
IsCovered store = All (Covered store.cursors) store.requests

-- What a store may become: no watermark is moved back, no event is lost, and completed captures still
-- ended by their connector's watermark.
pub record Progresses (before after : Store) : Type 0 where
  pub watermarks :
      (connector : String) (t : ℕ)
      → IsWatermark connector before.cursors t
      → (t' : ℕ) × IsWatermark connector after.cursors t' × (t ≤ t')
  pub events : (id : String) → contains id before.events ≡ true → contains id after.events ≡ true
  pub covered : IsCovered before → IsCovered after

pub Progresses-refl : (store : Store) → Progresses store store
Progresses-refl store = record {
  watermarks = λ connector t w. (t, w, omega arith);
  events = λ id h. h;
  covered = λ h. h;
}

pub Progresses-trans : (a b c : Store) → Progresses a b → Progresses b c → Progresses a c
Progresses-trans a b c p q = record {
  watermarks = λ connector t w.
      let (u, v, le) = p.watermarks connector t w in
      let (u', v', le') = q.watermarks connector u v in (u', v', omega (arith, le, le'));
  events = λ id h. q.events id (p.events id h);
  covered = λ h. q.covered (p.covered h);
}

-- A change of the requests alone, and of the runtime file.
pub rows-Progresses :
    (before after : Store)
    → after.cursors ≡ before.cursors
    → after.events ≡ before.events
    → Quiet before.requests after.requests
    → Progresses before after
rows-Progresses before after c e q = record {
  watermarks = λ connector t w.
      (t, subst (λ cursors. IsWatermark connector cursors t) (sym c) w, omega arith);
  events = λ id h. subst (λ events. contains id events ≡ true) (sym e) h;
  covered =
      λ h. subst (λ cursors. All (Covered cursors) after.requests) (sym c) (q before.cursors h);
}

pub claim-Progresses :
    (config : ClaimConfig) (store : Store)
    → Ensures (λ r. Progresses store r.0) (claim_capture_requests config store)
unfolding claim_capture_requests
claim-Progresses config store = Ensures-guard _ _ _ λ _. Ensures-guard _ _ _ λ _.
    Ensures-after _ λ connector. Ensures-after _ λ kind.
      Ensures-bind (λ r. Quiet store.requests r.0)
        (claim_rows-Quiet config _ kind connector store.requests)
        λ result q. returns _ (rows-Progresses store _ refl refl q)

pub renew-Progresses :
    (config : CapabilityConfig) (store : Store)
    → Ensures (λ r. Progresses store r.0) (renew_capture_request config store)
unfolding renew_capture_request
renew-Progresses config store =
    Ensures-bind (Quiet store.requests) (update_one-Quiet _ _ store.requests λ r h cursors c. c)
      λ rows q. Ensures-after _ λ row. returns _ (rows-Progresses store _ refl refl q)

retry_later-Progresses :
    (config : CapabilityConfig) (row : Request) (store : Store)
    → Ensures (Progresses store) (retry_later config row store)
unfolding retry_later requeue
retry_later-Progresses config row store =
    Ensures-bind (Quiet store.requests) (pending_one-Quiet _ _ store.requests λ r. refl)
      λ rows q. returns _ (rows-Progresses store _ refl refl q)

abbrev AreQuiet : List Request → Option (List Request) → Type 0
AreQuiet rows none = Unit
AreQuiet rows (some after) = Quiet rows after

apply_split-Quiet :
    (id token message : String) (now : ℕ) (rows : List Request) (split : ℕ × Bool)
    → Ensures (AreQuiet rows) (apply_split id token message now rows split)
unfolding apply_split shrink_window requeue
apply_split-Quiet id token message now rows (until, false) = returns _ tt
apply_split-Quiet id token message now rows (until, true) =
    Ensures-bind (Quiet rows) (pending_one-Quiet _ _ rows λ r. refl) λ after q. returns _ q

narrowed_on_failure-Quiet :
    (asked : Bool) (config : CapabilityConfig) (rows : List Request)
    → Ensures (AreQuiet rows) (narrowed_on_failure asked config rows)
unfolding narrowed_on_failure
narrowed_on_failure-Quiet false config rows = returns _ tt
narrowed_on_failure-Quiet true config rows =
    Ensures-after _
      λ row. Ensures-after _ λ since. Ensures-after _ λ until. apply_split-Quiet _ _ _ _ rows _

after_split-Progresses :
    (config : CapabilityConfig) (row : Request) (store : Store) (rows : Option (List Request))
    → AreQuiet store.requests rows
    → Ensures (Progresses store) (after_split config row store rows)
unfolding after_split
after_split-Progresses config row store (some rows) q =
    returns _ (rows-Progresses store _ refl refl q)
after_split-Progresses config row store none q = retry_later-Progresses config row store

pub fail-Progresses :
    (config : CapabilityConfig) (store : Store)
    → Ensures (Progresses store) (fail_capture_request config store)
unfolding fail_capture_request
fail-Progresses config store = Ensures-guard _ _ _ λ _. Ensures-after _ λ row.
    Ensures-guard _ _ _ λ _.
      Ensures-bind (AreQuiet store.requests) (narrowed_on_failure-Quiet _ config store.requests)
        (after_split-Progresses config row store)

release_claim-Progresses :
    (worker reason : String) (now : ℕ) (claim : Request) (store : Store)
    → Progresses store (release_claim worker reason now claim store)
unfolding release_claim requeue
release_claim-Progresses worker reason now claim store =
    let available = format (now + connector_retry_delay retry_initial retry_max claim.attempts) in
    rows-Progresses store _ refl refl (
      pending-Quiet (holds_worker_claim claim.id worker (or_empty claim.claim_token))
        (requeue available reason) store.requests λ r. refl)

release_each-Progresses :
    (worker reason : String) (now : ℕ) (claims : List Request) (store : Store)
    → Progresses store (release_each worker reason now claims store)
unfolding release_each
release_each-Progresses worker reason now [] store = Progresses-refl store
release_each-Progresses worker reason now (c ∷ claims) store =
    Progresses-trans _ _ _ (release_claim-Progresses worker reason now c store)
      (release_each-Progresses worker reason now claims (release_claim worker reason now c store))

pub release_worker-Progresses :
    (worker reason : String) (now : ℕ) (store : Store)
    → Progresses store (release_worker_capture_claims worker reason now store)
unfolding release_worker_capture_claims
release_worker-Progresses worker reason now store =
    release_each-Progresses worker reason now (select (is_worker_claim worker) store.requests) store

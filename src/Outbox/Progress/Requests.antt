-- ===== src/Outbox/Progress/Requests.antt =====
-- Emissions and cancellations keep what the outbox has reached.
use workgraph.Common.{
  ℕ, String, ◌≡◌, refl, false, Option, none, some, List, [], ◌∷◌, Ensures, returns, refuses,
  Ensures-bind, Ensures-mono, Ensures-after, Ensures-guard, Ensures-exactly_one, Result,
}
use workgraph.Clock.{Stamp, format}
use workgraph.Outbox.{
  Request, Store, Status, completed, cancelled, find, affected, with_requests, is_active_for,
}
use workgraph.Outbox.Covered.{is_completed, Quiet, pending-Quiet, insert-Quiet, recycle-Quiet}
use workgraph.Outbox.Recycle.{recycle_expired_capture_claims}
use workgraph.Outbox.Cancel.{
  CancelConfig, is_open, cancel_row, cancel_active_row, cancel_found, cancel_capture_request,
  cancel_active_found, cancel_connector_capture_request, cancel_active_capture_requests,
}
use workgraph.Outbox.Emit.{
  new_request, emit_new, window_request, join_or_emit, emit_for, emit_bridged_capture_request,
  llm_request, join_or_emit_task, emit_llm_task_request,
}
use workgraph.Outbox.Progress.{Progresses, Progresses-refl, Progresses-trans, rows-Progresses}

cancel_found-Progresses :
    (id reason : String) (now : Stamp) (status : Status) (store : Store)
    → Ensures (Progresses store) (cancel_found id reason now status store)
unfolding cancel_found cancel_row
cancel_found-Progresses id reason now cancelled store = returns _ (Progresses-refl store)
cancel_found-Progresses id reason now completed store = refuses _
cancel_found-Progresses id reason now _ store =
    Ensures-exactly_one _ (affected (is_open id) store.requests) _ (
      rows-Progresses store _ refl refl
        (pending-Quiet (is_open id) (cancel_row now (some reason)) store.requests λ r. refl))

pub cancel-Progresses :
    (config : CancelConfig) (store : Store)
    → Ensures (Progresses store) (cancel_capture_request config store)
unfolding cancel_capture_request
cancel-Progresses config store =
    Ensures-guard _ _ _ λ _. Ensures-after _ λ row. cancel_found-Progresses _ _ _ row.status store

cancel_active_found-Progresses :
    (reason : String) (now : Stamp) (found : Option Request) (store : Store)
    → Progresses store (cancel_active_found reason now found store).0
unfolding cancel_active_found cancel_row
cancel_active_found-Progresses reason now none store = Progresses-refl store
cancel_active_found-Progresses reason now (some r) store =
    rows-Progresses store _ refl refl
      (pending-Quiet (is_open r.id) (cancel_row now (some reason)) store.requests λ r. refl)

pub cancel_connector-Progresses :
    (connector reason : String) (now : ℕ) (store : Store)
    → Progresses store (cancel_connector_capture_request connector reason now store).0
unfolding cancel_connector_capture_request
cancel_connector-Progresses connector reason now store =
    cancel_active_found-Progresses reason (format now)
      (find (is_active_for connector) store.requests) store

pub cancel_active-Progresses :
    (connector : String) (now : ℕ) (store : Store)
    → Progresses store (cancel_active_capture_requests connector now store)
unfolding cancel_active_capture_requests cancel_active_row
cancel_active-Progresses connector now store = rows-Progresses store _ refl refl (
    pending-Quiet (is_active_for connector) (cancel_active_row (format now)) store.requests
      λ r. refl)

emit_new-Progresses :
    (r : Request) (store : Store)
    → is_completed r.status ≡ false
    → Ensures (λ e. Progresses store e.0) (emit_new r store)
unfolding emit_new
emit_new-Progresses r store pends =
    Ensures-bind (Quiet store.requests) (insert-Quiet r store.requests pends)
      λ rows q. returns _ (rows-Progresses store _ refl refl q)

window_request-pends :
    (validated : String → String → Result String) (id connector : String) (now : ℕ) (store : Store)
    → Ensures (λ r. is_completed r.status ≡ false) (window_request validated id connector now store)
unfolding window_request new_request
window_request-pends validated id connector now store =
    Ensures-after _ λ since. Ensures-after _ λ params. returns _ refl

join_or_emit-Progresses :
    (active : Option Request) (validated : String → String → Result String) (id connector : String)
    (now : ℕ) (store : Store)
    → Ensures (λ e. Progresses store e.0) (join_or_emit active validated id connector now store)
unfolding join_or_emit
join_or_emit-Progresses (some r) validated id connector now store =
    returns _ (Progresses-refl store)
join_or_emit-Progresses none validated id connector now store =
    Ensures-bind _ (window_request-pends validated id connector now store)
      λ r pends. emit_new-Progresses r store pends

recycled-Progresses :
    (now : ℕ) (store : Store)
    → Progresses store (with_requests store (recycle_expired_capture_claims now store.requests))
recycled-Progresses now store = rows-Progresses store _ refl refl (recycle-Quiet now store.requests)

pub emit-Progresses :
    (validated : String → String → Result String) (id connector : String) (now : ℕ) (store : Store)
    → Ensures
        (λ e. Progresses store e.0)
        (emit_bridged_capture_request validated id connector now store)
unfolding emit_bridged_capture_request emit_for
emit-Progresses validated id connector now store = Ensures-after _ λ c. Ensures-after _ λ _.
    Ensures-guard _ _ _ λ _.
      let recycled = with_requests store (recycle_expired_capture_claims now store.requests) in
      Ensures-mono (λ e. Progresses recycled e.0)
        (join_or_emit-Progresses _ validated id c now recycled)
        λ e p. Progresses-trans store recycled e.0 (recycled-Progresses now store) p

join_or_emit_task-Progresses :
    (active : Option Request) (units : List String) (id : String) (now : ℕ) (store : Store)
    (recycled : List Request)
    → Progresses store (with_requests store recycled)
    → Ensures (λ e. Progresses store e.0) (join_or_emit_task active units id now store recycled)
unfolding join_or_emit_task llm_request new_request
join_or_emit_task-Progresses (some r) units id now store recycled p = returns _ p
join_or_emit_task-Progresses none [] id now store recycled p = returns _ (Progresses-refl store)
join_or_emit_task-Progresses none (u ∷ us) id now store recycled p =
    Ensures-bind (λ e. Progresses (with_requests store recycled) e.0)
      (emit_new-Progresses (llm_request id (u ∷ us) now) (with_requests store recycled) refl)
      λ e q. returns _ (Progresses-trans store _ e.0 p q)

pub emit_task-Progresses :
    (id : String) (units : List String) (now : ℕ) (store : Store)
    → Ensures (λ e. Progresses store e.0) (emit_llm_task_request id units now store)
unfolding emit_llm_task_request
emit_task-Progresses id units now store =
    join_or_emit_task-Progresses _ units id now store _ (recycled-Progresses now store)

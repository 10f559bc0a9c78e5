-- ===== src/Outbox/Invariant/Requests.antt =====
-- Emission, cancellation and completion: each keeps the rows well formed, and moves each row along
-- its life cycle.
use workgraph.Common.{
  ℕ, String, refl, Option, none, some, List, [], ◌∷◌, Result, arith, Ensures, returns, refuses,
  Ensures-bind, Ensures-of_ok, Ensures-mono, Ensures-after, Ensures-guard, Ensures-exactly_one,
}
use workgraph.Clock.{Stamp, format}
use workgraph.Outbox.{
  Request, Status, completed, cancelled, Store, with_requests, is_active_for, find, affected,
  insert,
}
use workgraph.Outbox.Rows.{IsSound}
use workgraph.Outbox.Evolution.{
  Evolves, Evolves-refl, Evolves-trans, update-Evolves, insert-Evolves,
}
use workgraph.Outbox.Invariant.Updates.{
  OnlyActive, cancel_row-KeepsRows, cancel_active_row-KeepsRows, complete_row-KeepsRows,
}
use workgraph.Outbox.Invariant.Claims.{StoreEvolves, recycle-Evolves, update_one-Evolves}
use workgraph.Outbox.Recycle.{recycle_expired_capture_claims}
use workgraph.Outbox.Capability.{holds_live_claim}
use workgraph.Outbox.Cancel.{
  CancelConfig, is_open, cancel_found, cancel_capture_request, cancel_active_found,
  cancel_connector_capture_request, cancel_active_capture_requests,
}
use workgraph.Outbox.Emit.{
  new_request, emit_new, window_request, join_or_emit, emit_for, emit_bridged_capture_request,
  llm_request, join_or_emit_task, emit_llm_task_request,
}
use workgraph.Outbox.Complete.{
  complete_claimed_capture_request, IngestConfig, ingest_claimed, complete_llm_task,
}

is_open-OnlyActive : (id : String) → OnlyActive (is_open id)
unfolding is_open
is_open-OnlyActive id r h = ground arith

cancel_found-Evolves :
    (id reason : String) (now : Stamp) (status : Status) (store : Store)
    → Ensures (StoreEvolves store) (cancel_found id reason now status store)
unfolding cancel_found
cancel_found-Evolves id reason now cancelled store = returns _ (Evolves-refl _)
cancel_found-Evolves id reason now completed store = refuses _
cancel_found-Evolves id reason now _ store =
    Ensures-exactly_one _ (affected (is_open id) store.requests) _
      (update-Evolves _ _ (cancel_row-KeepsRows (is_open id) _ _ (is_open-OnlyActive id)) _)

pub cancel-Evolves :
    (config : CancelConfig) (store : Store)
    → Ensures (StoreEvolves store) (cancel_capture_request config store)
unfolding cancel_capture_request
cancel-Evolves config store =
    Ensures-guard _ _ _ λ _. Ensures-after _ λ row. cancel_found-Evolves _ _ _ row.status store

cancel_active_found-Evolves :
    (reason : String) (now : Stamp) (found : Option Request) (store : Store)
    → StoreEvolves store (cancel_active_found reason now found store).0
unfolding cancel_active_found
cancel_active_found-Evolves reason now none store = Evolves-refl _
cancel_active_found-Evolves reason now (some r) store =
    update-Evolves _ _ (cancel_row-KeepsRows (is_open r.id) _ _ (is_open-OnlyActive r.id)) _

pub cancel_connector-Evolves :
    (connector reason : String) (now : ℕ) (store : Store)
    → StoreEvolves store (cancel_connector_capture_request connector reason now store).0
unfolding cancel_connector_capture_request
cancel_connector-Evolves connector reason now store =
    cancel_active_found-Evolves reason (format now) (find (is_active_for connector) store.requests)
      store

is_active_for-OnlyActive : (connector : String) → OnlyActive (is_active_for connector)
unfolding is_active_for
is_active_for-OnlyActive connector r h = ground arith

pub cancel_active-Evolves :
    (connector : String) (now : ℕ) (store : Store)
    → StoreEvolves store (cancel_active_capture_requests connector now store)
unfolding cancel_active_capture_requests
cancel_active-Evolves connector now store =
    update-Evolves _ _
      (cancel_active_row-KeepsRows (is_active_for connector) _ (is_active_for-OnlyActive connector))
      _

emit_new-Evolves :
    (r : Request) (store : Store)
    → IsSound r
    → Ensures (λ e. StoreEvolves store e.0) (emit_new r store)
unfolding emit_new
emit_new-Evolves r store s =
    Ensures-bind (Evolves store.requests)
      (Ensures-of_ok (insert r store.requests) λ after h. insert-Evolves r store.requests after s h)
      λ rows e. returns _ e

window_request-IsSound :
    (validated : String → String → Result String) (id connector : String) (now : ℕ) (store : Store)
    → Ensures IsSound (window_request validated id connector now store)
unfolding window_request new_request
window_request-IsSound validated id connector now store =
    Ensures-after _ λ since. Ensures-after _ λ params. returns _ (refl, refl)

join_or_emit-Evolves :
    (active : Option Request) (validated : String → String → Result String) (id connector : String)
    (now : ℕ) (store : Store)
    → Ensures (λ e. StoreEvolves store e.0) (join_or_emit active validated id connector now store)
unfolding join_or_emit
join_or_emit-Evolves (some r) validated id connector now store = returns _ (Evolves-refl _)
join_or_emit-Evolves none validated id connector now store =
    Ensures-bind IsSound (window_request-IsSound validated id connector now store)
      λ r s. emit_new-Evolves r store s

emit_for-Evolves :
    (validated : String → String → Result String) (id connector : String) (now : ℕ) (store : Store)
    → Ensures (λ e. StoreEvolves store e.0) (emit_for validated id connector now store)
unfolding emit_for
emit_for-Evolves validated id connector now store =
    Ensures-mono (λ e. Evolves (recycle_expired_capture_claims now store.requests) e.0.requests)
      (join_or_emit-Evolves _ validated id connector now _)
      λ e h. Evolves-trans store.requests _ _ (recycle-Evolves now store.requests) h

pub emit-Evolves :
    (validated : String → String → Result String) (id connector : String) (now : ℕ) (store : Store)
    → Ensures
        (λ e. StoreEvolves store e.0)
        (emit_bridged_capture_request validated id connector now store)
unfolding emit_bridged_capture_request
emit-Evolves validated id connector now store =
    Ensures-after _
      λ c. Ensures-after _ λ _. Ensures-guard _ _ _ λ _. emit_for-Evolves validated id c now store

join_or_emit_task-Evolves :
    (active : Option Request) (units : List String) (id : String) (now : ℕ) (store : Store)
    (recycled : List Request)
    → Evolves store.requests recycled
    → Ensures (λ e. StoreEvolves store e.0) (join_or_emit_task active units id now store recycled)
unfolding join_or_emit_task llm_request
join_or_emit_task-Evolves (some r) units id now store recycled h = returns _ h
join_or_emit_task-Evolves none [] id now store recycled h = returns _ (Evolves-refl _)
join_or_emit_task-Evolves none (u ∷ us) id now store recycled h =
    Ensures-bind (λ e. Evolves recycled e.0.requests)
      (emit_new-Evolves (llm_request id (u ∷ us) now) (with_requests store recycled) (refl, refl))
      λ e g. returns _ (Evolves-trans _ _ _ h g)

pub emit_task-Evolves :
    (id : String) (units : List String) (now : ℕ) (store : Store)
    → Ensures (λ e. StoreEvolves store e.0) (emit_llm_task_request id units now store)
unfolding emit_llm_task_request
emit_task-Evolves id units now store =
    join_or_emit_task-Evolves _ units id now store _ (recycle-Evolves now store.requests)

pub holds_live_claim-OnlyActive :
    (id token : String) (now : Stamp) → OnlyActive (holds_live_claim id token now)
unfolding holds_live_claim
holds_live_claim-OnlyActive id token now r h = ground arith

complete_claimed-Evolves :
    (request : Request) (token : String) (now : Stamp) (store : Store)
    → Ensures (StoreEvolves store) (complete_claimed_capture_request request token now store)
unfolding complete_claimed_capture_request
complete_claimed-Evolves request token now store =
    Ensures-bind (Evolves store.requests)
      (update_one-Evolves _ _ store.requests
        (complete_row-KeepsRows _ _ (holds_live_claim-OnlyActive request.id token now)))
      λ rows e. Ensures-after _ λ until. Ensures-after _ λ cursors. returns _ e

pub ingest-Evolves :
    (config : IngestConfig) (store : Store)
    → Ensures (λ r. StoreEvolves store r.0) (ingest_claimed config store)
unfolding ingest_claimed
ingest-Evolves config store = Ensures-after _ λ row. Ensures-after _ λ claim.
    Ensures-bind (λ s. Evolves store.requests s.requests) (complete_claimed-Evolves claim _ _ _)
      λ done e. returns _ e

pub complete_task-Evolves :
    (id token : String) (now : ℕ) (store : Store)
    → Ensures (StoreEvolves store) (complete_llm_task id token now store)
unfolding complete_llm_task
complete_task-Evolves id token now store =
    Ensures-bind (Evolves store.requests)
      (update_one-Evolves _ _ store.requests (
        complete_row-KeepsRows _ _
          (λ r h. ground (arith, holds_live_claim-OnlyActive id token (format now) r))))
      λ rows e. returns _ e

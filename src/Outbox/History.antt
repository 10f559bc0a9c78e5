-- ===== src/Outbox/History.antt =====
-- What holds after any history of calls.
use workgraph.Common.{
  String, ◌≡◌, false, Result, some, List, [], ◌∷◌, Ensures, returns, refuses, ap, ◌∙◌,
}
use workgraph.Outbox.{Request, Store, has_id, find, is_active}
use workgraph.Outbox.Rows.{IsWellFormed, Follows}
use workgraph.Outbox.Evolution.{Evolves-refl, Evolves-trans}
use workgraph.Outbox.Invariant.Claims.{
  StoreEvolves, claim-Evolves, renew-Evolves, fail-Evolves, release_worker-Evolves,
}
use workgraph.Outbox.Invariant.Requests.{
  cancel-Evolves, cancel_connector-Evolves, cancel_active-Evolves, emit-Evolves, emit_task-Evolves,
  ingest-Evolves, complete_task-Evolves,
}
use workgraph.Outbox.Calls.{
  Call, emits, emits_task, claims, renews, fails, releases, cancels, cancels_connector,
  cancels_active, ingests, completes_task, settle, settle_with, step, run,
}

pub settle-Evolves :
    (store : Store) (m : Result Store)
    → Ensures (StoreEvolves store) m
    → StoreEvolves store (settle store m)
settle-Evolves store _ (returns after e) = e
settle-Evolves store _ (refuses e) = Evolves-refl _

pub settle_with-Evolves {ℓ} :
    {A : Type ℓ} (store : Store) (m : Result (Store × A))
    → Ensures (λ r. StoreEvolves store r.0) m
    → StoreEvolves store (settle_with store m)
settle_with-Evolves store _ (returns after e) = e
settle_with-Evolves store _ (refuses e) = Evolves-refl _

module _ (validated : String → String → Result String) where
  pub step-Evolves : (store : Store) (c : Call) → StoreEvolves store (step validated store c)
  unfolding step
  step-Evolves store (emits id connector now) =
      settle_with-Evolves store _ (emit-Evolves validated id connector now store)
  step-Evolves store (emits_task id units now) =
      settle_with-Evolves store _ (emit_task-Evolves id units now store)
  step-Evolves store (claims config) = settle_with-Evolves store _ (claim-Evolves config store)
  step-Evolves store (renews config) = settle_with-Evolves store _ (renew-Evolves config store)
  step-Evolves store (fails config) = settle-Evolves store _ (fail-Evolves config store)
  step-Evolves store (releases worker reason now) = release_worker-Evolves worker reason now store
  step-Evolves store (cancels config) = settle-Evolves store _ (cancel-Evolves config store)
  step-Evolves store (cancels_connector connector reason now) =
      cancel_connector-Evolves connector reason now store
  step-Evolves store (cancels_active connector now) = cancel_active-Evolves connector now store
  step-Evolves store (ingests config) = settle_with-Evolves store _ (ingest-Evolves config store)
  step-Evolves store (completes_task id token now) =
      settle-Evolves store _ (complete_task-Evolves id token now store)

  run-Evolves : (store : Store) (cs : List Call) → StoreEvolves store (run validated store cs)
  unfolding run
  run-Evolves store [] = Evolves-refl _
  run-Evolves store (c ∷ cs) =
      Evolves-trans _ _ _ (step-Evolves store c) (run-Evolves (step validated store c) cs)

  -- After any history of calls from well-formed rows, the ids are distinct, each connector has at most
  -- one pending or claimed request, a claimed row holds a token, a worker, a claim time, a lease and
  -- at least one attempt, and no other row holds a token or a lease.
  pub run-IsWellFormed :
      (store : Store) (cs : List Call)
      → IsWellFormed store.requests
      → IsWellFormed (run validated store cs).requests
  run-IsWellFormed store cs = (run-Evolves store cs).keeps

  -- No history of calls loses a request: it is still found under its id, with its connector, kind,
  -- start and creation time, with no fewer attempts, and it is active only if it was active.
  pub run-Follows :
      (store : Store) (cs : List Call) (id : String) (r : Request)
      → find (has_id id) store.requests ≡ some r
      → (s : Request) × (find (has_id id) (run validated store cs).requests ≡ some s) × Follows r s
  run-Follows store cs = (run-Evolves store cs).follows

  -- A completed or cancelled request is never changed again: whatever calls follow, the row found
  -- under its id is the same.
  pub run_settled :
      (store : Store) (cs : List Call) (id : String) (r : Request)
      → find (has_id id) store.requests ≡ some r
      → is_active r.status ≡ false
      → find (has_id id) (run validated store cs).requests ≡ some r
  run_settled store cs id r found settled =
      let (s, kept, f) = run-Follows store cs id r found in kept ∙ ap some (f.settled_kept settled)

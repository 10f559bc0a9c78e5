-- ===== src/Outbox/Reached.antt =====
-- What any history of calls keeps of what the outbox has reached.
use workgraph.Common.{String, List, [], ◌∷◌, Ensures, returns, refuses, Result}
use workgraph.Outbox.{Store}
use workgraph.Outbox.Rows.{IsWellFormed}
use workgraph.Outbox.Progress.{
  IsCovered, Progresses, Progresses-refl, Progresses-trans, claim-Progresses, renew-Progresses,
  fail-Progresses, release_worker-Progresses,
}
use workgraph.Outbox.History.{step-Evolves}
use workgraph.Outbox.Calls.{
  Call, emits, emits_task, claims, renews, fails, releases, cancels, cancels_connector,
  cancels_active, ingests, completes_task, settle, settle_with, step, run,
}
use workgraph.Outbox.Progress.Requests.{
  emit-Progresses, emit_task-Progresses, cancel-Progresses, cancel_connector-Progresses,
  cancel_active-Progresses,
}
use workgraph.Outbox.Progress.Completion.{complete_task-Progresses, ingest-Progresses}

settle-Progresses :
    (store : Store) (m : Result Store)
    → Ensures (Progresses store) m
    → Progresses store (settle store m)
settle-Progresses store _ (returns after p) = p
settle-Progresses store _ (refuses e) = Progresses-refl store

settle_with-Progresses {ℓ} :
    {A : Type ℓ} (store : Store) (m : Result (Store × A))
    → Ensures (λ r. Progresses store r.0) m
    → Progresses store (settle_with store m)
settle_with-Progresses store _ (returns after p) = p
settle_with-Progresses store _ (refuses e) = Progresses-refl store

module _ (validated : String → String → Result String) where
  step-Progresses :
      (store : Store) (c : Call)
      → IsWellFormed store.requests
      → Progresses store (step validated store c)
  unfolding step
  step-Progresses store (emits id connector now) w =
      settle_with-Progresses store _ (emit-Progresses validated id connector now store)
  step-Progresses store (emits_task id units now) w =
      settle_with-Progresses store _ (emit_task-Progresses id units now store)
  step-Progresses store (claims config) w =
      settle_with-Progresses store _ (claim-Progresses config store)
  step-Progresses store (renews config) w =
      settle_with-Progresses store _ (renew-Progresses config store)
  step-Progresses store (fails config) w = settle-Progresses store _ (fail-Progresses config store)
  step-Progresses store (releases worker reason now) w =
      release_worker-Progresses worker reason now store
  step-Progresses store (cancels config) w =
      settle-Progresses store _ (cancel-Progresses config store)
  step-Progresses store (cancels_connector connector reason now) w =
      cancel_connector-Progresses connector reason now store
  step-Progresses store (cancels_active connector now) w =
      cancel_active-Progresses connector now store
  step-Progresses store (ingests config) w =
      settle_with-Progresses store _ (ingest-Progresses config store w)
  step-Progresses store (completes_task id token now) w =
      settle-Progresses store _ (complete_task-Progresses id token now store)

  run-Progresses :
      (store : Store) (cs : List Call)
      → IsWellFormed store.requests
      → Progresses store (run validated store cs)
  unfolding run
  run-Progresses store [] w = Progresses-refl store
  run-Progresses store (c ∷ cs) w =
      Progresses-trans store _ _ (step-Progresses store c w)
        (run-Progresses (step validated store c) cs ((step-Evolves validated store c).keeps w))

  -- After any history of calls from well-formed rows, where each completed capture ended at a
  -- watermark of its connector or before it, each one still does, those that were completed in the
  -- history among them. No watermark has moved back, and no stored event is lost.
  pub run-IsCovered :
      (store : Store) (cs : List Call)
      → IsWellFormed store.requests
      → IsCovered store
      → IsCovered (run validated store cs) × Progresses store (run validated store cs)
  run-IsCovered store cs w c = let p = run-Progresses store cs w in (p.covered c, p)

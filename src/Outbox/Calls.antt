-- ===== src/Outbox/Calls.antt =====
-- A history of the outbox: the calls that the daemon, the workers and the operator make, one after
-- another. A call that returns an error has rolled back and leaves the store as it was.
use workgraph.Common.{ℕ, String, Result, ok, err, List, [], ◌∷◌}
use workgraph.Outbox.{Store}
use workgraph.Outbox.Claim.{ClaimConfig, claim_capture_requests}
use workgraph.Outbox.Capability.{
  CapabilityConfig, renew_capture_request, fail_capture_request, release_worker_capture_claims,
}
use workgraph.Outbox.Cancel.{
  CancelConfig, cancel_capture_request, cancel_connector_capture_request,
  cancel_active_capture_requests,
}
use workgraph.Outbox.Emit.{emit_bridged_capture_request, emit_llm_task_request}
use workgraph.Outbox.Complete.{IngestConfig, ingest_claimed, complete_llm_task}

pub data Call : Type 0 where
  emits : String → String → ℕ → Call
  emits_task : String → List String → ℕ → Call
  claims : ClaimConfig → Call
  renews fails : CapabilityConfig → Call
  releases : String → String → ℕ → Call
  cancels : CancelConfig → Call
  cancels_connector : String → String → ℕ → Call
  cancels_active : String → ℕ → Call
  ingests : IngestConfig → Call
  completes_task : String → String → ℕ → Call

-- The store after a call, by its result.
abbrev pub settle : Store → Result Store → Store
settle store (ok after) = after
settle store (err e) = store

abbrev pub settle_with {ℓ} : {A : Type ℓ} → Store → Result (Store × A) → Store
settle_with store (ok r) = r.0
settle_with store (err e) = store

module _ (validated : String → String → Result String) where
  unfoldable pub step : Store → Call → Store
  step store (emits id connector now) =
      settle_with store (emit_bridged_capture_request validated id connector now store)
  step store (emits_task id units now) =
      settle_with store (emit_llm_task_request id units now store)
  step store (claims config) = settle_with store (claim_capture_requests config store)
  step store (renews config) = settle_with store (renew_capture_request config store)
  step store (fails config) = settle store (fail_capture_request config store)
  step store (releases worker reason now) = release_worker_capture_claims worker reason now store
  step store (cancels config) = settle store (cancel_capture_request config store)
  step store (cancels_connector connector reason now) =
      (cancel_connector_capture_request connector reason now store).0
  step store (cancels_active connector now) = cancel_active_capture_requests connector now store
  step store (ingests config) = settle_with store (ingest_claimed config store)
  step store (completes_task id token now) = settle store (complete_llm_task id token now store)

  unfoldable pub run : Store → List Call → Store
  unfolding step
  run store [] = store
  run store (c ∷ cs) = run (step store c) cs

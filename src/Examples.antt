-- ===== src/Examples.antt =====
-- Concrete runs: the outbox of one connector, from the request to the ingest, and the links of one unit.
pub mod Values
use workgraph.Common.{
  ◌+◌, ◌-◌, ◌*◌, String, ◌≡◌, refl, true, false, none, some, List, [], ◌∷◌, Result, ok, err, arith,
  ◌>>=◌, exactly_one, guard, if◌then◌else◌, not_validly_claimed,
}
use workgraph.Clock.{minute, day, format, at_most}
use workgraph.Runtime.{empty_entry}
use workgraph.Registry.{normalize_connector_id}
use workgraph.Outbox.{Request, Store, capture, pending, Params, has_id, find, conflicts}
use workgraph.Outbox.Rows.{IsWellFormed, Follows}
use workgraph.Outbox.Recycle.{recycle_expired_capture_claims, has_expired}
use workgraph.Outbox.Expiry.{recycle_expired_capture_claims_lem, expired_row}
use workgraph.Outbox.Claim.{ClaimConfig, ClaimedRequest, claim_capture_requests}
use workgraph.Outbox.Capability.{
  CapabilityConfig, renew_capture_request, fail_capture_request, holds_live_claim,
}
use workgraph.Outbox.Complete.{IngestConfig, Ingested, ingest_claimed}
use workgraph.Outbox.Emit.{Emitted, emit_bridged_capture_request}
use workgraph.Outbox.Calls.{Call, emits, renews, fails, ingests, run}
use workgraph.Outbox.History.{run-IsWellFormed, run-Follows, run_settled}
use workgraph.Outbox.Progress.{IsCovered, Progresses}
use workgraph.Outbox.Reached.{run-IsCovered}
use workgraph.Outbox.Granted.{Granted, claim_capture_requests_lem}
use workgraph.Outbox.Holder.{
  Renewed, renewed, with_lease, renew_capture_request_lem, renew_capture_request-accepts,
}
use workgraph.Outbox.Failure.{Failed, fail_capture_request_lem}
use workgraph.Outbox.Ingest.{Settled, ingest_claimed_lem, ingest_claimed_once}
use workgraph.Outbox.Window.{Requested, emit_bridged_capture_request_lem}

abbrev value {ℓ} : {A : Type ℓ} → A → Result A → A
value d (ok a) = a
value d (err e) = d

abbrev any_params : String → String → Result String
any_params connector params = ok params

-- Bridged capture of slack, with a watermark at the instant 100 days.
abbrev empty_store : Store
empty_store = record {
  requests = [];
  cursors =
      record {
        connector_id = "slack";
        completed_through = format (100 * day);
        updated_at = format (100 * day);
      }
      ∷ [];
  events = "e0" ∷ [];
  runtime = ("slack", record empty_entry { capture_mode = "bridged" }) ∷ [];
}

abbrev emitted : Store × Emitted
unfolding emit_bridged_capture_request ◌>>=◌ guard
emitted =
    value
      (
        empty_store,
        record {
          request = record {
            id = "";
            connector_id = "";
            kind = capture;
            since = format 0;
            until = format 0;
            params = Params.scope "";
            status = pending;
            attempts = 0;
            available_at = format 0;
            last_error = none;
            created_at = format 0;
            claim_token = none;
            claimed_by = none;
            claimed_at = none;
            lease_expires_at = none;
            completed_at = none;
            cancelled_at = none;
          };
          created = false;
        },
      )
      (emit_bridged_capture_request any_params "r1" "slack" (101 * day) empty_store)

emit_example : Requested "r1" "slack" (101 * day) empty_store.cursors emitted
unfolding emitted emit_bridged_capture_request normalize_connector_id ◌>>=◌ guard
emit_example =
    emit_bridged_capture_request_lem any_params "r1" "slack" "slack" (101 * day) empty_store emitted
      refl refl

abbrev claim_config : ClaimConfig
claim_config = record {
  connector_id = "slack";
  kind = "capture";
  worker = "w1";
  max = 2;
  now = 101 * day + minute;
  lease = 0;
  llm_tasks = [];
  tokens = "t1" ∷ "t2" ∷ [];
}

emitted-IsWellFormed : IsWellFormed emitted.0.requests
unfolding emitted conflicts
emitted-IsWellFormed = record { distinct = (tt, tt); sound = ((refl, refl), tt) }

abbrev granted : Store × List ClaimedRequest
unfolding emitted claim_capture_requests ◌>>=◌ guard at_most
granted = value (emitted.0, []) (claim_capture_requests claim_config emitted.0)

claim_example : Granted claim_config granted
unfolding granted
claim_example = claim_capture_requests_lem claim_config emitted.0 granted emitted-IsWellFormed refl

granted-IsWellFormed : IsWellFormed granted.0.requests
unfolding granted
granted-IsWellFormed = record {
  distinct = (tt, tt);
  sound = ((refl, refl, refl, refl, omega arith), tt);
}

abbrev held : CapabilityConfig
held = record {
  request_id = " r1";
  claim_token = "t1";
  error = "too much";
  reason = "window_too_large";
  now = 101 * day + 2 * minute;
  lease = 10 * minute;
}

abbrev the_claim : Request
unfolding granted
the_claim = elim granted.1 [ [] ↦ emitted.1.request | c ∷ cs ↦ c.request ]

renewed_example :
    Renewed held granted.0
      (renewed held granted.0, with_lease (format (held.now + held.lease)) the_claim)
unfolding the_claim renew_capture_request exactly_one
renewed_example =
    renew_capture_request_lem held granted.0
      (renewed held granted.0, with_lease (format (held.now + held.lease)) the_claim)
      granted-IsWellFormed refl

renew-accepts_example :
    renew_capture_request held granted.0
    ≡ ok (renewed held granted.0, with_lease (format (held.now + held.lease)) the_claim)
unfolding the_claim holds_live_claim
renew-accepts_example =
    renew_capture_request-accepts held granted.0 the_claim granted-IsWellFormed refl refl

abbrev given_back : Store
unfolding granted fail_capture_request exactly_one
given_back = value granted.0 (fail_capture_request held granted.0)

fail_example : Failed held granted.0 given_back
unfolding given_back
fail_example = fail_capture_request_lem held granted.0 given_back granted-IsWellFormed refl

abbrev ingest : IngestConfig
ingest = record {
  request_id = "r1";
  claim_token = "t1";
  events = "e0" ∷ "e1" ∷ "e2" ∷ [];
  checked_at = 101 * day + 2 * minute;
  now = 101 * day + 3 * minute;
}

abbrev no_counts : Ingested
no_counts = record { events_read = 0; events_inserted = 0; events_duplicate = 0 }

abbrev ingested : Store × Ingested
unfolding granted ingest_claimed exactly_one
ingested = value (granted.0, no_counts) (ingest_claimed ingest granted.0)

ingest_example : Settled ingest granted.0 ingested
unfolding ingested
ingest_example = ingest_claimed_lem ingest granted.0 ingested granted-IsWellFormed refl

ingest_once_example : ingest_claimed ingest ingested.0 ≡ err not_validly_claimed
unfolding ingested
ingest_once_example =
    ingest_claimed_once ingest ingest granted.0 ingested granted-IsWellFormed refl refl

abbrev calls : List Call
calls = emits "r2" "slack" (101 * day + 5 * minute) ∷ renews held ∷ fails held ∷ ingests ingest ∷ []

run-IsWellFormed_example : IsWellFormed (run any_params granted.0 calls).requests
run-IsWellFormed_example = run-IsWellFormed any_params granted.0 calls granted-IsWellFormed

run-Follows_example :
    (s : Request) × (find (has_id "r1") (run any_params granted.0 calls).requests ≡ some s)
    × Follows the_claim s
unfolding the_claim
run-Follows_example = run-Follows any_params granted.0 calls "r1" the_claim refl

granted-IsCovered : IsCovered granted.0
unfolding granted
granted-IsCovered = ((λ done. absurd (cc done)), tt)

run-IsCovered_example :
    IsCovered (run any_params granted.0 calls)
    × Progresses granted.0 (run any_params granted.0 calls)
run-IsCovered_example =
    run-IsCovered any_params granted.0 calls granted-IsWellFormed granted-IsCovered

abbrev the_end : Request
unfolding ingested
the_end =
    value the_claim (elim ingested.0.requests [ [] ↦ err not_validly_claimed | r ∷ rs ↦ ok r ])

run_settled_example : find (has_id "r1") (run any_params ingested.0 calls).requests ≡ some the_end
unfolding the_end
run_settled_example = run_settled any_params ingested.0 calls "r1" the_end refl refl

recycle_example :
    find (has_id "r1") (recycle_expired_capture_claims (102 * day) granted.0.requests)
    ≡ some (
        if has_expired (format (102 * day)) the_claim
        then expired_row (102 * day) the_claim
        else the_claim)
unfolding the_claim
recycle_example =
    recycle_expired_capture_claims_lem (102 * day) "r1" granted.0.requests the_claim
      granted-IsWellFormed.distinct refl

-- The lease of that run had expired.
recycle_expires : has_expired (format (102 * day)) the_claim ≡ true
unfolding the_claim has_expired
recycle_expires = refl

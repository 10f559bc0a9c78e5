-- ===== src/Outbox/Claim.antt =====
-- Workers claim pending requests (claimCaptureRequests). The tokens are the values that newEventID
-- draws from the system's random source, in order; `none` in the configuration stands for "".
use workgraph.Common.{
  ℕ, zero, suc, ◌+◌, ◌*◌, String, Bool, true, false, not, ◌&&◌, ◌||◌, some, List, [], ◌∷◌, ◌++◌,
  ◌==◌, Result, ok, err, ◌>>=◌, guard, worker_required, claim_max_too_large, no_randomness,
  unknown_kind, take, select, leb, trim_space, if◌then◌else◌,
}
use workgraph.Clock.{Stamp, format, before, at_most, minute}
use workgraph.Registry.{normalize_capture_request_connector_id}
use workgraph.Outbox.{
  Kind, capture, llm_task, Params, scope, task, Request, claimed, Store, with_requests, is_pending,
  same_kind, has_id, found_request, update, affected, find, text_before,
}
use workgraph.Outbox.Recycle.{recycle_expired_capture_claims}

abbrev pub bridged_claim_lease : ℕ
bridged_claim_lease = 5 * minute

unfoldable pub normalize_capture_request_kind : String → Result Kind
unfolding trim_space
normalize_capture_request_kind kind =
    let trimmed = trim_space kind in
    if trimmed == "" || trimmed == "capture"
    then ok capture
    else if trimmed == "llm_task"
    then ok llm_task
    else err unknown_kind

pub record ClaimConfig : Type 0 where
  pub connector_id : String
  pub kind : String
  pub worker : String
  pub max : ℕ
  pub now : ℕ
  pub lease : ℕ
  pub llm_tasks : List String
  pub tokens : List String

pub record ClaimedRequest : Type 0 where
  pub request : Request
  pub claim_token : String

unfoldable pub contains : String → List String → Bool
contains text [] = false
contains text (t ∷ ts) = t == text || contains text ts

-- COALESCE(json_extract(params_json, '$.task'), '')
abbrev task_of : Params → String
task_of (scope text) = ""
task_of (task name units) = name

-- The filter on tasks, which an empty list leaves out.
abbrev wanted_task : List String → Request → Bool
wanted_task [] r = true
wanted_task (t ∷ ts) r = contains (task_of r.params) (t ∷ ts)

unfoldable pub is_claimable : Stamp → Kind → String → List String → Request → Bool
unfolding contains
is_claimable now kind connector tasks r =
    is_pending r.status
    && at_most r.available_at now
    && same_kind r.kind kind
    && (connector == "" || r.connector_id == connector)
    && wanted_task tasks r

-- ORDER BY available_at, created_at, id
unfoldable pub queue_before : Request → Request → Bool
queue_before r s =
    if before r.available_at s.available_at
    then true
    else if before s.available_at r.available_at
    then false
    else if before r.created_at s.created_at
    then true
    else if before s.created_at r.created_at
    then false
    else text_before r.id s.id

unfoldable pub insert_ordered : Request → List Request → List Request
unfolding queue_before
insert_ordered r [] = r ∷ []
insert_ordered r (s ∷ ss) =
    let rest = insert_ordered r ss in if queue_before s r then s ∷ rest else r ∷ s ∷ ss

unfoldable pub order_queue : List Request → List Request
unfolding insert_ordered
order_queue [] = []
order_queue (r ∷ rs) = insert_ordered r (order_queue rs)

unfoldable pub take_claim : String → String → Stamp → Stamp → Request → Request
take_claim token worker now expires r = record r {
  status = claimed;
  attempts = r.attempts + 1;
  claim_token = some token;
  claimed_by = some worker;
  claimed_at = some now;
  lease_expires_at = some expires;
}

-- WHERE id = ? AND status = 'pending' AND available_at <= ?
unfoldable pub may_take : String → Stamp → Request → Bool
may_take id now r = has_id id r && is_pending r.status && at_most r.available_at now

-- One round of the loop, by the rows that its update affects.
unfoldable pub claimed_row :
    ℕ → String → String → List Request → List Request → Result (List Request × List ClaimedRequest)
unfolding find found_request
claimed_row zero id token taken rows = ok (rows, [])
claimed_row (suc n) id token taken rows = found_request id (find (has_id id) taken) >>= λ row.
    ok (taken, record { request = row; claim_token = token } ∷ [])

unfoldable pub claim_one :
    Stamp
    → Stamp
    → String
    → String
    → String
    → List Request
    → Result (List Request × List ClaimedRequest)
unfolding may_take take_claim update affected claimed_row
claim_one now expires worker token id rows =
    claimed_row (affected (may_take id now) rows) id token
      (update (may_take id now) (take_claim token worker now expires) rows) rows

-- The loop over the listed ids.
unfoldable pub claim_each :
    Stamp
    → Stamp
    → String
    → List String
    → List Request
    → List Request
    → Result (List Request × List ClaimedRequest)
unfolding claim_one
claim_each now expires worker tokens [] rows = ok (rows, [])
claim_each now expires worker [] (r ∷ rs) rows = err no_randomness
claim_each now expires worker (token ∷ tokens) (r ∷ rs) rows =
    claim_one now expires worker token r.id rows >>= λ one.
    claim_each now expires worker tokens rs one.0 >>= λ rest. ok (rest.0, one.1 ++ rest.1)

abbrev pub max_claims : ℕ → ℕ
max_claims zero = 1
max_claims (suc n) = suc n

abbrev pub lease_or_default : ℕ → ℕ
lease_or_default zero = bridged_claim_lease
lease_or_default (suc n) = suc n

unfoldable pub optional_connector : String → Result String
unfolding normalize_capture_request_connector_id trim_space
optional_connector id =
    let trimmed = trim_space id in
    if trimmed == "" then ok "" else normalize_capture_request_connector_id trimmed

-- What is claimed: the first `max` claimable rows of the queue.
unfoldable pub listed_claims : ClaimConfig → ℕ → Kind → String → List Request → List Request
unfolding order_queue is_claimable format
listed_claims config max kind connector rows =
    take max
      (order_queue (select (is_claimable (format config.now) kind connector config.llm_tasks) rows))

unfoldable pub claim_rows :
    ClaimConfig → ℕ → Kind → String → List Request → Result (List Request × List ClaimedRequest)
unfolding recycle_expired_capture_claims listed_claims claim_each format trim_space
claim_rows config max kind connector rows =
    let recycled = recycle_expired_capture_claims config.now rows in
    claim_each (format config.now) (format (config.now + lease_or_default config.lease))
      (trim_space config.worker) config.tokens (listed_claims config max kind connector recycled)
      recycled

unfoldable pub claim_capture_requests : ClaimConfig → Store → Result (Store × List ClaimedRequest)
unfolding claim_rows optional_connector normalize_capture_request_kind trim_space
claim_capture_requests config store = do
  _ ← guard (not (trim_space config.worker == "")) worker_required
  _ ← guard (leb (max_claims config.max) 100) claim_max_too_large
  connector ← optional_connector config.connector_id
  kind ← normalize_capture_request_kind config.kind
  result ← claim_rows config (max_claims config.max) kind connector store.requests
  ok (with_requests store result.0, result.1)

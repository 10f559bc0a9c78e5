-- ===== src/Relink/Apply.antt =====
-- Applying changes (applyProjectRelinkChanges, supersedeProjectLinkTx).
use Prim.Native.String.{◌++◌ as text_append}
use workgraph.Common.{
  ℕ, zero, suc, ◌+◌, String, Bool, true, false, ◌&&◌, ◌||◌, Option, none, some, List, [], ◌∷◌, ◌++◌,
  Result, ok, err, ◌>>=◌, length, take, drop, if◌then◌else◌, Failure,
}
use workgraph.Links.{ProjectLink, LinkStore, same_id, current_project_link, rejected}
use workgraph.Links.Review.{same_state}
use workgraph.Links.Write.{decide_project_link}
use workgraph.Links.Record.{ProjectLinkProposal, record_project_link_run}
use workgraph.Accuracy.{Database, AutoApplyThresholds}
use workgraph.Accuracy.Record.{with_project_links_tx}
use workgraph.Relink.{ProjectRelinkChange, is_undecided}

abbrev pub project_link_batch_size : ℕ
project_link_batch_size = 500

-- The link that a change was planned for is still the unit's current one, as it was.
unfoldable pub is_same_link : ProjectLink → ProjectLink → Bool
is_same_link current planned =
    same_id current.id planned.id
    && same_state current.state planned.state
    && is_undecided current.decision

unfoldable pub superseded_link : ℕ → ProjectLink → ProjectLink
superseded_link now current = record current { state = rejected; decided_at = some now }

-- supersedeProjectLinkTx, by the unit's current link and the one that the change was planned for
unfoldable pub supersede :
    ℕ → Option ProjectLink → Option ProjectLink → LinkStore → LinkStore × Bool
unfolding is_same_link superseded_link decide_project_link
supersede now none none store = (store, true)
supersede now (some current) none store = (store, false)
supersede now none (some planned) store = (store, false)
supersede now (some current) (some planned) store =
    if is_same_link current planned
    then (decide_project_link (superseded_link now current) store, true)
    else (store, false)

unfoldable pub supersede_project_link : ℕ → ProjectRelinkChange → LinkStore → LinkStore × Bool
unfolding supersede current_project_link
supersede_project_link now change store =
    supersede now (current_project_link change.unit.id store) change.current store

unfoldable pub supersede_each :
    ℕ → List ProjectRelinkChange → LinkStore → LinkStore × List ProjectRelinkChange
unfolding supersede_project_link
supersede_each now [] store = (store, [])
supersede_each now (change ∷ changes) store =
    let one = supersede_project_link now change store in
    let rest = supersede_each now changes one.0 in
    (rest.0, if one.1 then change ∷ rest.1 else rest.1)

unfoldable pub replacements : List ProjectRelinkChange → List ProjectLinkProposal
replacements [] = []
replacements (change ∷ changes) = elim change.replacement [
  | none ↦ replacements changes
  | some proposal ↦ proposal ∷ replacements changes
]

-- The replacements of a batch are one run, where there are some.
unfoldable pub record_replacements :
    (ℕ → Bool) → ℕ → String → List ProjectLinkProposal → LinkStore → Result LinkStore
unfolding record_project_link_run
record_replacements is_format now run_id [] store = ok store
record_replacements is_format now run_id (p ∷ ps) store =
    record_project_link_run is_format now run_id
      (record { source = "deterministic"; profile = ""; run_id = run_id; links = p ∷ ps }) store
    >>= λ written. ok written.0

unfoldable pub apply_batch :
    (ℕ → Bool)
    → ℕ
    → String
    → List ProjectRelinkChange
    → Database
    → Result (Database × List ProjectRelinkChange)
unfolding supersede_each replacements record_replacements
apply_batch is_format now run_id batch db =
    let done = supersede_each now batch db.store in
    record_replacements is_format now run_id (replacements done.1) done.0 >>= λ store.
    ok (record db { store = store }, done.1)

-- changes[start:min(start+size, len(changes))], for each start
unfoldable pub batches {ℓ} : {A : Type ℓ} → ℕ → ℕ → List A → List (List A)
batches size zero xs = []
batches size (suc fuel) [] = []
batches size (suc fuel) (x ∷ xs) = take size (x ∷ xs) ∷ batches size fuel (drop size (x ∷ xs))

unfoldable pub has_replacement : List ProjectRelinkChange → Bool
has_replacement [] = false
has_replacement (change ∷ changes) = elim change.replacement [
  | none ↦ has_replacement changes
  | some proposal ↦ true
]

abbrev pub left_over : List (List ProjectRelinkChange) → ℕ
left_over [] = 0
left_over (batch ∷ rest) = length batch + left_over rest

pub record RelinkOutcome : Type 0 where
  pub db : Database
  pub done : List ProjectRelinkChange
  pub wrote : Bool
  pub unfinished : ℕ
  pub failure : Option Failure

unfoldable pub after_batch :
    Database
    → List ProjectRelinkChange
    → Bool
    → ℕ
    → (Database → List ProjectRelinkChange → Bool → RelinkOutcome)
    → Result (Database × List ProjectRelinkChange)
    → RelinkOutcome
unfolding has_replacement
after_batch db done wrote unfinished next (err e) = record {
  db = db;
  done = done;
  wrote = wrote;
  unfinished = unfinished;
  failure = some e;
}
after_batch db done wrote unfinished next (ok after) =
    next after.0 (done ++ after.1) (wrote || has_replacement after.1)

unfoldable pub apply_batches :
    (ℕ → Bool)
    → ℕ
    → AutoApplyThresholds
    → String
    → List (List ProjectRelinkChange)
    → Database
    → List ProjectRelinkChange
    → Bool
    → RelinkOutcome
unfolding after_batch with_project_links_tx apply_batch
apply_batches is_format now thresholds run_id [] db done wrote = record {
  db = db;
  done = done;
  wrote = wrote;
  unfinished = 0;
  failure = none;
}
apply_batches is_format now thresholds run_id (batch ∷ rest) db done wrote =
    after_batch db done wrote (left_over (batch ∷ rest))
      (apply_batches is_format now thresholds run_id rest)
      (with_project_links_tx now thresholds (apply_batch is_format now run_id batch) db)

unfoldable pub apply_project_relink_changes :
    (ℕ → Bool)
    → ℕ
    → AutoApplyThresholds
    → String
    → List ProjectRelinkChange
    → Database
    → RelinkOutcome
unfolding apply_batches batches
apply_project_relink_changes is_format now thresholds drawn changes db =
    apply_batches is_format now thresholds (text_append "run_" drawn)
      (batches project_link_batch_size (length changes) changes) db [] false

-- The id of the run, where some replacement was written.
unfoldable pub committed_run_id : String → RelinkOutcome → String
committed_run_id drawn outcome = if outcome.wrote then text_append "run_" drawn else ""

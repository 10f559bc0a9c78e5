-- ===== src/Links/Record.antt =====
-- A run of the linker records its proposals (recordProjectLinkRunTx, recordProjectLinkVerification).
-- The id of the run is as given, or the text that newEventID draws.
use Prim.Native.String.{◌++◌ as text_append}
use workgraph.Common.{
  ℕ, String, Bool, ◌||◌, Option, none, some, List, [], ◌∷◌, ◌++◌, ◌==◌, Result, ok, guard, ◌>>=◌,
  if◌then◌else◌, unsupported_run_source,
}
use workgraph.Links.{
  ProjectLink, ProposedProject, Verification, LinkStore, proposed, applied, undecided, Double, plus,
  one, current_project_link, first_non_empty,
}
use workgraph.Links.Write.{insert_project_link}

pub record ProjectLinkProposal : Type 0 where
  pub unit_id : String
  pub unit_kind : String
  pub container : String
  pub target : String
  pub project : String
  pub new_project : Option ProposedProject
  pub kind : String
  pub summary : String
  pub confidence : Double
  pub evidence : List String
  pub rule : String
  pub apply : Bool
  pub profile : String
  pub verification : Option (ℕ → Verification)

pub record ProjectLinkRun : Type 0 where
  pub source : String
  pub profile : String
  pub run_id : String
  pub links : List ProjectLinkProposal

pub record RunResult : Type 0 where
  pub written : List ProjectLink
  pub skipped : List String

unfoldable pub run_id_or_new : String → String → String
run_id_or_new drawn run_id = if run_id == "" then text_append "run_" drawn else run_id

unfoldable pub proposed_link : ProjectLinkRun → String → ProjectLinkProposal → ProjectLink
unfolding first_non_empty
proposed_link run run_id proposal = record {
  id = 0;
  unit_id = proposal.unit_id;
  unit_kind = proposal.unit_kind;
  container = proposal.container;
  target = proposal.target;
  project = proposal.project;
  new_project = proposal.new_project;
  source = run.source;
  kind = proposal.kind;
  summary = proposal.summary;
  confidence = if run.source == "deterministic" then plus one else proposal.confidence;
  evidence = proposal.evidence;
  state = if proposal.apply then applied else proposed;
  auto = proposal.apply;
  rule = proposal.rule;
  profile = first_non_empty proposal.profile run.profile;
  run_id = run_id;
  created_at = 0;
  decided_at = none;
  decision = undecided;
}

unfoldable pub record_verification : Option (ℕ → Verification) → ℕ → LinkStore → LinkStore
record_verification none id store = store
record_verification (some verification) id store = record store {
  verifications = store.verifications ++ verification id ∷ [];
}

-- One round: a unit with a current link is skipped.
unfoldable pub record_one :
    (ℕ → Bool)
    → ℕ
    → Option ProjectLink
    → ProjectLink
    → Option (ℕ → Verification)
    → LinkStore
    → Result (LinkStore × RunResult)
unfolding insert_project_link record_verification
record_one is_format now (some current) link verification store =
    ok (store, record { written = []; skipped = link.unit_id ∷ [] })
record_one is_format now none link verification store =
    insert_project_link is_format now link store >>= λ written. ok (
      record_verification verification written.1.id written.0,
      record { written = written.1 ∷ []; skipped = [] },
    )

unfoldable pub record_each :
    (ℕ → Bool)
    → ℕ
    → ProjectLinkRun
    → String
    → List ProjectLinkProposal
    → LinkStore
    → Result (LinkStore × RunResult)
unfolding proposed_link current_project_link record_one
record_each is_format now run run_id [] store = ok (store, record { written = []; skipped = [] })
record_each is_format now run run_id (proposal ∷ proposals) store =
    record_one is_format now (current_project_link proposal.unit_id store)
      (proposed_link run run_id proposal) proposal.verification store
    >>= λ one. record_each is_format now run run_id proposals one.0 >>= λ rest. ok (
      rest.0,
      record {
        written = one.1.written ++ rest.1.written;
        skipped = one.1.skipped ++ rest.1.skipped;
      },
    )

unfoldable pub record_project_link_run :
    (ℕ → Bool) → ℕ → String → ProjectLinkRun → LinkStore → Result (LinkStore × RunResult)
unfolding record_each run_id_or_new
record_project_link_run is_format now drawn run store = do
  _ ← guard (run.source == "deterministic" || run.source == "llm") unsupported_run_source
  record_each is_format now run (run_id_or_new drawn run.run_id) run.links store

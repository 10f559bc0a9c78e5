-- ===== src/Relink/Examples.antt =====
-- A container that maps to another project now, and the witness.
use workgraph.Common.{
  ℕ, ◌*◌, arith, String, ◌≡◌, refl, Bool, true, false, Option, none, some, List, [], ◌∷◌, map,
  Result, ok, guard, ◌>>=◌,
}
use workgraph.Clock.{day}
use workgraph.Units.{ProjectUnit}
use workgraph.Links.{ProjectLink, Decision, undecided, LinkState, applied, rejected, plus, one}
use workgraph.Links.Rows.{IsWellFormed, clash}
use workgraph.Links.Record.{ProjectLinkProposal}
use workgraph.Accuracy.{Database}
use workgraph.Accuracy.Record.{with_project_links_tx, record_project_auto_apply_state}
use workgraph.Accuracy.Report.{project_link_accuracy}
use workgraph.Relink.{
  ProjectRelinkState, ProjectRelinkChange, container_changes, container_change, may_change,
  planned_change, last_current, single_mapped_project, project_container_mapping_link_movable,
  proposal_replaceable,
}
use workgraph.Relink.Apply.{
  RelinkOutcome, apply_project_relink_changes, apply_batches, apply_batch, batches, supersede_each,
  record_replacements,
}
use workgraph.Relink.Containers.{
  ProjectContainerRelink, count_changes, relink_rows, relink_project_containers,
}
use workgraph.Relink.Relinked.{LeavesLinks, relink_project_containers_lem}

abbrev now : ℕ
now = 800000 * day

abbrev link : ℕ → String → Decision → ProjectLink
link id unit decision = record {
  id = id;
  unit_id = unit;
  unit_kind = "slack.burst";
  container = "c";
  target = "project";
  project = "atlas";
  new_project = none;
  source = "deterministic";
  kind = "";
  summary = "";
  confidence = plus one;
  evidence = "e1" ∷ [];
  state = applied;
  auto = true;
  rule = "container_mapping";
  profile = "";
  run_id = "run_1";
  created_at = now;
  decided_at = none;
  decision = decision;
}

-- Two units that were linked by the mapping; the user confirmed the second link.
abbrev db : Database
db = record {
  store = record {
    links = link 1 "u1" undecided ∷ link 2 "u2" Decision.confirmed ∷ [];
    next_id = 3;
    verifications = [];
  };
  events = [];
}

db-IsWellFormed : IsWellFormed db.store
unfolding clash
db-IsWellFormed = record { distinct = ((refl, tt), (tt, tt)); drawn = omega arith }

abbrev unit : String → ProjectUnit
unit id = record {
  id = id;
  kind = "slack.burst";
  container = "c";
  start = now;
  end = now;
  event_ids = "e1" ∷ [];
  eligible = true;
}

abbrev proposal : ProjectUnit → ProjectLinkProposal
proposal u = record {
  unit_id = u.id;
  unit_kind = u.kind;
  container = u.container;
  target = "project";
  project = "borea";
  new_project = none;
  kind = "";
  summary = "";
  confidence = plus one;
  evidence = u.event_ids;
  rule = "container_mapping";
  apply = true;
  profile = "";
  verification = none;
}

resolve : ProjectUnit → Result (Option ProjectLinkProposal)
resolve u = ok (some (proposal u))

any_project : String → Bool
any_project slug = true

mapped : String → List String
mapped container = "borea" ∷ "borea" ∷ []

abbrev state : ProjectRelinkState
state = record {
  units = unit "u1" ∷ unit "u2" ∷ [];
  links = db.store.links;
  has_project = any_project;
  mapped = mapped;
  resolve = resolve;
}

no_format : ℕ → Bool
no_format c = false

abbrev changes : List ProjectRelinkChange
changes =
    record {
      unit = unit "u1";
      current = some (link 1 "u1" undecided);
      replacement = some (proposal (unit "u1"));
    }
    ∷ []

abbrev outcome : RelinkOutcome
outcome = apply_project_relink_changes no_format now [] "2" changes db

abbrev counts : List ProjectContainerRelink
counts = count_changes outcome.done (relink_rows state [] ("c" ∷ "c" ∷ []))

is_outcome :
    relink_project_containers no_format now [] "2" state ("c" ∷ "c" ∷ []) db ≡ ok (outcome, counts)
unfolding relink_project_containers container_changes container_change may_change planned_change
    last_current resolve project_container_mapping_link_movable proposal_replaceable ◌>>=◌
is_outcome = refl

-- The first link is superseded, the second is as it was, and the first unit has a new link.
outcome_links :
    map {B = LinkState × String} (λ l. (l.state, l.project)) outcome.db.store.links
    ≡ (rejected, "atlas") ∷ (applied, "atlas") ∷ (applied, "borea") ∷ []
unfolding apply_project_relink_changes apply_batches batches with_project_links_tx apply_batch
    supersede_each record_replacements record_project_auto_apply_state project_link_accuracy ◌>>=◌
    guard no_format
outcome_links = refl

outcome_counts :
    map {B = String × ℕ} (λ row. (row.project, row.relinked)) counts ≡ ("borea", 1) ∷ []
unfolding count_changes relink_rows single_mapped_project any_project mapped
    apply_project_relink_changes apply_batches batches with_project_links_tx apply_batch
    supersede_each record_replacements record_project_auto_apply_state project_link_accuracy ◌>>=◌
    guard no_format
outcome_counts = refl

relink_example : LeavesLinks now db outcome
relink_example =
    relink_project_containers_lem no_format now [] "2" db db-IsWellFormed state refl
      ("c" ∷ "c" ∷ []) outcome counts is_outcome

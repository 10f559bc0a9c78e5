-- ===== src/Relink/Containers.antt =====
-- The two commands that plan changes and apply them (RelinkProjectContainers,
-- RecheckProjectProposals).
use workgraph.Common.{
  ℕ, ◌+◌, String, Bool, false, Option, none, some, List, [], ◌∷◌, map, ◌==◌, Result, ok, ◌>>=◌,
  if◌then◌else◌,
}
use workgraph.Links.{ProjectLink, is_proposed}
use workgraph.Accuracy.{Database, AutoApplyThresholds}
use workgraph.Relink.{
  ProjectRelinkChange, ProjectRelinkState, among, container_changes, recheck_changes,
  single_mapped_project,
}
use workgraph.Relink.Apply.{RelinkOutcome, apply_project_relink_changes}

pub record ProjectContainerRelink : Type 0 where
  pub container : String
  pub project : String
  pub relinked : ℕ
  pub released : ℕ
  pub resolved : ℕ

abbrev was_proposed : Option ProjectLink → Bool
was_proposed none = false
was_proposed (some link) = is_proposed link.state

unfoldable pub count_change : ProjectRelinkChange → ProjectContainerRelink → ProjectContainerRelink
count_change change counts =
    if was_proposed change.current
    then record counts { resolved = counts.resolved + 1 }
    else elim change.replacement [
      | none ↦ record counts { released = counts.released + 1 }
      | some proposal ↦ record counts { relinked = counts.relinked + 1 }
    ]

unfoldable pub count_changes :
    List ProjectRelinkChange → List ProjectContainerRelink → List ProjectContainerRelink
unfolding count_change
count_changes [] rows = rows
count_changes (change ∷ changes) rows = count_changes changes (
    map (λ row. if row.container == change.unit.container then count_change change row else row)
      rows)

unfoldable pub relink_rows :
    ProjectRelinkState → List String → List String → List ProjectContainerRelink
unfolding single_mapped_project
relink_rows state seen [] = []
relink_rows state seen (name ∷ names) =
    let rest = relink_rows state (name ∷ seen) names in
    if among name seen
    then rest
    else record {
      container = name;
      project = single_mapped_project state name;
      relinked = 0;
      released = 0;
      resolved = 0;
    }
      ∷ rest

unfoldable pub relink_project_containers :
    (ℕ → Bool)
    → ℕ
    → AutoApplyThresholds
    → String
    → ProjectRelinkState
    → List String
    → Database
    → Result (RelinkOutcome × List ProjectContainerRelink)
unfolding container_changes apply_project_relink_changes count_changes relink_rows
relink_project_containers is_format now thresholds drawn state containers db = do
  changes ← container_changes state containers state.units
  let outcome = apply_project_relink_changes is_format now thresholds drawn changes db
  ok (outcome, count_changes outcome.done (relink_rows state [] containers))

unfoldable pub recheck_project_proposals :
    (ℕ → Bool)
    → ℕ
    → AutoApplyThresholds
    → String
    → ProjectRelinkState
    → Database
    → Result RelinkOutcome
unfolding recheck_changes apply_project_relink_changes
recheck_project_proposals is_format now thresholds drawn state db = do
  changes ← recheck_changes state state.units
  ok (apply_project_relink_changes is_format now thresholds drawn changes db)

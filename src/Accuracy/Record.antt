-- ===== src/Accuracy/Record.antt =====
-- A transaction on links records which profiles are paused (withProjectLinksTx,
-- recordAutoApplyPauseTransition), and a run of the linker applies its links by that
-- (associateAutoApplies, associateRun.write). The random id of an event's row is left out.
use Prim.Native.String.{◌++◌ as text_append}
use workgraph.Common.{
  ℕ, ◌-◌, String, Bool, true, false, not, ◌&&◌, ◌||◌, none, some, List, [], ◌∷◌, ◌++◌, ◌==◌, Result,
  ok, ◌>>=◌, ltb, if◌then◌else◌,
}
use workgraph.Clock.{format}
use workgraph.Links.{ProjectLink, LinkStore, Decision, corrected, undone}
use workgraph.Links.Review.{below}
use workgraph.Links.Record.{ProjectLinkProposal, RunResult, record_project_link_run}
use workgraph.Accuracy.{
  PauseEvent, PauseEventType, Database, ProfileLinkAccuracy, AutoApplyThresholds, threshold_of,
  ProjectLinkAccuracyReport, auto_apply_rejection_window,
}
use workgraph.Accuracy.Measure.{decided_time}
use workgraph.Accuracy.Report.{project_link_accuracy, for_profile}

unfoldable pub pause_summary : ProfileLinkAccuracy → String
pause_summary e =
    if e.paused
    then text_append "Project auto-apply paused: " e.pause_reason
    else text_append "Project auto-apply resumed for " e.profile

unfoldable pub pause_event_row : ℕ → PauseEventType → ProfileLinkAccuracy → PauseEvent
unfolding pause_summary format
pause_event_row now type e = record {
  type = type;
  timestamp = format now;
  payload = some (record { paused = e.paused; reason = e.pause_reason; profile = some e.profile });
  summary = pause_summary e;
}

unfoldable pub record_profile_pause_transition :
    ℕ → ProfileLinkAccuracy → List PauseEvent → List PauseEvent
unfolding pause_event_row
record_profile_pause_transition now e events = elim e.pause_event [
  | none ↦ events
  | some type ↦ events ++ pause_event_row now type e ∷ []
]

unfoldable pub record_transitions : ℕ → List ProfileLinkAccuracy → List PauseEvent → List PauseEvent
unfolding record_profile_pause_transition
record_transitions now [] events = events
record_transitions now (e ∷ es) events =
    record_transitions now es (record_profile_pause_transition now e events)

unfoldable pub record_auto_apply_pause_transition :
    ℕ → ProjectLinkAccuracyReport → Database → Database
unfolding record_transitions
record_auto_apply_pause_transition now report db = record db {
  events = record_transitions now report.profiles db.events;
}

unfoldable pub record_project_auto_apply_state :
    ℕ → AutoApplyThresholds → Database → Result Database
unfolding project_link_accuracy record_auto_apply_pause_transition
record_project_auto_apply_state now thresholds db = do
  report ← project_link_accuracy now thresholds [] db
  ok (record_auto_apply_pause_transition now report db)

unfoldable pub with_project_links_tx {ℓ} :
    {A : Type ℓ}
    → ℕ
    → AutoApplyThresholds
    → (Database → Result (Database × A))
    → Database
    → Result (Database × A)
unfolding record_project_auto_apply_state
with_project_links_tx now thresholds apply db = do
  done ← apply db
  db ← record_project_auto_apply_state now thresholds done.0
  ok (db, done.1)

abbrev is_rejection : Decision → Bool
is_rejection corrected = true
is_rejection undone = true
is_rejection _ = false

-- A link of the container to the same target was corrected or undone in the window.
unfoldable pub was_rejected : ℕ → String → String → String → List ProjectLink → Bool
unfolding decided_time
was_rejected since container target project [] = false
was_rejected since container target project (link ∷ links) =
    link.container == container
      && link.target == target
      && link.project == project
      && is_rejection link.decision
      && not (ltb (decided_time link.decided_at) since)
    || was_rejected since container target project links

unfoldable pub associate_auto_applies :
    ℕ → ProfileLinkAccuracy → AutoApplyThresholds → ProjectLinkProposal → LinkStore → Bool
unfolding was_rejected threshold_of
associate_auto_applies now accuracy thresholds proposal store =
    not (
      accuracy.paused
      || below proposal.confidence (threshold_of proposal.profile thresholds)
      || proposal.target == "new_project")
    && not (
        was_rejected (now - auto_apply_rejection_window) proposal.container proposal.target
          proposal.project store.links)

unfoldable pub apply_proposals :
    ℕ
    → AutoApplyThresholds
    → ProjectLinkAccuracyReport
    → LinkStore
    → List ProjectLinkProposal
    → List ProjectLinkProposal
unfolding associate_auto_applies for_profile
apply_proposals now thresholds report store [] = []
apply_proposals now thresholds report store (p ∷ ps) =
    record p {
      apply = associate_auto_applies now (for_profile p.profile report) thresholds p store;
    }
    ∷ apply_proposals now thresholds report store ps

-- What a run writes in its transaction, before a task is completed and a second opinion asked for.
unfoldable pub write_links :
    (ℕ → Bool)
    → ℕ
    → AutoApplyThresholds
    → List String
    → String
    → String
    → List ProjectLinkProposal
    → Database
    → Result (Database × RunResult)
unfolding project_link_accuracy record_auto_apply_pause_transition apply_proposals
    record_project_link_run
write_links is_format now thresholds requested drawn profile proposals db = do
  report ← project_link_accuracy now thresholds requested db
  let db = record_auto_apply_pause_transition now report db
  written ←
      record_project_link_run is_format now drawn
        (record {
          source = "llm";
          profile = profile;
          run_id = "";
          links = apply_proposals now thresholds report db.store proposals;
        })
        db.store
  ok (record db { store = written.0 }, written.1)

-- ===== src/Accuracy/Verdicts.antt =====
-- What a report says of each profile.
use workgraph.Common.{
  ℕ, ◌+◌, String, ◌≡◌, refl, ap, ◌∙◌, List, ok, Ensures, returns, Ensures-bind, Ensures-of_ok,
  Ensures-ok, Bool-cases, inl, inr, if◌then◌else◌, leb,
}
use workgraph.Links.Review.{below}
use workgraph.Accuracy.{
  AutoApplyPauseState, ProfileLinkAccuracy, Database, AutoApplyThresholds,
  ProjectLinkAccuracyReport, latest_auto_apply_pause_states, state_before,
  auto_apply_minimum_sample, threshold_of,
}
use workgraph.Accuracy.Quotient.{quotient}
use workgraph.Accuracy.Measure.{new_entry, measured_entry, measure_profile_accuracy}
use workgraph.Accuracy.Report.{report_on, project_link_accuracy, for_profile}
use workgraph.Accuracy.Counts.{
  with_numbers, count_so, to_confirmed, to_corrected, to_undone, entry_of-entries,
}
use workgraph.Accuracy.Reported.{for_profile-measured}
use workgraph.Accuracy.Entries.{OncePerProfile, entries-Listed, profiles-OncePerProfile}

-- A report, by the states that were on record.
pub record Report (now : ℕ) (thresholds : AutoApplyThresholds) (db : Database)
    (report : ProjectLinkAccuracyReport) (states : List AutoApplyPauseState) : Type 0 where
  pub latest : latest_auto_apply_pause_states db.events ≡ ok states
  pub once : OncePerProfile report.profiles
  pub says :
      (name : String)
      → for_profile name report
        ≡ measure_profile_accuracy
            (state_before name states)
            (with_numbers now name db.store.links (new_entry thresholds name))

unfoldable pub Reports : ℕ → AutoApplyThresholds → Database → ProjectLinkAccuracyReport → Type 0
Reports now thresholds db report =
    (states : List AutoApplyPauseState) × Report now thresholds db report states

pub reported :
    (now : ℕ) (thresholds : AutoApplyThresholds) (requested : List String) (db : Database)
    → Ensures (Reports now thresholds db) (project_link_accuracy now thresholds requested db)
unfolding project_link_accuracy report_on Reports
reported now thresholds requested db = Ensures-bind _ (Ensures-of_ok _ λ states l. l) λ states l.
    returns _ (
      states,
      record {
        latest = l;
        once = profiles-OncePerProfile now thresholds requested db.store states;
        says = λ name.
            for_profile-measured now thresholds states _
              (entries-Listed now thresholds requested db.store states) name
            ∙ ap (measure_profile_accuracy (state_before name states))
                (entry_of-entries now thresholds requested db.store states name);
      },
    )

-- What a report says of a profile is the measure of the decisions on the profile's links: of those that
-- were applied by themselves and decided in the window, it has the numbers that are confirmed, corrected
-- and undone, and it goes by the profile's last state on record, or else by the legacy one.
pub for_profile_lem :
    (now : ℕ) (thresholds : AutoApplyThresholds) (requested : List String) (db : Database)
    (report : ProjectLinkAccuracyReport)
    → project_link_accuracy now thresholds requested db ≡ ok report
    → (states : List AutoApplyPauseState) × (latest_auto_apply_pause_states db.events ≡ ok states)
      × ((name : String)
          → for_profile name report
            ≡ measure_profile_accuracy
                (state_before name states)
                (with_numbers now name db.store.links (new_entry thresholds name)))
unfolding Reports
for_profile_lem now thresholds requested db report h =
    let (states, r) = Ensures-ok (reported now thresholds requested db) h in
    (states, r.latest, r.says)

-- Whether a profile is paused: by its accuracy where enough of its links are decided, or else as it was.
pub measure-paused :
    (state : AutoApplyPauseState) (e : ProfileLinkAccuracy)
    → (measure_profile_accuracy state e).paused ≡ (
        let decided = e.confirmed + e.corrected + e.undone in
        if leb auto_apply_minimum_sample decided
        then below (quotient e.confirmed decided) e.required
        else state.paused)
unfolding measure_profile_accuracy measured_entry
measure-paused state e =
    elim (Bool-cases (leb auto_apply_minimum_sample (e.confirmed + e.corrected + e.undone))) [
      | inl h ↦ rw h refl
      | inr h ↦ rw h refl
    ]

-- A profile is paused by its accuracy where twenty of its links or more were decided in the window: where
-- the part of them that is confirmed, as a double, is below what is required of the profile. Where fewer
-- were decided, it is paused as it was on record.
pub for_profile-paused :
    (now : ℕ) (thresholds : AutoApplyThresholds) (requested : List String) (db : Database)
    (report : ProjectLinkAccuracyReport) (name : String)
    → project_link_accuracy now thresholds requested db ≡ ok report
    → (states : List AutoApplyPauseState) × (latest_auto_apply_pause_states db.events ≡ ok states)
      × ((for_profile name report).paused ≡ (
          let confirmed = count_so to_confirmed now name db.store.links in
          let decided =
            confirmed
            + count_so to_corrected now name db.store.links
            + count_so to_undone now name db.store.links in
          if leb auto_apply_minimum_sample decided
          then below (quotient confirmed decided) (threshold_of name thresholds)
          else (state_before name states).paused))
unfolding with_numbers new_entry Reports
for_profile-paused now thresholds requested db report name h =
    let (states, r) = Ensures-ok (reported now thresholds requested db) h in
    (states, r.latest, ap (λ e. e.paused) (r.says name) ∙ measure-paused _ _)

-- ===== src/Accuracy/Reported.antt =====
-- What a report says of a profile (For), whether or not the report has an entry for it.
use workgraph.Common.{
  ℕ, ◌+◌, String, ◌≡◌, refl, ap, ◌∙◌, Option, none, some, List, Bool-cases, inl, inr, first_with,
  value_or, first_with-sort_by, first_with-map, first_with-key, leb,
}
use mathlib.Core.Option.{map as map_option}
use workgraph.Accuracy.{
  AutoApplyPauseState, ProfileLinkAccuracy, AutoApplyThresholds, ProjectLinkAccuracyReport,
  state_before, auto_apply_minimum_sample, legacy_state, recorded_state,
}
use workgraph.Accuracy.Measure.{
  profile_key, new_entry, measured_entry, measure_profile_accuracy, measure_each, transition,
}
use workgraph.Accuracy.Report.{by_profile, report_on, default_entry, for_profile}
use workgraph.Accuracy.Counts.{entry_of}

unfoldable pub measured_of : List AutoApplyPauseState → ProfileLinkAccuracy → ProfileLinkAccuracy
unfolding measure_profile_accuracy state_before
measured_of states e = measure_profile_accuracy (state_before e.profile states) e

pub measure_profile_accuracy-profile :
    (state : AutoApplyPauseState) (e : ProfileLinkAccuracy)
    → (measure_profile_accuracy state e).profile ≡ e.profile
unfolding measure_profile_accuracy measured_entry
measure_profile_accuracy-profile state e =
    elim (Bool-cases (leb auto_apply_minimum_sample (e.confirmed + e.corrected + e.undone))) [
      | inl h ↦ rw h refl
      | inr h ↦ rw h refl
    ]

pub measured_of-profile :
    (states : List AutoApplyPauseState) (e : ProfileLinkAccuracy)
    → (measured_of states e).profile ≡ e.profile
unfolding measured_of
measured_of-profile states e = measure_profile_accuracy-profile (state_before e.profile states) e

-- A profile without an entry or a state of its own goes by the legacy state.
default-measured :
    (report : ProjectLinkAccuracyReport) (name : String)
    → default_entry name report
      ≡ measure_profile_accuracy report.legacy (new_entry report.thresholds name)
unfolding default_entry measure_profile_accuracy new_entry transition
default-measured report name = elim (Bool-cases report.legacy.paused) [
  | inl h ↦ rw h refl
  | inr h ↦ rw h refl
]

pub for_profile-entry :
    (report : ProjectLinkAccuracyReport) (name : String) (o : Option ProfileLinkAccuracy)
    → first_with profile_key name report.profiles ≡ o
    → for_profile name report ≡ value_or (default_entry name report) o
unfolding for_profile value_or
for_profile-entry report name none h = rw (for_profile, h) refl
for_profile-entry report name (some e) h = rw (for_profile, h) refl

-- A profile that has a state on record has an entry.
abbrev pub Listed : List AutoApplyPauseState → List ProfileLinkAccuracy → Type 0
Listed states es =
    (name : String) → first_with profile_key name es ≡ none → recorded_state name states ≡ none

pub state_before-legacy :
    (name : String) (states : List AutoApplyPauseState)
    → recorded_state name states ≡ none
    → state_before name states ≡ legacy_state states
unfolding state_before
state_before-legacy name states h = rw (state_before, h) refl

profiles-measured :
    (states : List AutoApplyPauseState) (es : List ProfileLinkAccuracy) (name : String)
    → first_with profile_key name (by_profile (measure_each states es))
      ≡ map_option (measured_of states) (first_with profile_key name es)
unfolding by_profile measure_each measured_of
profiles-measured states es name =
    first_with-sort_by profile_key name (measure_each states es)
    ∙ first_with-map profile_key (measured_of states) (measured_of-profile states) name es

measured-value :
    (thresholds : AutoApplyThresholds) (states : List AutoApplyPauseState)
    (es : List ProfileLinkAccuracy) (name : String) (report : ProjectLinkAccuracyReport)
    → report.thresholds ≡ thresholds
    → report.legacy ≡ legacy_state states
    → Listed states es
    → (o : Option ProfileLinkAccuracy) → first_with profile_key name es ≡ o
    → value_or (default_entry name report) (map_option (measured_of states) o)
      ≡ measure_profile_accuracy (state_before name states) (value_or (new_entry thresholds name) o)
unfolding value_or measured_of
measured-value thresholds states es name report t l listed none h =
    default-measured report name ∙ rw (t, l, state_before-legacy name states (listed name h)) refl
measured-value thresholds states es name report t l listed (some e) h =
    ap (λ n. measure_profile_accuracy (state_before n states) e)
      (first_with-key profile_key name es e h)

pub for_profile-measured :
    (now : ℕ) (thresholds : AutoApplyThresholds) (states : List AutoApplyPauseState)
    (es : List ProfileLinkAccuracy)
    → Listed states es
    → (name : String)
    → for_profile name
        (report_on now thresholds (by_profile (measure_each states es)) (legacy_state states))
      ≡ measure_profile_accuracy (state_before name states) (entry_of thresholds name es)
unfolding report_on entry_of
for_profile-measured now thresholds states es listed name =
    for_profile-entry _ name _ (profiles-measured states es name)
    ∙ measured-value thresholds states es name _ refl refl listed _ refl

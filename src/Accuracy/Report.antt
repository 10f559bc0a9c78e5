-- ===== src/Accuracy/Report.antt =====
-- The report on all profiles (projectLinkAccuracy, For, Summary).
use Prim.Native.String.{◌++◌ as text_append}
use workgraph.Common.{
  ℕ, ◌-◌, String, Bool, false, ◌||◌, none, some, List, [], ◌∷◌, ◌++◌, Result, ok, first_with,
  sort_by, ◌>>=◌, if◌then◌else◌,
}
use workgraph.Accuracy.{
  AutoApplyPauseState, Database, ProfileLinkAccuracy, AccuracyStatus, insufficient_data, measured,
  AutoApplyThresholds, ProjectLinkAccuracyReport, auto_apply_accuracy_window,
  latest_auto_apply_pause_states, legacy_state,
}
use workgraph.Accuracy.Quotient.{show, two_decimals}
use workgraph.Accuracy.Measure.{profile_key, new_entry, measure_each, entries}

-- sort.Slice by profile
unfoldable pub by_profile : List ProfileLinkAccuracy → List ProfileLinkAccuracy
unfolding sort_by
by_profile = sort_by profile_key

unfoldable pub any_paused : List ProfileLinkAccuracy → Bool
any_paused [] = false
any_paused (e ∷ es) = e.paused || any_paused es

unfoldable pub pause_reasons : List ProfileLinkAccuracy → List String
pause_reasons [] = []
pause_reasons (e ∷ es) =
    let rest = pause_reasons es in if e.paused then e.pause_reason ∷ rest else rest

-- strings.Join
unfoldable pub join : String → List String → String
join separator [] = ""
join separator (t ∷ []) = t
join separator (t ∷ u ∷ ts) = text_append t (text_append separator (join separator (u ∷ ts)))

unfoldable pub report_on :
    ℕ
    → AutoApplyThresholds
    → List ProfileLinkAccuracy
    → AutoApplyPauseState
    → ProjectLinkAccuracyReport
unfolding any_paused pause_reasons join
report_on now thresholds es legacy = record {
  since = now - auto_apply_accuracy_window;
  profiles = es;
  paused = any_paused es;
  pause_reason = join "; " (pause_reasons es);
  thresholds = thresholds;
  legacy = legacy;
}

unfoldable pub project_link_accuracy :
    ℕ → AutoApplyThresholds → List String → Database → Result ProjectLinkAccuracyReport
unfolding entries report_on measure_each by_profile legacy_state latest_auto_apply_pause_states
project_link_accuracy now thresholds requested db = do
  states ← latest_auto_apply_pause_states db.events
  ok (
      report_on now thresholds
        (by_profile (measure_each states (entries now thresholds requested db.store states)))
        (legacy_state states))

unfoldable pub default_entry : String → ProjectLinkAccuracyReport → ProfileLinkAccuracy
unfolding new_entry
default_entry name report = record (new_entry report.thresholds name) {
  paused = report.legacy.paused;
  pause_reason = report.legacy.reason;
}

-- report.For(profile)
unfoldable pub for_profile : String → ProjectLinkAccuracyReport → ProfileLinkAccuracy
unfolding first_with default_entry
for_profile name report = elim (first_with profile_key name report.profiles) [
  | none ↦ default_entry name report
  | some e ↦ e
]

unfoldable pub accuracy_line : ProfileLinkAccuracy → AccuracyStatus → String
unfolding show two_decimals
accuracy_line e insufficient_data = text_append "Project auto-apply accuracy for " (
    text_append e.profile (
      text_append ": insufficient_data ("
        (text_append (show e.decided) " decided auto links, 14 day window)")))
accuracy_line e measured = text_append "Project auto-apply accuracy for " (
    text_append e.profile (
      text_append ": " (
        text_append (two_decimals e.accuracy) (
          text_append " (" (
            text_append (show e.confirmed) (
              text_append "/" (
                text_append (show e.decided) (
                  text_append " decided auto links, 14 day window, required "
                    (text_append (two_decimals e.required) ")")))))))))

unfoldable pub accuracy_lines : List ProfileLinkAccuracy → List String
unfolding accuracy_line
accuracy_lines [] = []
accuracy_lines (e ∷ es) = accuracy_line e e.status ∷ accuracy_lines es

unfoldable pub paused_lines : List String → List String
paused_lines [] = []
paused_lines (reason ∷ reasons) = text_append "Auto-apply paused: " reason ∷ paused_lines reasons

-- report.Summary()
unfoldable pub summary : List ProfileLinkAccuracy → String
unfolding accuracy_lines paused_lines pause_reasons join
summary [] = "Project auto-apply accuracy: insufficient_data (0 decided auto links, 14 day window)"
summary (e ∷ es) = join "\n" (accuracy_lines (e ∷ es) ++ paused_lines (pause_reasons (e ∷ es)))

-- ===== src/Accuracy/Measure.antt =====
-- What is measured of each profile (the counts of projectLinkAccuracy, measureProfileAccuracy). A table
-- of links that is missing has no links.
use Prim.Native.String.{◌++◌ as text_append}
use workgraph.Common.{
  ℕ, ◌+◌, ◌-◌, String, Bool, true, false, not, ◌||◌, Option, none, some, List, [], ◌∷◌, map, ◌==◌,
  upsert, ltb, leb, select, if◌then◌else◌,
}
use workgraph.Links.{ProjectLink, LinkStore, Decision, undecided, approved, plus}
use workgraph.Links.Review.{below}
use workgraph.Accuracy.{
  AutoApplyPauseState, PauseEventType, auto_apply_paused, auto_apply_resumed, ProfileLinkAccuracy,
  insufficient_data, measured, AutoApplyThresholds, threshold_of, auto_apply_accuracy_window,
  auto_apply_minimum_sample, zero_time, state_before, recorded_profiles,
}
use workgraph.Accuracy.Quotient.{quotient, show, two_decimals}

unfoldable pub new_entry : AutoApplyThresholds → String → ProfileLinkAccuracy
unfolding threshold_of
new_entry thresholds name = record {
  profile = name;
  required = threshold_of name thresholds;
  confirmed = 0;
  corrected = 0;
  undone = 0;
  decided = 0;
  accuracy = plus 0;
  status = insufficient_data;
  paused = false;
  pause_reason = "";
  pause_event = none;
}

abbrev pub profile_key : ProfileLinkAccuracy → String
profile_key e = e.profile

-- The entry of a profile, which is there from now on, is changed.
unfoldable pub with_entry :
    AutoApplyThresholds
    → String
    → (ProfileLinkAccuracy → ProfileLinkAccuracy)
    → List ProfileLinkAccuracy
    → List ProfileLinkAccuracy
unfolding new_entry upsert
with_entry thresholds name = upsert profile_key name (new_entry thresholds name)

unfoldable pub with_entries :
    AutoApplyThresholds → List String → List ProfileLinkAccuracy → List ProfileLinkAccuracy
unfolding with_entry
with_entries thresholds [] es = es
with_entries thresholds (name ∷ names) es =
    with_entries thresholds names (with_entry thresholds name (λ e. e) es)

unfoldable pub decided_time : Option ℕ → ℕ
decided_time none = zero_time
decided_time (some t) = t

-- Whether a link counts: it was applied by itself, and decided in the window.
unfoldable pub is_counted : ℕ → ℕ → ProjectLink → Bool
unfolding decided_time
is_counted since now link = not (
    not link.auto
    || ltb (decided_time link.decided_at) since
    || ltb now (decided_time link.decided_at))

unfoldable pub count_decision : Decision → ProfileLinkAccuracy → ProfileLinkAccuracy
count_decision Decision.confirmed e = record e { confirmed = e.confirmed + 1 }
count_decision Decision.corrected e = record e { corrected = e.corrected + 1 }
count_decision Decision.undone e = record e { undone = e.undone + 1 }
count_decision undecided e = e
count_decision approved e = e

unfoldable pub count_link : ℕ → ℕ → ProjectLink → ProfileLinkAccuracy → ProfileLinkAccuracy
unfolding is_counted count_decision
count_link since now link e =
    if is_counted since now link then count_decision link.decision e else e

unfoldable pub count_links :
    AutoApplyThresholds
    → ℕ
    → ℕ
    → List ProjectLink
    → List ProfileLinkAccuracy
    → List ProfileLinkAccuracy
unfolding with_entry count_link
count_links thresholds since now [] es = es
count_links thresholds since now (link ∷ links) es =
    count_links thresholds since now links
      (with_entry thresholds link.profile (count_link since now link) es)

unfoldable pub below_reason : ProfileLinkAccuracy → String
unfolding show two_decimals
below_reason e = text_append e.profile (
    text_append " accuracy " (
      text_append (two_decimals e.accuracy) (
        text_append " over " (
          text_append (show e.decided) (
            text_append " decided auto links in the last 14 days is below "
              (two_decimals e.required))))))

-- The entry with its accuracy, paused where that is below what is required.
unfoldable pub measured_entry : ProfileLinkAccuracy → ProfileLinkAccuracy
unfolding quotient below_reason
measured_entry e =
    let e = record e { status = measured; accuracy = quotient e.confirmed e.decided } in
    let e = record e { paused = below e.accuracy e.required } in
    record e { pause_reason = if e.paused then below_reason e else "" }

unfoldable pub transition : Bool → Bool → Option PauseEventType
transition true false = some auto_apply_resumed
transition false true = some auto_apply_paused
transition _ _ = none

unfoldable pub measure_profile_accuracy :
    AutoApplyPauseState → ProfileLinkAccuracy → ProfileLinkAccuracy
unfolding measured_entry transition
measure_profile_accuracy recorded e =
    let e = record e {
      decided = e.confirmed + e.corrected + e.undone;
      paused = recorded.paused;
      pause_reason = recorded.reason;
    } in
    let e = if leb auto_apply_minimum_sample e.decided then measured_entry e else e in
    record e { pause_event = transition recorded.paused e.paused }

unfoldable pub measure_each :
    List AutoApplyPauseState → List ProfileLinkAccuracy → List ProfileLinkAccuracy
unfolding measure_profile_accuracy state_before
measure_each states es = map (λ e. measure_profile_accuracy (state_before e.profile states) e) es

-- source = 'llm'
unfoldable pub is_llm : ProjectLink → Bool
is_llm link = link.source == "llm"

-- The entries, by profile, of the requested profiles, those of links, and those with a state.
unfoldable pub entries :
    ℕ
    → AutoApplyThresholds
    → List String
    → LinkStore
    → List AutoApplyPauseState
    → List ProfileLinkAccuracy
unfolding with_entries count_links is_llm recorded_profiles
entries now thresholds requested store states = with_entries thresholds (recorded_profiles states) (
    count_links thresholds (now - auto_apply_accuracy_window) now (select is_llm store.links)
      (with_entries thresholds requested []))

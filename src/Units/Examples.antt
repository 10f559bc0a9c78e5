-- ===== src/Units/Examples.antt =====
-- The units of a morning, and the witnesses.
use mathlib.Core.List.{Perm}
use workgraph.Common.{
  ℕ, ◌+◌, ◌*◌, String, ◌≡◌, refl, true, false, some, List, [], ◌∷◌, map, All, concat_map,
  sort_slice, to_lower,
}
use workgraph.Clock.{hour, format, parse}
use workgraph.Accuracy.Quotient.{show}
use workgraph.Units.{
  ProjectUnitEvent, ProjectUnitPayload, UnitRow, Source, slack, github, other_source, is_after,
  load_project_unit_events,
}
use workgraph.Units.Groups.{events_in, keyed_project_units}
use workgraph.Units.Bursts.{
  split_project_unit_events, slack_project_units, git_session_project_units, calendar_unit,
  project_units, pull_request_key,
}
use workgraph.Units.Held.{unit_event_ids}
use workgraph.Units.Partition.{kept_events, project_units-perm}
use workgraph.Units.Gaps.{IsBurst, AreApart, split_project_unit_events_lem}

abbrev message : String → String → ProjectUnitPayload
message ts thread_ts = record {
  channel_id = "C1";
  ts = ts;
  thread_ts = thread_ts;
  repository = "Org/App";
  number = 12;
  repo_path = "/src/app";
  id = "page";
}

abbrev row : String → Source → ℕ → ProjectUnitPayload → UnitRow
row id source at payload = record {
  id = id;
  source = source;
  timestamp = format at;
  project = "app";
  payload = some payload;
  is_local = true;
}

-- Two messages far apart, a thread of two, a pull request, and a row of an unknown source.
abbrev morning : List UnitRow
morning =
    row "a" slack (1 * hour) (message "1" "")
    ∷ row "b" slack (2 * hour) (message "2" "")
    ∷ row "c" slack (2 * hour + 1) (message "3" "2")
    ∷ row "d" slack (4 * hour) (message "4" "")
    ∷ row "e" github (4 * hour) (message "" "")
    ∷ row "f" github (5 * hour) (message "" "")
    ∷ row "g" other_source (5 * hour) (message "" "")
    ∷ []

one_date : ℕ → String
one_date at = "2026-01-02"

-- The message that starts a thread is in it, and the two pull request events are one unit.
morning_units :
    map (λ unit. unit.event_ids) (project_units one_date (5 * hour) morning)
    ≡ ("a" ∷ []) ∷ ("b" ∷ "c" ∷ []) ∷ ("e" ∷ "f" ∷ []) ∷ ("d" ∷ []) ∷ []
unfolding project_units one_date slack_project_units git_session_project_units keyed_project_units
    calendar_unit load_project_unit_events pull_request_key to_lower show parse format sort_slice
    is_after
morning_units = refl

morning_eligible :
    map (λ unit. unit.eligible) (project_units one_date (5 * hour) morning)
    ≡ true ∷ true ∷ true ∷ false ∷ []
unfolding project_units one_date slack_project_units git_session_project_units keyed_project_units
    calendar_unit load_project_unit_events pull_request_key to_lower show parse format sort_slice
    is_after
morning_eligible = refl

project_units-perm_example :
    Perm
      (unit_event_ids (project_units one_date (5 * hour) morning))
      (map (λ e. e.id) (kept_events morning))
project_units-perm_example = project_units-perm one_date (5 * hour) morning

abbrev at_time : ℕ → ProjectUnitEvent
at_time n = record { id = "x"; timestamp = n; project = "app"; payload = message "1" "" }

split_example :
    (concat_map events_in
        (split_project_unit_events (at_time 1 ∷ at_time (2 * hour) ∷ at_time (4 * hour) ∷ []))
      ≡ at_time 1 ∷ at_time (2 * hour) ∷ at_time (4 * hour) ∷ [])
    × All IsBurst
        (split_project_unit_events (at_time 1 ∷ at_time (2 * hour) ∷ at_time (4 * hour) ∷ []))
    × AreApart
        (split_project_unit_events (at_time 1 ∷ at_time (2 * hour) ∷ at_time (4 * hour) ∷ []))
split_example =
    split_project_unit_events_lem (at_time 1 ∷ at_time (2 * hour) ∷ at_time (4 * hour) ∷ [])

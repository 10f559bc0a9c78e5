-- ===== src/Registry.antt =====
-- The connectors that the program knows (connector_registry.go) and the lookups on them
-- (connector.go, bridged_capture.go). Tool requirements and scope validation are left out.
use text.Mathlib.Text.{starts_with}
use workgraph.Common.{
  ℕ, ◌*◌, String, Bool, true, false, not, ◌&&◌, Option, none, some, List, [], ◌∷◌, ◌==◌, Result, ok,
  err, unknown_connector, direct_only, bridged_only, trim_space, to_lower, if◌then◌else◌,
}
use workgraph.Clock.{second, minute}

pub record Definition : Type 0 where
  pub id : String
  pub event_source : String
  pub direct : Bool
  pub bridged : Bool
  pub capture_semantics : String
  pub default_interval : ℕ

abbrev definition : String → String → Bool → Bool → String → ℕ → Definition
definition id source direct bridged semantics interval = record {
  id = id;
  event_source = source;
  direct = direct;
  bridged = bridged;
  capture_semantics = semantics;
  default_interval = interval;
}

abbrev pub github_pr_watch_connector_id : String
github_pr_watch_connector_id = "github.pr_watch"

abbrev pub llm_associate_connector_id : String
llm_associate_connector_id = "llm.associate"

unfoldable pub connector_registry : List Definition
connector_registry =
    definition "git" "git" true false "" (30 * second)
    ∷ definition "github" "github" true true "bounded_events" (5 * minute)
    ∷ definition github_pr_watch_connector_id "github" true false "" (5 * minute)
    ∷ definition "slack" "slack" true true "bounded_events" (2 * minute)
    ∷ definition "slack.lists" "slack" true true "complete_snapshot" (5 * minute)
    ∷ definition "calendar.google" "calendar.google" true true "bounded_events" (5 * minute)
    ∷ definition "calendar.microsoft" "calendar.microsoft" true true "bounded_events" (5 * minute)
    ∷ definition "mail.google" "mail.google" true true "bounded_events" (5 * minute)
    ∷ definition "mail.microsoft" "mail.microsoft" true true "bounded_events" (5 * minute)
    ∷ definition "notion" "notion" true false "" (10 * minute)
    ∷ definition "notion.activity" "notion" false true "bounded_events" (30 * minute)
    ∷ definition "azure.boards" "azure.boards" true true "bounded_events" (5 * minute)
    ∷ []

unfoldable pub find_definition : String → List Definition → Option Definition
find_definition id [] = none
find_definition id (d ∷ ds) = if d.id == id then some d else find_definition id ds

unfoldable pub registered_connector : String → Option Definition
unfolding connector_registry find_definition
registered_connector id = find_definition id connector_registry

unfoldable pub event_source_for_connector : String → String
unfolding registered_connector
event_source_for_connector id = elim (registered_connector id) [
  | none ↦ id
  | some d ↦ d.event_source
]

-- The semantics of a definition, where it states one.
unfoldable pub stated_semantics : Definition → String
stated_semantics d = if d.capture_semantics == "" then "bounded_events" else d.capture_semantics

unfoldable pub capture_semantics_for_connector : String → String
unfolding registered_connector stated_semantics
capture_semantics_for_connector id = elim (registered_connector id) [
  | none ↦ "bounded_events"
  | some d ↦ stated_semantics d
]

unfoldable pub captures_bounded_window : String → Bool
unfolding capture_semantics_for_connector
captures_bounded_window id =
    capture_semantics_for_connector id == "bounded_events" && not (starts_with id "calendar.")

unfoldable pub default_connector_interval : String → ℕ
unfolding registered_connector
default_connector_interval id = elim (registered_connector id) [
  | none ↦ 0
  | some d ↦ d.default_interval
]

unfoldable pub known_connector : String → Result String
unfolding registered_connector
known_connector id = elim (registered_connector id) [
  | none ↦ err (unknown_connector id)
  | some d ↦ ok id
]

unfoldable pub normalize_connector_id : String → Result String
unfolding known_connector trim_space to_lower
normalize_connector_id id = known_connector (to_lower (trim_space id))

unfoldable pub normalize_capture_request_connector_id : String → Result String
unfolding normalize_connector_id trim_space to_lower
normalize_capture_request_connector_id id =
    if to_lower (trim_space id) == llm_associate_connector_id
    then ok llm_associate_connector_id
    else normalize_connector_id id

unfoldable pub validate_bridgeable_connector : String → Result (Unit {0})
unfolding registered_connector
validate_bridgeable_connector id = elim (registered_connector id) [
  | none ↦ err (unknown_connector id)
  | some d ↦ if d.bridged then ok tt else err (direct_only id)
]

unfoldable pub validate_directable_connector : String → Result (Unit {0})
unfolding registered_connector
validate_directable_connector id = elim (registered_connector id) [
  | none ↦ err (unknown_connector id)
  | some d ↦ if d.direct then ok tt else err (bridged_only id)
]

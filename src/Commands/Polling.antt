-- ===== src/Commands/Polling.antt =====
-- Whether a connector is polled, and when next (connectorReadyForPolling, connectorNextPoll).
use workgraph.Common.{
  ℕ, ◌+◌, String, Bool, true, false, not, ◌&&◌, ◌||◌, Option, none, some, ◌==◌, Result, ok, err,
  trim_space, if◌then◌else◌,
}
use workgraph.Clock.{Stamp, format_seconds, parse}
use workgraph.Registry.{github_pr_watch_connector_id, validate_bridgeable_connector}
use workgraph.Runtime.{RuntimeEntry, RuntimeFile, entry, connector_capture_mode, connector_interval}

unfoldable pub connector_setup_state : String → Bool → RuntimeEntry → String
unfolding trim_space
connector_setup_state id connected e =
    let state = trim_space e.setup_state in
    if not (state == "")
    then state
    else if not connected
    then "not connected"
    else if id == "github"
    then "not validated"
    else "ready"

abbrev pub is_ok {ℓ} : {A : Type ℓ} → Result A → Bool
is_ok (ok a) = true
is_ok (err e) = false

-- bridgeConfigurationIssue has no issue. The scope is checked by validatedBridgeParams.
unfoldable pub has_no_issue : (String → String → Result String) → String → String → Bool
unfolding validate_bridgeable_connector
has_no_issue validated id params =
    is_ok (validate_bridgeable_connector id) && is_ok (validated id params)

unfoldable pub may_poll : String → RuntimeEntry → Bool
unfolding trim_space
may_poll id e =
    let state = trim_space e.setup_state in
    not (state == "error" || state == "draft")
    && (if id == "github" || id == github_pr_watch_connector_id then state == "ready" else true)

unfoldable pub connector_ready_for_polling :
    (String → String → Result String) → RuntimeFile → String → Bool
unfolding entry connector_capture_mode has_no_issue may_poll
connector_ready_for_polling validated file id =
    let e = entry file id in
    (if connector_capture_mode file id == "bridged"
      then has_no_issue validated id e.bridge_params
      else true)
    && may_poll id e

-- The time of the next poll: the one that is set, or an interval after the last one. None is the
-- empty text.
unfoldable pub after_last : Option Stamp → ℕ → Option Stamp
unfolding parse format_seconds
after_last none interval = none
after_last (some text) interval = elim (parse text) [
  | none ↦ none
  | some t ↦ some (format_seconds (t + interval))
]

unfoldable pub planned_poll : Option Stamp → Option Stamp → ℕ → Option Stamp
unfolding after_last
planned_poll (some next) last interval = some next
planned_poll none last interval = after_last last interval

unfoldable pub connector_next_poll : RuntimeFile → String → ℕ → Option Stamp
unfolding entry connector_interval planned_poll
connector_next_poll file id fallback =
    planned_poll (entry file id).next_poll (entry file id).last_poll
      (connector_interval file id fallback)

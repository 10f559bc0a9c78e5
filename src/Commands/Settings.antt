-- ===== src/Commands/Settings.antt =====
-- The commands that change a connector's entry alone: its interval, a connection in direct mode, a
-- disconnection, a failed validation.
use workgraph.Common.{
  ℕ, String, true, not, ◌&&◌, Option, none, some, ◌==◌, Result, ok, ◌>>=◌, guard, ltb, trim_space,
  bad_interval,
}
use workgraph.Clock.{Stamp, format_seconds, minute}
use workgraph.Registry.{github_pr_watch_connector_id, normalize_connector_id}
use workgraph.Runtime.{RuntimeEntry, RuntimeFile, Interval, span, entry, set_entry}
use workgraph.Commands.{Checks}

abbrev pub github_pr_watch_min_interval : ℕ
github_pr_watch_min_interval = minute

-- An interval of 0 or less is 0.
unfoldable pub set_connector_interval : String → ℕ → RuntimeFile → Result RuntimeFile
unfolding normalize_connector_id set_entry entry
set_connector_interval raw_id interval file = do
  id ← normalize_connector_id raw_id
  _ ← guard (ltb 0 interval) bad_interval
  _ ←
      guard (not (id == github_pr_watch_connector_id && ltb interval github_pr_watch_min_interval))
        bad_interval
  ok (set_entry file id (record (entry file id) { interval = span interval }))

-- The last validation, poll and success, and what stopped the polls, are forgotten.
unfoldable pub forgotten : String → Option Stamp → RuntimeEntry → RuntimeEntry
forgotten state validated e = record e {
  setup_state = state;
  last_validated = validated;
  last_validation_error = "";
  last_poll = none;
  last_success = none;
  last_error = "";
  next_poll = none;
  consecutive_failures = 0;
}

unfoldable pub with_interval_text : Interval → RuntimeEntry → RuntimeEntry
with_interval_text Interval.unset e = e
with_interval_text interval e = record e { interval = interval }

unfoldable pub connect_runtime_connector :
    Checks → String → Interval → ℕ → RuntimeFile → Result RuntimeFile
unfolding normalize_connector_id set_entry entry forgotten with_interval_text format_seconds
connect_runtime_connector checks raw_id interval now file = do
  id ← normalize_connector_id raw_id
  _ ← checks.managed id
  let e = forgotten "ready" (some (format_seconds now)) (entry file id)
  ok (
      set_entry file id
        (with_interval_text interval (record e { enabled = some true; capture_mode = "direct" })))

unfoldable pub clear_runtime_connector : String → RuntimeFile → RuntimeFile
unfolding set_entry entry forgotten
clear_runtime_connector id file = set_entry file id (forgotten "" none (entry file id))

unfoldable pub record_connector_validation_error : String → ℕ → String → RuntimeFile → RuntimeFile
unfolding set_entry entry format_seconds trim_space
record_connector_validation_error id now message file = set_entry file id (record (entry file id) {
  setup_state = "error";
  last_validated = some (format_seconds now);
  last_validation_error = trim_space message;
})

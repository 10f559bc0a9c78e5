-- ===== src/Runtime.antt =====
-- The connectors' runtime state, connectors.json (connector.go). A time is the text that the file
-- holds, and none where the file has the empty text; an interval is what time.ParseDuration makes of
-- its text. A read of the file that fails is not modelled.
pub mod Backoff
use Prim.Native.String.{◌++◌ as text_append}
use text.Mathlib.Text.{find?}
use workgraph.Common.{
  ℕ, zero, suc, ◌+◌, ◌-◌, String, Bool, true, false, not, ◌&&◌, ◌||◌, Option, none, some, List, [],
  ◌∷◌, ◌==◌, ltb, trim_space, to_lower, if◌then◌else◌,
}
use workgraph.Clock.{Stamp, format, format_seconds, parse}
use workgraph.Registry.{
  github_pr_watch_connector_id, captures_bounded_window, default_connector_interval,
}

pub data Interval : Type 0 where
  unset : Interval
  unreadable : String → Interval
  span : ℕ → Interval

pub record RuntimeEntry : Type 0 where
  pub enabled : Option Bool
  pub capture_mode : String
  pub bridge_params : String
  pub interval : Interval
  pub setup_state : String
  pub last_validated : Option Stamp
  pub last_validation_error : String
  pub last_poll : Option Stamp
  pub last_success : Option Stamp
  pub last_ingest : Option Stamp
  pub last_error : String
  pub next_poll : Option Stamp
  pub not_before : Option Stamp
  pub deferred_reason : String
  pub consecutive_failures : ℕ

-- The zero value, which a lookup of a missing connector gives.
abbrev pub empty_entry : RuntimeEntry
empty_entry = record {
  enabled = none;
  capture_mode = "";
  bridge_params = "";
  interval = unset;
  setup_state = "";
  last_validated = none;
  last_validation_error = "";
  last_poll = none;
  last_success = none;
  last_ingest = none;
  last_error = "";
  next_poll = none;
  not_before = none;
  deferred_reason = "";
  consecutive_failures = 0;
}

abbrev pub RuntimeFile : Type 0
RuntimeFile = List (String × RuntimeEntry)

-- state.Connectors[id]
unfoldable pub entry : RuntimeFile → String → RuntimeEntry
entry [] id = empty_entry
entry ((k, e) ∷ file) id = if k == id then e else entry file id

-- state.Connectors[id] = entry
unfoldable pub set_entry : RuntimeFile → String → RuntimeEntry → RuntimeFile
set_entry [] id e = (id, e) ∷ []
set_entry ((k, old) ∷ file) id e = if k == id then (k, e) ∷ file else (k, old) ∷ set_entry file id e

unfoldable pub connector_enabled : RuntimeFile → String → Bool
unfolding entry
connector_enabled file id = elim (entry file id).enabled [
  | none ↦ not (id == github_pr_watch_connector_id)
  | some b ↦ b
]

unfoldable pub connector_capture_mode : RuntimeFile → String → String
unfolding entry to_lower trim_space
connector_capture_mode file id =
    if to_lower (trim_space (entry file id).capture_mode) == "bridged" then "bridged" else "direct"

abbrev interval_or : Interval → ℕ → ℕ
interval_or (span (suc n)) fallback = suc n
interval_or _ fallback = fallback

unfoldable pub connector_interval : RuntimeFile → String → ℕ → ℕ
unfolding entry
connector_interval file id fallback = interval_or (entry file id).interval fallback

-- The error that a poll ended in, if it did; its text, and the delay that the provider asked for.
pub data PollError : Type 0 where
  deferred : String → ℕ → PollError
  retry_after : String → ℕ → PollError
  failed : String → PollError

contains : String → String → Bool
contains s t = elim (find? s t) [ none ↦ false | some n ↦ true ]

unfoldable pub connector_auth_failure : String → Bool
unfolding contains to_lower
connector_auth_failure message =
    let normalized = to_lower message in
    contains normalized "status 401"
    || contains normalized "unauthenticated"
    || contains normalized "invalid credentials"
    || contains normalized "http 401"
    || contains normalized "bad credentials"
    || contains normalized "gh auth login"

-- The failure count after a failure: the caller's, or one more than before.
abbrev failures_after : Option ℕ → ℕ → ℕ
failures_after none before = before + 1
failures_after (some n) before = n

-- The first part of recordConnectorPollAttempt: what the outcome says.
note_outcome : RuntimeEntry → ℕ → Option ℕ → Option PollError → RuntimeEntry
unfolding format_seconds format trim_space
note_outcome e now failures none = record e {
  last_poll = some (format_seconds now);
  deferred_reason = "";
  last_success = some (format_seconds now);
  last_error = "";
  consecutive_failures = 0;
}
note_outcome e now failures (some (deferred reason until)) = record e {
  last_poll = some (format_seconds now);
  deferred_reason = trim_space reason;
  not_before = some (format until);
}
note_outcome e now failures (some (failed message)) = record e {
  last_poll = some (format_seconds now);
  deferred_reason = "";
  last_error = trim_space message;
  consecutive_failures = failures_after failures e.consecutive_failures;
}
note_outcome e now failures (some (retry_after message delay)) = record e {
  last_poll = some (format_seconds now);
  deferred_reason = "";
  last_error = trim_space message;
  consecutive_failures = failures_after failures e.consecutive_failures;
  not_before = if ltb 0 delay then some (format (now + delay)) else e.not_before;
}

abbrev is_deferred : Option PollError → Bool
is_deferred (some (deferred _ _)) = true
is_deferred _ = false

-- The instant that the outcome sets for the next poll, none for the zero time.
abbrev asked_poll : Option ℕ → Option PollError → Option ℕ
asked_poll next (some (deferred _ until)) = some until
asked_poll next _ = next

-- connectorNotBefore, where it is in the future of `now`
unfoldable pub pending_deadline : Option Stamp → ℕ → Option ℕ
unfolding parse
pending_deadline none now = none
pending_deadline (some text) now = elim (parse text) [
  | none ↦ none
  | some t ↦ if ltb now t then some t else none
]

-- The later of a poll and a deadline; the zero time is before every deadline.
abbrev no_earlier : Option ℕ → ℕ → ℕ
no_earlier none t = t
no_earlier (some next) t = if ltb next t then t else next

abbrev format_option : Option ℕ → Option Stamp
format_option none = none
format_option (some t) = some (format t)

-- The second part: the deadline, and the next poll that it allows.
note_deadline : RuntimeEntry → Option ℕ → Bool → Option ℕ → RuntimeEntry
note_deadline e none true next = record e { next_poll = format_option next }
note_deadline e none false next = record e { not_before = none; next_poll = format_option next }
note_deadline e (some t) _ next = record e { next_poll = some (format (no_earlier next t)) }

stop_polls : RuntimeEntry → String → RuntimeEntry
stop_polls e id = record e {
  setup_state = "error";
  last_validated = e.last_poll;
  last_validation_error = text_append "last poll failed with invalid credentials; reconnect " id;
  next_poll = none;
}

-- The last part: a credential error stops the polls.
note_auth : RuntimeEntry → String → Option PollError → RuntimeEntry
unfolding connector_auth_failure stop_polls
note_auth e id none = e
note_auth e id (some (deferred reason until)) = e
note_auth e id (some (failed message)) =
    if connector_auth_failure message then stop_polls e id else e
note_auth e id (some (retry_after message delay)) =
    if connector_auth_failure message then stop_polls e id else e

unfoldable pub attempted_entry :
    RuntimeEntry → String → ℕ → Option ℕ → Option ℕ → Option PollError → RuntimeEntry
unfolding note_outcome note_deadline pending_deadline note_auth
attempted_entry e id now next failures outcome =
    let noted = note_outcome e now failures outcome in
    let deadline = pending_deadline noted.not_before now in
    let planned = note_deadline noted deadline (is_deferred outcome) (asked_poll next outcome) in
    note_auth planned id outcome

-- recordConnectorPollAttempt: `next` is none for the zero time, `failures` is none for -1.
unfoldable pub record_connector_poll_attempt :
    RuntimeFile → String → ℕ → Option ℕ → Option ℕ → Option PollError → RuntimeFile
unfolding entry set_entry attempted_entry
record_connector_poll_attempt file id now next failures outcome =
    set_entry file id (attempted_entry (entry file id) id now next failures outcome)

unfoldable pub record_connector_ingest : RuntimeFile → String → ℕ → RuntimeFile
unfolding entry set_entry format_seconds
record_connector_ingest file id now =
    set_entry file id (record (entry file id) { last_ingest = some (format_seconds now) })

-- How far a capture lags behind, if its text can be read and its connector captures windows.
lags : String → ℕ → ℕ → Option ℕ → Bool
unfolding captures_bounded_window
lags id now interval none = false
lags id now interval (some through) = captures_bounded_window id && ltb interval (now - through)

unfoldable pub record_connector_capture_completion : RuntimeFile → String → ℕ → Stamp → RuntimeFile
unfolding entry set_entry format_seconds parse connector_interval default_connector_interval lags
record_connector_capture_completion file id now through =
    let interval = connector_interval file id (default_connector_interval id) in
    let next = if lags id now interval (parse through) then now else now + interval in
    let at : Option Stamp = some (format_seconds now) in
    set_entry file id (record (entry file id) {
      last_ingest = at;
      last_poll = at;
      last_success = at;
      last_error = "";
      consecutive_failures = 0;
      next_poll = some (format_seconds next);
    })

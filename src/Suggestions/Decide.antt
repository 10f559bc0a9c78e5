-- ===== src/Suggestions/Decide.antt =====
-- What the user decides on a suggestion: UpdateSuggestionStatus, DismissSuggestion, ApproveSuggestion and
-- CompleteSuggestion. The clock is read once for an operation.
use workgraph.Common.{
  ℕ, String, Bool, true, false, not, Option, none, some, ◌==◌, Result, ok, err, guard, ◌>>=◌,
  trim_space, if◌then◌else◌, suggestion_id_required, bad_suggestion_status, bad_transition,
  dismiss_reason_required, bad_suggestion_type,
}
use workgraph.Suggestions.{
  Suggestion, SuggestionStatus, SuggestionStore, Host, proposed, reviewed, approved, dismissed,
  snoozed, acted, read_suggestion_by_id, update_suggestion, append_feedback,
}
use workgraph.Suggestions.Propose.{is_blank}

pub record StatusUpdate : Type 0 where
  pub id : String
  pub status : String
  pub reason_code : String
  pub feedback_note : String

unfoldable pub read_status : String → Option SuggestionStatus
read_status text =
    if text == "proposed"
    then some proposed
    else if text == "reviewed"
    then some reviewed
    else if text == "approved"
    then some approved
    else if text == "dismissed"
    then some dismissed
    else if text == "snoozed"
    then some snoozed
    else if text == "acted"
    then some acted
    else none

abbrev pub same_status : SuggestionStatus → SuggestionStatus → Bool
same_status proposed proposed = true
same_status reviewed reviewed = true
same_status approved approved = true
same_status dismissed dismissed = true
same_status snoozed snoozed = true
same_status acted acted = true
same_status _ _ = false

abbrev pub is_status : Option SuggestionStatus → SuggestionStatus → Bool
is_status none status = false
is_status (some other) status = same_status other status

unfoldable pub valid_suggestion_transition : SuggestionStatus → SuggestionStatus → Bool
valid_suggestion_transition proposed reviewed = true
valid_suggestion_transition proposed approved = true
valid_suggestion_transition reviewed approved = true
valid_suggestion_transition proposed dismissed = true
valid_suggestion_transition reviewed dismissed = true
valid_suggestion_transition snoozed dismissed = true
valid_suggestion_transition proposed snoozed = true
valid_suggestion_transition reviewed snoozed = true
valid_suggestion_transition approved acted = true
valid_suggestion_transition _ _ = false

-- The action that an update to a status puts on record, and when it is resolved.
unfoldable pub action_text : SuggestionStatus → String
action_text proposed = "proposed"
action_text reviewed = "reviewed"
action_text approved = "accepted"
action_text dismissed = "dismissed"
action_text snoozed = "snoozed"
action_text acted = "completed"

unfoldable pub resolved_by : SuggestionStatus → String → Option String
resolved_by reviewed now = none
resolved_by proposed now = none
resolved_by _ now = some now

unfoldable pub moved_to : SuggestionStatus → String → Suggestion → Suggestion
unfolding resolved_by
moved_to status now row = record row {
  status = status;
  updated_at = now;
  resolved_at = resolved_by status now;
}

-- The transaction that moves one suggestion on, once it is read.
unfoldable pub move_suggestion :
    Host
    → ℕ
    → SuggestionStatus
    → String
    → String
    → String
    → Suggestion
    → SuggestionStore
    → Result SuggestionStore
unfolding valid_suggestion_transition update_suggestion moved_to append_feedback action_text
move_suggestion host now status id reason_code note current store = do
  _ ← guard (valid_suggestion_transition current.status status) bad_transition
  append_feedback host now
      (record {
        suggestion_id = id;
        action = action_text status;
        reason_code = reason_code;
        note = note;
      })
      (record store {
        suggestions = update_suggestion id (moved_to status (host.show_time now)) store.suggestions;
      })

unfoldable pub update_to :
    Host → ℕ → StatusUpdate → Option SuggestionStatus → SuggestionStore → Result SuggestionStore
unfolding is_blank read_suggestion_by_id move_suggestion trim_space
update_to host now config none store = err (bad_suggestion_status config.status)
update_to host now config (some proposed) store = err (bad_suggestion_status config.status)
update_to host now config (some acted) store = err (bad_suggestion_status config.status)
update_to host now config (some status) store = do
  _ ← guard (not (is_blank config.id)) suggestion_id_required
  current ← read_suggestion_by_id config.id store
  move_suggestion host now status (trim_space config.id) config.reason_code config.feedback_note
      current store

unfoldable pub update_suggestion_status :
    Host → ℕ → StatusUpdate → SuggestionStore → Result SuggestionStore
unfolding update_to read_status trim_space
update_suggestion_status host now config store =
    update_to host now config (read_status (trim_space config.status)) store

unfoldable pub with_read : String → Result SuggestionStore → Result (SuggestionStore × Suggestion)
unfolding read_suggestion_by_id
with_read id done = do store ← done; row ← read_suggestion_by_id id store; ok (store, row)

unfoldable pub complete_suggestion :
    Host → ℕ → StatusUpdate → SuggestionStore → Result (SuggestionStore × Suggestion)
unfolding is_blank read_suggestion_by_id move_suggestion with_read trim_space
complete_suggestion host now config store = do
  _ ← guard (not (is_blank config.id)) suggestion_id_required
  current ← read_suggestion_by_id config.id store
  with_read config.id (
      move_suggestion host now acted (trim_space config.id) config.reason_code config.feedback_note
        current store)

unfoldable pub dismiss_suggestion :
    Host → ℕ → StatusUpdate → SuggestionStore → Result (SuggestionStore × Suggestion)
unfolding is_blank update_suggestion_status with_read
dismiss_suggestion host now config store = do
  _ ← guard (not (is_blank config.reason_code)) dismiss_reason_required
  with_read config.id
      (update_suggestion_status host now (record config { status = "dismissed" }) store)

-- The settings that an approval changes; what they return is whether they were written.
unfoldable pub is_approvable :
    String
    → (String → Result (Unit {0}))
    → (String → Result (Unit {0}))
    → String
    → Result (Unit {0})
is_approvable type_name ignore_path ignore_name pattern =
    if type_name == "ignore_path"
    then ignore_path pattern
    else if type_name == "ignore_name"
    then ignore_name pattern
    else if type_name == "association"
    then ok tt
    else err (bad_suggestion_type type_name)

unfoldable pub reason_or : String → String → String
unfolding is_blank
reason_or reason default = if is_blank reason then default else reason

unfoldable pub approve_suggestion :
    (String → Result (Unit {0}))
    → (String → Result (Unit {0}))
    → Host
    → ℕ
    → StatusUpdate
    → SuggestionStore
    → Result (SuggestionStore × Suggestion)
unfolding read_suggestion_by_id valid_suggestion_transition is_approvable reason_or
    update_suggestion_status with_read
approve_suggestion ignore_path ignore_name host now config store = do
  row ← read_suggestion_by_id config.id store
  _ ← guard (valid_suggestion_transition row.status approved) bad_transition
  _ ← is_approvable row.type_name ignore_path ignore_name row.pattern_key
  with_read config.id (
      update_suggestion_status host now
        (record config {
          status = "approved";
          reason_code = reason_or config.reason_code "user_approved";
        })
        store)

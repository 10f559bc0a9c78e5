-- ===== src/Suggestions.antt =====
-- Suggestions and what the user decides on them (suggestions.go): the tables suggestions,
-- suggestion_feedback and suggestion_suppressions as lists of rows, with their unique keys.
--
-- Each operation is one statement or one transaction. Times are stored as texts, as given or as the
-- program prints them. The hexadecimal SHA-256 of a text, the reading and printing of times, the check of
-- JSON and the settings file are arguments.
pub mod Propose
pub mod Decide
pub mod Snooze
pub mod Rows
pub mod Recorded
pub mod Moved
pub mod Legal
pub mod Steps
pub mod Kept
pub mod History
mod Examples
use Prim.Native.String.{◌++◌ as text_append, slice, compare}
use Prim.Native.Nat.{Ordering}
use workgraph.Common.{
  ℕ, String, Bool, true, false, not, ◌&&◌, ◌||◌, Option, none, some, List, [], ◌∷◌, ◌++◌, map, ◌==◌,
  Result, ok, err, guard, ◌>>=◌, first_with, trim_space, if◌then◌else◌, unique_violation, no_rows,
  bad_feedback_action, suggestion_id_required,
}

pub data SuggestionStatus : Type 0 where
  proposed reviewed approved dismissed snoozed acted : SuggestionStatus

pub data FeedbackAction : Type 0 where
  reviewed accepted approved dismissed snoozed completed undone : FeedbackAction

pub record Suggestion : Type 0 where
  pub id : String
  pub type_name : String
  pub pattern_key : String
  pub title : String
  pub reason : String
  pub confidence : String
  pub lane : String
  pub status : SuggestionStatus
  pub evidence_json : String
  pub created_at : String
  pub updated_at : String
  pub resolved_at : Option String

pub record Feedback : Type 0 where
  pub id : String
  pub suggestion_id : String
  pub action : FeedbackAction
  pub reason_code : Option String
  pub note : Option String
  pub created_at : String

pub record Suppression : Type 0 where
  pub id : String
  pub type_name : String
  pub pattern_key : String
  pub reason : Option String
  pub until_at : Option String
  pub created_at : String

pub record SuggestionStore : Type 0 where
  pub suggestions : List Suggestion
  pub feedback : List Feedback
  pub suppressions : List Suppression

-- What the program takes from Go's libraries: SHA-256 in hexadecimal, time.Parse by RFC 3339, an
-- instant in UTC by RFC 3339 and in nanoseconds, and json.Valid.
pub record Host : Type 0 where
  pub digest : String → String
  pub parse_time : String → Option ℕ
  pub show_time : ℕ → String
  pub show_nanos : ℕ → String
  pub is_json : String → Bool

unfoldable pub nullable_string : String → Option String
unfolding trim_space
nullable_string text = if trim_space text == "" then none else some (trim_space text)

unfoldable pub stable_suggestion_id : Host → String → String → String
unfolding trim_space
stable_suggestion_id host type_name pattern = text_append "sug_" (
    slice (host.digest (text_append (trim_space type_name) (text_append "\0" (trim_space pattern))))
      0 16)

-- type = ? AND pattern_key = ?
abbrev pub has_pattern : String → String → Suggestion → Bool
has_pattern type_name pattern row = row.type_name == type_name && row.pattern_key == pattern

unfoldable pub find_suggestion : (Suggestion → Bool) → List Suggestion → Option Suggestion
find_suggestion p [] = none
find_suggestion p (row ∷ rows) =
    let rest = find_suggestion p rows in if p row then some row else rest

unfoldable pub found_suggestion : Option Suggestion → Result Suggestion
found_suggestion none = err no_rows
found_suggestion (some row) = ok row

unfoldable pub read_suggestion_by_id : String → SuggestionStore → Result Suggestion
unfolding found_suggestion first_with trim_space
read_suggestion_by_id id store =
    found_suggestion (first_with (λ row. row.id) (trim_space id) store.suggestions)

-- UPDATE suggestions SET f WHERE id = ?
unfoldable pub update_suggestion :
    String → (Suggestion → Suggestion) → List Suggestion → List Suggestion
update_suggestion id f = map (λ row. if row.id == id then f row else row)

pub record FeedbackEvent : Type 0 where
  pub suggestion_id : String
  pub action : String
  pub reason_code : String
  pub note : String

unfoldable pub read_action : String → Option FeedbackAction
read_action text =
    if text == "reviewed"
    then some reviewed
    else if text == "accepted"
    then some accepted
    else if text == "approved"
    then some approved
    else if text == "dismissed"
    then some dismissed
    else if text == "snoozed"
    then some snoozed
    else if text == "completed"
    then some completed
    else if text == "undone"
    then some undone
    else none

unfoldable pub has_feedback : String → List Feedback → Bool
has_feedback id [] = false
has_feedback id (row ∷ rows) = row.id == id || has_feedback id rows

-- The key of a row of feedback, made of its action, its instant and its texts.
unfoldable pub feedback_id : Host → ℕ → FeedbackEvent → String → String
unfolding stable_suggestion_id trim_space
feedback_id host now event action =
    stable_suggestion_id host
      (text_append "feedback:"
        (text_append (trim_space event.suggestion_id) (text_append ":" action)))
      (text_append (host.show_nanos now)
        (text_append ":" (text_append event.reason_code (text_append ":" event.note))))

unfoldable pub feedback_row : Host → ℕ → FeedbackEvent → String → FeedbackAction → Feedback
unfolding feedback_id nullable_string trim_space
feedback_row host now event text action = record {
  id = feedback_id host now event text;
  suggestion_id = trim_space event.suggestion_id;
  action = action;
  reason_code = nullable_string event.reason_code;
  note = nullable_string event.note;
  created_at = host.show_time now;
}

unfoldable pub insert_feedback : Feedback → SuggestionStore → Result SuggestionStore
unfolding has_feedback
insert_feedback row store = do
  _ ← guard (not (has_feedback row.id store.feedback)) unique_violation
  ok (record store { feedback = store.feedback ++ row ∷ [] })

unfoldable pub append_read :
    Host
    → ℕ
    → FeedbackEvent
    → String
    → Option FeedbackAction
    → SuggestionStore
    → Result SuggestionStore
unfolding insert_feedback feedback_row
append_read host now event text none store = err (bad_feedback_action event.action)
append_read host now event text (some action) store =
    insert_feedback (feedback_row host now event text action) store

-- appendSuggestionFeedback
unfoldable pub append_feedback : Host → ℕ → FeedbackEvent → SuggestionStore → Result SuggestionStore
unfolding append_read read_action trim_space
append_feedback host now event store =
    append_read host now event (trim_space event.action) (read_action (trim_space event.action))
      store

-- AppendSuggestionFeedback
unfoldable pub append_suggestion_feedback :
    Host → ℕ → FeedbackEvent → SuggestionStore → Result SuggestionStore
unfolding append_feedback trim_space
append_suggestion_feedback host now event store = do
  _ ← guard (not (trim_space event.suggestion_id == "")) suggestion_id_required
  append_feedback host now event store

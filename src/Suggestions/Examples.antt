-- ===== src/Suggestions/Examples.antt =====
-- A suggestion that is proposed, put off, approved and completed, and the witness.
use workgraph.Common.{
  guard, ◌>>=◌, ℕ, zero, String, Result, ok, ◌≡◌, refl, true, Option, none, some, List, [], ◌∷◌,
  map, first_with, trim_space, sort_slice,
}
use workgraph.Suggestions.{
  SuggestionStore, Host, approved, acted, accepted, stable_suggestion_id, append_feedback,
  find_suggestion,
}
use workgraph.Suggestions.Propose.{SuggestionUpsert, upsert_suggestion}
use workgraph.Suggestions.Decide.{
  StatusUpdate, approve_suggestion, complete_suggestion, dismiss_suggestion,
}
use workgraph.Suggestions.Snooze.{SnoozeUpdate, snooze_suggestion, list_suggestions}
use workgraph.Suggestions.Rows.{Grows}
use workgraph.Suggestions.Recorded.{IsWellFormed, is_resolved, has_record}
use workgraph.Suggestions.History.{
  SuggestionCall, proposes, approves, completes, snoozes, lists, dismisses, suggestion_run,
  suggestion_run-Advances,
}

same_text : String → String
same_text text = text

-- Times of one digit, as they would be printed.
some_time : String → Option ℕ
some_time text = some 5

shown : ℕ → String
shown zero = "0"
shown _ = "7"

abbrev host : Host
host = record {
  digest = same_text;
  parse_time = some_time;
  show_time = shown;
  show_nanos = shown;
  is_json = λ text. true;
}

abbrev association : SuggestionUpsert
association = record {
  id = " s1 ";
  type_name = "association";
  pattern_key = "p";
  title = "Link two events";
  reason = "Same branch";
  confidence = "high";
  lane = "semantic";
  evidence_json = "[]";
}

abbrev decision : StatusUpdate
decision = record { id = "s1"; status = ""; reason_code = ""; feedback_note = "" }

abbrev later : SnoozeUpdate
later = record { id = "s1"; until_at = "5"; reason_code = ""; feedback_note = "" }

allow : String → Result (Unit {0})
allow pattern = ok tt

abbrev empty : SuggestionStore
empty = record { suggestions = []; feedback = []; suppressions = [] }

-- A snooze that is over is back among the proposals; a suggestion that is completed is not proposed again.
abbrev days : List (ℕ × SuggestionCall)
days =
    (0, proposes association)
    ∷ (0, snoozes later)
    ∷ (1, lists "" 0)
    ∷ (1, approves decision)
    ∷ (1, dismisses decision)
    ∷ (1, completes decision)
    ∷ (1, proposes association)
    ∷ []

-- An approved suggestion, with its feedback.
abbrev begun : SuggestionStore
begun = record {
  suggestions =
      record {
        id = "s1";
        type_name = "association";
        pattern_key = "p";
        title = "Link two events";
        reason = "Same branch";
        confidence = "high";
        lane = "semantic";
        status = approved;
        evidence_json = "[]";
        created_at = "0";
        updated_at = "0";
        resolved_at = some "0";
      }
      ∷ [];
  feedback =
      record {
        id = "f1";
        suggestion_id = "s1";
        action = accepted;
        reason_code = none;
        note = none;
        created_at = "0";
      }
      ∷ [];
  suppressions = [];
}

begun-IsWellFormed : IsWellFormed begun
unfolding first_with is_resolved has_record
begun-IsWellFormed = ((refl, tt), ((refl, refl), tt))

suggestion_run-Advances_example :
    IsWellFormed (suggestion_run allow allow host begun days)
    × Grows begun.suggestions (suggestion_run allow allow host begun days).suggestions
suggestion_run-Advances_example =
    suggestion_run-Advances allow allow host begun days begun-IsWellFormed

days_statuses :
    map (λ row. row.status) (suggestion_run allow allow host empty days).suggestions ≡ acted ∷ []
unfolding suggestion_run same_text some_time shown allow upsert_suggestion snooze_suggestion
    approve_suggestion complete_suggestion list_suggestions dismiss_suggestion first_with trim_space
    sort_slice find_suggestion append_feedback stable_suggestion_id ◌>>=◌ guard
days_statuses = refl

-- ===== src/Suggestions/Propose.antt =====
-- Proposing a suggestion (UpsertSuggestion), and keeping a pattern from being proposed
-- (AddSuggestionSuppression, RemoveSuggestionSuppression).
use workgraph.Common.{
  ℕ, String, Bool, true, false, not, ◌&&◌, ◌||◌, Option, none, some, List, [], ◌∷◌, ◌++◌, map, ◌==◌,
  Result, ok, err, guard, ◌>>=◌, select, first_with, trim_space, if◌then◌else◌, unique_violation,
  bad_suggestion, bad_until,
}
use Prim.Native.String.{◌++◌ as text_append}
use workgraph.Suggestions.{
  Suggestion, SuggestionStore, Suppression, Host, proposed, nullable_string, stable_suggestion_id,
  has_pattern, find_suggestion, found_suggestion,
}

pub record SuggestionUpsert : Type 0 where
  pub id : String
  pub type_name : String
  pub pattern_key : String
  pub title : String
  pub reason : String
  pub confidence : String
  pub lane : String
  pub evidence_json : String

unfoldable pub is_blank : String → Bool
unfolding trim_space
is_blank text = trim_space text == ""

unfoldable pub valid_suggestion_confidence : String → Bool
valid_suggestion_confidence text = text == "high" || text == "medium" || text == "low"

unfoldable pub valid_suggestion_lane : String → Bool
valid_suggestion_lane text = text == "baseline" || text == "semantic" || text == "manual"

unfoldable pub validate_suggestion_upsert : Host → SuggestionUpsert → Result (Unit {0})
unfolding is_blank valid_suggestion_confidence valid_suggestion_lane trim_space
validate_suggestion_upsert host config = do
  _ ← guard (not (is_blank config.type_name)) bad_suggestion
  _ ← guard (not (is_blank config.pattern_key)) bad_suggestion
  _ ← guard (not (is_blank config.title)) bad_suggestion
  _ ← guard (not (is_blank config.reason)) bad_suggestion
  _ ← guard (valid_suggestion_confidence (trim_space config.confidence)) bad_suggestion
  _ ← guard (valid_suggestion_lane (trim_space config.lane)) bad_suggestion
  guard (host.is_json (trim_space config.evidence_json)) bad_suggestion

-- DO UPDATE SET: the row keeps its id, its status and its creation.
unfoldable pub proposed_again : SuggestionUpsert → String → Suggestion → Suggestion
unfolding trim_space
proposed_again config now row = record row {
  title = trim_space config.title;
  reason = trim_space config.reason;
  confidence = trim_space config.confidence;
  lane = trim_space config.lane;
  evidence_json = trim_space config.evidence_json;
  updated_at = now;
}

unfoldable pub upsert_id : Host → SuggestionUpsert → String
unfolding stable_suggestion_id trim_space
upsert_id host config =
    if trim_space config.id == ""
    then stable_suggestion_id host config.type_name config.pattern_key
    else trim_space config.id

unfoldable pub new_suggestion : Host → String → SuggestionUpsert → Suggestion
unfolding upsert_id trim_space
new_suggestion host now config = record {
  id = upsert_id host config;
  type_name = trim_space config.type_name;
  pattern_key = trim_space config.pattern_key;
  title = trim_space config.title;
  reason = trim_space config.reason;
  confidence = trim_space config.confidence;
  lane = trim_space config.lane;
  status = proposed;
  evidence_json = trim_space config.evidence_json;
  created_at = now;
  updated_at = now;
  resolved_at = none;
}

-- INSERT ... ON CONFLICT(type, pattern_key) DO UPDATE. An id in use is an error.
unfoldable pub insert_suggestion :
    Suggestion → List Suggestion → Option Suggestion → Result (List Suggestion)
insert_suggestion row rows none = ok (rows ++ row ∷ [])
insert_suggestion row rows (some other) = err unique_violation

unfoldable pub upsert_row :
    (Suggestion → Suggestion)
    → Suggestion
    → List Suggestion
    → Option Suggestion
    → Result (List Suggestion)
unfolding insert_suggestion first_with
upsert_row again row rows none = insert_suggestion row rows (first_with (λ r. r.id) row.id rows)
upsert_row again row rows (some other) =
    ok (map (λ r. if has_pattern row.type_name row.pattern_key r then again r else r) rows)

unfoldable pub upsert_suggestion :
    Host → ℕ → SuggestionUpsert → SuggestionStore → Result (SuggestionStore × Suggestion)
unfolding validate_suggestion_upsert new_suggestion proposed_again upsert_row find_suggestion
    found_suggestion
upsert_suggestion host now config store = do
  _ ← validate_suggestion_upsert host config
  let row = new_suggestion host (host.show_time now) config
  let same = has_pattern row.type_name row.pattern_key
  rows ←
      upsert_row (proposed_again config (host.show_time now)) row store.suggestions
        (find_suggestion same store.suggestions)
  read ← found_suggestion (find_suggestion same rows)
  ok (record store { suggestions = rows }, read)

pub record SuppressionChange : Type 0 where
  pub type_name : String
  pub pattern_key : String
  pub reason : String
  pub until_at : String

abbrev pub suppresses : String → String → Suppression → Bool
suppresses type_name pattern row = row.type_name == type_name && row.pattern_key == pattern

-- INSERT ... ON CONFLICT(type, pattern_key) DO UPDATE SET reason, until_at
unfoldable pub upsert_suppression : Suppression → List Suppression → List Suppression
upsert_suppression new [] = new ∷ []
upsert_suppression new (row ∷ rows) =
    let rest = upsert_suppression new rows in
    if suppresses new.type_name new.pattern_key row
    then record row { reason = new.reason; until_at = new.until_at } ∷ rows
    else row ∷ rest

abbrev reads : Option ℕ → Bool
reads none = false
reads (some at) = true

unfoldable pub validate_suggestion_suppression : Host → SuppressionChange → Result (Unit {0})
unfolding is_blank trim_space
validate_suggestion_suppression host config = do
  _ ← guard (not (is_blank config.type_name)) bad_suggestion
  _ ← guard (not (is_blank config.pattern_key)) bad_suggestion
  guard (is_blank config.until_at || reads (host.parse_time (trim_space config.until_at))) bad_until

unfoldable pub add_suggestion_suppression :
    Host → ℕ → SuppressionChange → SuggestionStore → Result (SuggestionStore × String)
unfolding validate_suggestion_suppression stable_suggestion_id nullable_string upsert_suppression
    trim_space
add_suggestion_suppression host now config store = do
  _ ← validate_suggestion_suppression host config
  let id = stable_suggestion_id host (text_append "suppress:" config.type_name) config.pattern_key
  ok (
    record store {
      suppressions =
          upsert_suppression
            (record {
              id = id;
              type_name = trim_space config.type_name;
              pattern_key = trim_space config.pattern_key;
              reason = nullable_string config.reason;
              until_at = nullable_string config.until_at;
              created_at = host.show_time now;
            })
            store.suppressions;
    },
    id,
  )

unfoldable pub remove_suggestion_suppression :
    SuppressionChange → SuggestionStore → Result SuggestionStore
unfolding is_blank trim_space
remove_suggestion_suppression config store = do
  _ ← guard (not (is_blank config.type_name)) bad_suggestion
  _ ← guard (not (is_blank config.pattern_key)) bad_suggestion
  ok (record store {
    suppressions =
        select
          (λ row.
            not (suppresses (trim_space config.type_name) (trim_space config.pattern_key) row))
          store.suppressions;
  })

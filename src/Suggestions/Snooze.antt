-- ===== src/Suggestions/Snooze.antt =====
-- Putting a suggestion off (SnoozeSuggestion), the end of a snooze (expireSnoozedSuggestions), and the
-- listing that looks for it first (ListSuggestions).
use Prim.Native.String.{◌++◌ as text_append, compare}
use Prim.Native.Nat.{Ordering}
use workgraph.Common.{
  ℕ, zero, suc, take, select, sort_slice, String, Bool, true, false, not, ◌&&◌, ◌||◌, Option, none,
  some, List, [], ◌∷◌, map, ◌==◌, Result, ok, err, guard, ◌>>=◌, ltb, trim_space, if◌then◌else◌,
  suggestion_id_required, bad_transition, pattern_key_required, bad_until, until_past,
}
use workgraph.Suggestions.{
  Suggestion, SuggestionStatus, SuggestionStore, Suppression, Host, proposed, snoozed,
  nullable_string, stable_suggestion_id, read_suggestion_by_id,
}
use workgraph.Suggestions.Propose.{is_blank, upsert_suppression, suppresses}
use workgraph.Suggestions.Decide.{
  read_status, valid_suggestion_transition, moved_to, move_suggestion, with_read, is_status,
}

pub record SnoozeUpdate : Type 0 where
  pub id : String
  pub until_at : String
  pub reason_code : String
  pub feedback_note : String

unfoldable pub snooze_suppression : Host → ℕ → ℕ → SnoozeUpdate → Suggestion → Suppression
unfolding stable_suggestion_id nullable_string
snooze_suppression host now until config row = record {
  id = stable_suggestion_id host (text_append "suppress:" row.type_name) row.pattern_key;
  type_name = row.type_name;
  pattern_key = row.pattern_key;
  reason = nullable_string config.reason_code;
  until_at = some (host.show_time until);
  created_at = host.show_time now;
}

unfoldable pub snooze_until :
    Host → ℕ → SnoozeUpdate → Option ℕ → SuggestionStore → Result (SuggestionStore × Suggestion)
unfolding read_suggestion_by_id valid_suggestion_transition move_suggestion snooze_suppression
    upsert_suppression with_read trim_space
snooze_until host now config none store = err bad_until
snooze_until host now config (some until) store = do
  _ ← guard (ltb now until) until_past
  row ← read_suggestion_by_id config.id store
  _ ← guard (valid_suggestion_transition row.status snoozed) bad_transition
  _ ← guard (not (row.pattern_key == "")) pattern_key_required
  moved ←
      move_suggestion host now snoozed (trim_space config.id) config.reason_code
        config.feedback_note row store
  with_read config.id (
      ok (record moved {
        suppressions =
            upsert_suppression (snooze_suppression host now until config row) moved.suppressions;
      }))

unfoldable pub snooze_suggestion :
    Host → ℕ → SnoozeUpdate → SuggestionStore → Result (SuggestionStore × Suggestion)
unfolding is_blank snooze_until trim_space
snooze_suggestion host now config store = do
  _ ← guard (not (is_blank config.id)) suggestion_id_required
  snooze_until host now config (host.parse_time (trim_space config.until_at)) store

-- until_at IS NOT NULL AND until_at <= ?, as texts
unfoldable pub is_over : String → Option String → Bool
is_over now none = false
is_over now (some until) = elim (compare until now) [ Ordering.gt ↦ false | _ ↦ true ]

unfoldable pub is_snooze_over : String → Suggestion → List Suppression → Bool
unfolding is_over
is_snooze_over now row [] = false
is_snooze_over now row (s ∷ ss) =
    suppresses row.type_name row.pattern_key s && is_over now s.until_at
    || is_snooze_over now row ss

abbrev pub is_snoozed : SuggestionStatus → Bool
is_snoozed snoozed = true
is_snoozed _ = false

unfoldable pub expire_row : String → List Suppression → Suggestion → Suggestion
unfolding is_snooze_over moved_to
expire_row now ss row =
    if is_snoozed row.status && is_snooze_over now row ss then moved_to proposed now row else row

unfoldable pub expire_snoozed_suggestions : Host → ℕ → SuggestionStore → SuggestionStore
unfolding expire_row
expire_snoozed_suggestions host now store = record store {
  suggestions = map (expire_row (host.show_time now) store.suppressions) store.suggestions;
}

-- A limit that is not positive is 0, and 25 is taken for it.
unfoldable pub limit_or : ℕ → ℕ
limit_or zero = 25
limit_or (suc n) = suc n

unfoldable pub is_later : Suggestion → Suggestion → Bool
is_later x y = elim (compare x.updated_at y.updated_at) [
  | Ordering.lt ↦ true
  | Ordering.gt ↦ false
  | Ordering.eq ↦ elim (compare x.created_at y.created_at) [ Ordering.lt ↦ true | _ ↦ false ]
]

unfoldable pub has_status : String → Suggestion → Bool
unfolding read_status
has_status text row = text == "" || is_status (read_status text) row.status

-- ORDER BY updated_at DESC, created_at DESC LIMIT ?, after the snoozes that are over
unfoldable pub list_suggestions :
    Host → ℕ → String → ℕ → SuggestionStore → SuggestionStore × List Suggestion
unfolding expire_snoozed_suggestions limit_or is_later has_status sort_slice trim_space
list_suggestions host now status limit store =
    let after = expire_snoozed_suggestions host now store in
    (
      after,
      take (limit_or limit)
          (sort_slice is_later (select (has_status (trim_space status)) after.suggestions)),
    )

-- ===== src/Suggestions/Moved.antt =====
-- One transaction moves one suggestion on and records why.
use workgraph.Common.{
  ℕ, String, true, ◌≡◌, refl, sym, ◌∙◌, subst, some, List, [], ◌∷◌, ◌++◌, map, ◌==◌, All, All-mono,
  first_with, map-Unrepeated, Bool-cases, inl, inr, eq_iff, arith, if◌then◌else◌, Ensures,
  Ensures-guard, Ensures-mono, trim_space,
}
use workgraph.Suggestions.{
  Suggestion, SuggestionStatus, SuggestionStore, Feedback, Host, read_action, update_suggestion,
}
use workgraph.Suggestions.Decide.{
  valid_suggestion_transition, action_text, moved_to, move_suggestion,
}
use workgraph.Suggestions.Rows.{leads_refl, Keeps, Grows-map}
use workgraph.Suggestions.Recorded.{
  IsRecorded, IsWellFormed, has_record-append, append_feedback-Appends,
}
use workgraph.Suggestions.Legal.{
  Advances, row_id, resolved_by-is_set, first_with-only, valid-leads, moved-has_record,
}

-- What the update makes of a row.
abbrev moved_row : String → SuggestionStatus → String → Suggestion → Suggestion
moved_row id status at row = if row.id == id then moved_to status at row else row

module _ (id at : String) (current : Suggestion) (status : SuggestionStatus)
    (valid : valid_suggestion_transition current.status status ≡ true) where
  moved_row-Keeps :
      (row : Suggestion)
      → ((row.id == id) ≡ true → row ≡ current)
      → Keeps row (moved_row id status at row)
  unfolding moved_to
  moved_row-Keeps row only = elim (Bool-cases (row.id == id)) [
    | inl k ↦ rw k (
      refl,
      refl,
      refl,
      valid-leads row.status status
          (subst (λ r. valid_suggestion_transition r.status status ≡ true) (sym (only k)) valid),
    )
    | inr k ↦ rw k (refl, refl, refl, leads_refl row.status)
  ]

  moved_rows-Keeps :
      (rows : List Suggestion)
      → All (λ row. (row.id == id) ≡ true → row ≡ current) rows
      → All (λ row. Keeps row (moved_row id status at row)) rows
  moved_rows-Keeps rows only = All-mono _ _ moved_row-Keeps rows only

  module _ (feedback : List Feedback) (new : Feedback) (about : new.suggestion_id ≡ id)
      (says : read_action (trim_space (action_text status)) ≡ some new.action) where
    moved_row-IsRecorded :
        (row : Suggestion)
        → ((row.id == id) ≡ true → row ≡ current)
        → IsRecorded feedback row
        → IsRecorded (feedback ++ new ∷ []) (moved_row id status at row)
    unfolding moved_to
    moved_row-IsRecorded row only (r, h) = elim (Bool-cases (row.id == id)) [
      | inl k ↦ rw k (
        resolved_by-is_set status at,
        moved-has_record row.status status row.id feedback new
            (subst (λ r. valid_suggestion_transition r.status status ≡ true) (sym (only k)) valid) h
            (about ∙ sym ((eq_iff row.id id).0 k)) says,
      )
      | inr k ↦ rw k (r, has_record-append row.status row.id feedback (new ∷ []) h)
    ]

    moved_rows-IsRecorded :
        (rows : List Suggestion)
        → All (λ row. (row.id == id) ≡ true → row ≡ current) rows
        → All (IsRecorded feedback) rows
        → All (IsRecorded (feedback ++ new ∷ [])) (map (moved_row id status at) rows)
    moved_rows-IsRecorded [] only a = tt
    moved_rows-IsRecorded (row ∷ rows) only a =
        (moved_row-IsRecorded row only.0 a.0, moved_rows-IsRecorded rows only.1 a.1)

moved_row-id :
    (id at : String) (status : SuggestionStatus) (row : Suggestion)
    → (moved_row id status at row).id ≡ row.id
unfolding moved_to
moved_row-id id at status row = ground arith

module _ (host : Host) (now : ℕ) (status : SuggestionStatus) (id : String)
    (reason_code note : String) where
  -- By the row that is read, whose id has no space around it.
  pub move_suggestion-Advances :
      (current : Suggestion) (store : SuggestionStore)
      → trim_space id ≡ id
      → first_with row_id id store.suggestions ≡ some current
      → IsWellFormed store
      → Ensures (Advances store) (move_suggestion host now status id reason_code note current store)
  unfolding move_suggestion update_suggestion
  move_suggestion-Advances current store trimmed found w =
      let only = first_with-only id current store.suggestions w.0 found in
      let at = host.show_time now in
      Ensures-guard _ _ _ (λ valid.
        Ensures-mono _
          (append_feedback-Appends host now
            (record {
              suggestion_id = id;
              action = action_text status;
              reason_code = reason_code;
              note = note;
            })
            (record store {
              suggestions = update_suggestion id (moved_to status at) store.suggestions;
            }))
          (λ after (rows, kept, new, feedback, about, says).
            rw (rows, feedback)
              (
                (
                  map-Unrepeated row_id (moved_row id status at) (moved_row-id id at status)
                      store.suggestions w.0,
                  moved_rows-IsRecorded id at current status valid store.feedback new
                      (about ∙ trimmed) says store.suggestions only w.1,
                ),
                Grows-map (moved_row id status at) store.suggestions
                    (moved_rows-Keeps id at current status valid store.suggestions only),
              )))

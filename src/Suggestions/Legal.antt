-- ===== src/Suggestions/Legal.antt =====
-- What a move that its status allows does to a suggestion and its feedback, and the one row of an id.
use workgraph.Common.{
  String, true, false, ◌≡◌, refl, sym, ◌∙◌, subst, none, some, List, [], ◌∷◌, ◌++◌, ◌==◌, All,
  All-mono, first_with, first_with-here, first_with-past, Unrepeated, Bool-cases, inl, inr, eq_iff,
  trim_space,
}
use workgraph.Suggestions.{
  Suggestion, SuggestionStatus, SuggestionStore, Feedback, proposed, reviewed, approved, dismissed,
  snoozed, acted, completed, read_action,
}
use workgraph.Suggestions.Decide.{valid_suggestion_transition, action_text, resolved_by}
use workgraph.Suggestions.Rows.{leads, Grows}
use workgraph.Suggestions.Recorded.{
  IsWellFormed, is_set, is_resolved, has_record, was_recorded, was_recorded-new, has_record-append,
}

abbrev pub Advances : SuggestionStore → SuggestionStore → Type 0
Advances store after = IsWellFormed after × Grows store.suggestions after.suggestions

abbrev pub row_id : Suggestion → String
row_id row = row.id

first_with-none :
    (id : String) (rows : List Suggestion)
    → first_with row_id id rows ≡ none
    → All (λ row. (row.id == id) ≡ false) rows
unfolding first_with
first_with-none id [] h = tt
first_with-none id (row ∷ rows) h = elim (Bool-cases (row.id == id)) [
  | inl k ↦ absurd (cc (sym (first_with-here row_id id row rows k) ∙ h))
  | inr k ↦ (k, first_with-none id rows (sym (first_with-past row_id id row rows k) ∙ h))
]

-- Where ids are distinct, the row that is read is the only one of its id.
pub first_with-only :
    (id : String) (current : Suggestion) (rows : List Suggestion)
    → Unrepeated row_id rows
    → first_with row_id id rows ≡ some current
    → All (λ row. (row.id == id) ≡ true → row ≡ current) rows
unfolding first_with
first_with-only id current [] u h = tt
first_with-only id current (row ∷ rows) u h = elim (Bool-cases (row.id == id)) [
  | inl k ↦
      let same : some row ≡ some current = sym (first_with-here row_id id row rows k) ∙ h in
      let past : first_with row_id id rows ≡ none = rw (sym ((eq_iff row.id id).0 k)) u.0 in
      (
        λ g. cc same,
        All-mono _ _ (λ r none_left g. absurd (cc (sym none_left ∙ g))) rows
            (first_with-none id rows past),
      )
  | inr k ↦ (
    λ g. absurd (cc (sym k ∙ g)),
    first_with-only id current rows u.1 (sym (first_with-past row_id id row rows k) ∙ h),
  )
]

pub valid-leads :
    (s t : SuggestionStatus) → valid_suggestion_transition s t ≡ true → leads s t ≡ true
unfolding valid_suggestion_transition leads
valid-leads proposed t h = refl
valid-leads reviewed t h = refl
valid-leads snoozed t h = refl
valid-leads approved proposed h = h
valid-leads approved reviewed h = h
valid-leads approved approved h = refl
valid-leads approved dismissed h = h
valid-leads approved snoozed h = h
valid-leads approved acted h = refl
valid-leads dismissed proposed h = h
valid-leads dismissed reviewed h = h
valid-leads dismissed approved h = h
valid-leads dismissed dismissed h = refl
valid-leads dismissed snoozed h = h
valid-leads dismissed acted h = h
valid-leads acted proposed h = h
valid-leads acted reviewed h = h
valid-leads acted approved h = h
valid-leads acted dismissed h = h
valid-leads acted snoozed h = h
valid-leads acted acted h = refl

pub resolved_by-is_set :
    (s : SuggestionStatus) (now : String) → is_set (resolved_by s now) ≡ is_resolved s
unfolding resolved_by is_resolved
resolved_by-is_set proposed now = refl
resolved_by-is_set reviewed now = refl
resolved_by-is_set approved now = refl
resolved_by-is_set dismissed now = refl
resolved_by-is_set snoozed now = refl
resolved_by-is_set acted now = refl

completed-approved :
    (s : SuggestionStatus) → valid_suggestion_transition s acted ≡ true → s ≡ approved
unfolding valid_suggestion_transition
completed-approved approved h = refl
completed-approved proposed h = absurd (cc h)
completed-approved reviewed h = absurd (cc h)
completed-approved dismissed h = absurd (cc h)
completed-approved snoozed h = absurd (cc h)
completed-approved acted h = absurd (cc h)

-- The new row of feedback is the one that the new status asks for.
pub moved-has_record :
    (current status : SuggestionStatus) (id : String) (rows : List Feedback) (new : Feedback)
    → valid_suggestion_transition current status ≡ true
    → has_record current id rows ≡ true
    → new.suggestion_id ≡ id
    → read_action (trim_space (action_text status)) ≡ some new.action
    → has_record status id (rows ++ new ∷ []) ≡ true
unfolding has_record read_action trim_space action_text
moved-has_record current proposed id rows new v h e a = refl
moved-has_record current reviewed id rows new v h e a =
    subst (λ action. was_recorded action id (rows ++ new ∷ []) ≡ true) (cc a)
      (was_recorded-new id rows new e)
moved-has_record current approved id rows new v h e a =
    subst (λ action. was_recorded action id (rows ++ new ∷ []) ≡ true) (cc a)
      (was_recorded-new id rows new e)
moved-has_record current dismissed id rows new v h e a =
    subst (λ action. was_recorded action id (rows ++ new ∷ []) ≡ true) (cc a)
      (was_recorded-new id rows new e)
moved-has_record current snoozed id rows new v h e a =
    subst (λ action. was_recorded action id (rows ++ new ∷ []) ≡ true) (cc a)
      (was_recorded-new id rows new e)
moved-has_record current acted id rows new v h e a =
    let was : has_record approved id rows ≡ true =
      subst (λ s. has_record s id rows ≡ true) (completed-approved current v) h in
    let done : was_recorded completed id (rows ++ new ∷ []) ≡ true =
      subst (λ action. was_recorded action id (rows ++ new ∷ []) ≡ true) (cc a)
        (was_recorded-new id rows new e) in
    rw (done, has_record-append approved id rows (new ∷ []) was) refl

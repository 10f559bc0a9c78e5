-- ===== src/Suggestions/Recorded.antt =====
-- Each decision on a suggestion has its feedback on record.
use workgraph.Common.{
  ℕ, String, Bool, true, false, ◌&&◌, ◌||◌, ◌≡◌, refl, Option, none, some, List, [], ◌∷◌, ◌++◌,
  ◌==◌, All, Unrepeated, and-eq-true, eq_refl, arith, Ensures, returns, refuses, Ensures-guard,
  trim_space,
}
use workgraph.Suggestions.{
  Suggestion, SuggestionStatus, SuggestionStore, Feedback, FeedbackAction, FeedbackEvent, Host,
  proposed, reviewed, approved, dismissed, snoozed, acted, accepted, completed, undone,
  insert_feedback, feedback_row, append_read, append_feedback, read_action,
}

abbrev same_action : FeedbackAction → FeedbackAction → Bool
same_action reviewed reviewed = true
same_action accepted accepted = true
same_action approved approved = true
same_action dismissed dismissed = true
same_action snoozed snoozed = true
same_action completed completed = true
same_action undone undone = true
same_action _ _ = false

same_action_refl : (a : FeedbackAction) → same_action a a ≡ true
same_action_refl reviewed = refl
same_action_refl accepted = refl
same_action_refl approved = refl
same_action_refl dismissed = refl
same_action_refl snoozed = refl
same_action_refl completed = refl
same_action_refl undone = refl

-- A row of feedback says this of the suggestion.
unfoldable pub was_recorded : FeedbackAction → String → List Feedback → Bool
was_recorded action id [] = false
was_recorded action id (row ∷ rows) =
    same_action row.action action && row.suggestion_id == id || was_recorded action id rows

-- The feedback that a status asks for; a suggestion is completed after it was accepted.
unfoldable pub has_record : SuggestionStatus → String → List Feedback → Bool
unfolding was_recorded
has_record proposed id rows = true
has_record reviewed id rows = was_recorded reviewed id rows
has_record approved id rows = was_recorded accepted id rows
has_record dismissed id rows = was_recorded dismissed id rows
has_record snoozed id rows = was_recorded snoozed id rows
has_record acted id rows = was_recorded completed id rows && was_recorded accepted id rows

-- The statuses with a time of resolution.
unfoldable pub is_resolved : SuggestionStatus → Bool
is_resolved proposed = false
is_resolved reviewed = false
is_resolved _ = true

abbrev pub is_set : Option String → Bool
is_set none = false
is_set (some at) = true

abbrev pub IsRecorded : List Feedback → Suggestion → Type 0
IsRecorded feedback row =
    (is_set row.resolved_at ≡ is_resolved row.status)
    × (has_record row.status row.id feedback ≡ true)

abbrev pub IsWellFormed : SuggestionStore → Type 0
IsWellFormed store =
    Unrepeated (λ row. row.id) store.suggestions × All (IsRecorded store.feedback) store.suggestions

was_recorded-append :
    (action : FeedbackAction) (id : String) (rows new : List Feedback)
    → was_recorded action id rows ≡ true
    → was_recorded action id (rows ++ new) ≡ true
unfolding was_recorded
was_recorded-append action id [] new h = absurd (cc h)
was_recorded-append action id (row ∷ rows) new h =
    ground (arith, was_recorded-append action id rows new)

pub was_recorded-new :
    (id : String) (rows : List Feedback) (new : Feedback)
    → new.suggestion_id ≡ id
    → was_recorded new.action id (rows ++ new ∷ []) ≡ true
unfolding was_recorded
was_recorded-new id [] new h = rw (same_action_refl new.action, h, eq_refl id) refl
was_recorded-new id (row ∷ rows) new h = ground (arith, was_recorded-new id rows new h)

pub has_record-append :
    (status : SuggestionStatus) (id : String) (rows new : List Feedback)
    → has_record status id rows ≡ true
    → has_record status id (rows ++ new) ≡ true
unfolding has_record
has_record-append proposed id rows new h = refl
has_record-append reviewed id rows new h = was_recorded-append reviewed id rows new h
has_record-append approved id rows new h = was_recorded-append accepted id rows new h
has_record-append dismissed id rows new h = was_recorded-append dismissed id rows new h
has_record-append snoozed id rows new h = was_recorded-append snoozed id rows new h
has_record-append acted id rows new h =
    let parts = and-eq-true (was_recorded completed id rows) (was_recorded accepted id rows) h in
    rw
      (
        was_recorded-append completed id rows new parts.0,
        was_recorded-append accepted id rows new parts.1,
      )
      refl

-- What a row of feedback leaves as it was, and what it says.
abbrev pub Appends : FeedbackEvent → SuggestionStore → SuggestionStore → Type 0
Appends event store after =
    (after.suggestions ≡ store.suggestions)
    × (after.suppressions ≡ store.suppressions)
    × (new : Feedback) × (after.feedback ≡ store.feedback ++ new ∷ [])
    × (new.suggestion_id ≡ trim_space event.suggestion_id)
    × (read_action (trim_space event.action) ≡ some new.action)

append_read-Appends :
    (host : Host) (now : ℕ) (event : FeedbackEvent) (o : Option FeedbackAction)
    (store : SuggestionStore)
    → read_action (trim_space event.action) ≡ o
    → Ensures (Appends event store) (append_read host now event (trim_space event.action) o store)
unfolding append_read insert_feedback feedback_row
append_read-Appends host now event none store h = refuses _
append_read-Appends host now event (some action) store h =
    Ensures-guard _ _ _ (λ free. returns _ (refl, refl, _, refl, refl, h))

pub append_feedback-Appends :
    (host : Host) (now : ℕ) (event : FeedbackEvent) (store : SuggestionStore)
    → Ensures (Appends event store) (append_feedback host now event store)
unfolding append_feedback
append_feedback-Appends host now event store =
    append_read-Appends host now event (read_action (trim_space event.action)) store refl

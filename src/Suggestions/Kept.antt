-- ===== src/Suggestions/Kept.antt =====
-- Proposing, feedback, suppressions and the end of a snooze keep the rows and what is on record.
use workgraph.Common.{
  ℕ, String, Bool, true, false, ◌&&◌, and-eq-true, ◌≡◌, refl, Option, none, some, List, [], ◌∷◌,
  map, All, All-mono, All-append, All-map_self, All-always, first_with, Unrepeated, map-Unrepeated,
  append-Unrepeated, Bool-cases, inl, inr, if◌then◌else◌, Ensures, returns, refuses, Ensures-guard,
  Ensures-mono, Ensures-bind, Ensures-after,
}
use workgraph.Suggestions.{
  Suggestion, SuggestionStatus, SuggestionStore, Feedback, FeedbackEvent, Host, Suppression,
  proposed, reviewed, approved, dismissed, snoozed, acted, found_suggestion, has_pattern,
  append_suggestion_feedback,
}
use workgraph.Suggestions.Propose.{
  SuggestionUpsert, SuppressionChange, proposed_again, new_suggestion, insert_suggestion,
  upsert_row, upsert_suggestion, validate_suggestion_upsert, add_suggestion_suppression,
  validate_suggestion_suppression, remove_suggestion_suppression,
}
use workgraph.Suggestions.Decide.{moved_to, resolved_by}
use workgraph.Suggestions.Snooze.{
  expire_row, expire_snoozed_suggestions, is_snooze_over, is_snoozed,
}
use workgraph.Suggestions.Rows.{
  leads, leads_refl, Keeps, Grows, Grows-refl, Grows-map, Grows-append,
}
use workgraph.Suggestions.Recorded.{
  IsRecorded, IsWellFormed, has_record-append, append_feedback-Appends, has_record, is_resolved,
}
use workgraph.Suggestions.Legal.{Advances, row_id}

-- Rows that are as good as those before.
abbrev AreKept : List Feedback → List Suggestion → List Suggestion → Type 0
AreKept feedback rows after =
    (Unrepeated row_id after × All (IsRecorded feedback) after) × Grows rows after

map-AreKept :
    (feedback : List Feedback) (f : Suggestion → Suggestion) (rows : List Suggestion)
    → ((x : Suggestion) → Keeps x (f x))
    → ((x : Suggestion) → IsRecorded feedback x → IsRecorded feedback (f x))
    → Unrepeated row_id rows
    → All (IsRecorded feedback) rows
    → AreKept feedback rows (map f rows)
map-AreKept feedback f rows keeps recorded u a = (
  (map-Unrepeated row_id f (λ x. (keeps x).0) rows u, All-map_self _ _ f recorded rows a),
  Grows-map f rows (All-always _ keeps rows),
)

module _ (feedback : List Feedback) (again : Suggestion → Suggestion) (row : Suggestion)
    (new : IsRecorded feedback row) (keeps : (x : Suggestion) → Keeps x (again x))
    (records : (x : Suggestion) → IsRecorded feedback x → IsRecorded feedback (again x)) where
  insert-AreKept :
      (rows : List Suggestion) (o : Option Suggestion)
      → first_with row_id row.id rows ≡ o
      → Unrepeated row_id rows
      → All (IsRecorded feedback) rows
      → Ensures (AreKept feedback rows) (insert_suggestion row rows o)
  unfolding insert_suggestion
  insert-AreKept rows (some other) e u a = refuses _
  insert-AreKept rows none e u a = returns _ (
    (append-Unrepeated row_id rows row e u, All-append _ rows (row ∷ []) a (new, tt)),
    Grows-append rows (row ∷ []),
  )

  again-Keeps : (x : Suggestion) (b : Bool) → Keeps x (if b then again x else x)
  again-Keeps x true = keeps x
  again-Keeps x false = (refl, refl, refl, leads_refl x.status)

  again-IsRecorded :
      (x : Suggestion) (b : Bool)
      → IsRecorded feedback x
      → IsRecorded feedback (if b then again x else x)
  again-IsRecorded x true h = records x h
  again-IsRecorded x false h = h

  upsert_row-AreKept :
      (rows : List Suggestion) (o : Option Suggestion)
      → Unrepeated row_id rows
      → All (IsRecorded feedback) rows
      → Ensures (AreKept feedback rows) (upsert_row again row rows o)
  unfolding upsert_row
  upsert_row-AreKept rows none u a = insert-AreKept rows _ refl u a
  upsert_row-AreKept rows (some other) u a = returns _ (
      map-AreKept feedback _ rows (λ x. again-Keeps x (has_pattern row.type_name row.pattern_key x))
        (λ x h. again-IsRecorded x (has_pattern row.type_name row.pattern_key x) h) u a)

new-IsRecorded :
    (host : Host) (now : String) (config : SuggestionUpsert) (feedback : List Feedback)
    → IsRecorded feedback (new_suggestion host now config)
unfolding new_suggestion is_resolved has_record
new-IsRecorded host now config feedback = (refl, refl)

proposed_again-Keeps :
    (config : SuggestionUpsert) (now : String) (x : Suggestion)
    → Keeps x (proposed_again config now x)
unfolding proposed_again
proposed_again-Keeps config now x = (refl, refl, refl, leads_refl x.status)

proposed_again-IsRecorded :
    (config : SuggestionUpsert) (now : String) (feedback : List Feedback) (x : Suggestion)
    → IsRecorded feedback x
    → IsRecorded feedback (proposed_again config now x)
unfolding proposed_again
proposed_again-IsRecorded config now feedback x h = h

pub upsert-Advances :
    (host : Host) (now : ℕ) (config : SuggestionUpsert) (store : SuggestionStore)
    → IsWellFormed store
    → Ensures (λ r. Advances store r.0) (upsert_suggestion host now config store)
unfolding upsert_suggestion
upsert-Advances host now config store w =
    let at = host.show_time now in
    Ensures-after (validate_suggestion_upsert host config) (λ u.
      Ensures-bind (AreKept store.feedback store.suggestions)
        (upsert_row-AreKept store.feedback (proposed_again config at)
          (new_suggestion host at config) (new-IsRecorded host at config store.feedback)
          (proposed_again-Keeps config at) (proposed_again-IsRecorded config at store.feedback)
          store.suggestions _ w.0 w.1)
        (λ rows a. Ensures-after (found_suggestion _) (λ row. returns _ a)))

pub feedback-Advances :
    (host : Host) (now : ℕ) (event : FeedbackEvent) (store : SuggestionStore)
    → IsWellFormed store
    → Ensures (Advances store) (append_suggestion_feedback host now event store)
unfolding append_suggestion_feedback
feedback-Advances host now event store w = Ensures-guard _ _ _ (λ g.
    Ensures-mono _ (append_feedback-Appends host now event store)
      (λ after (rows, kept, new, feedback, about, says).
        rw (rows, feedback)
          (
            (
              w.0,
              All-mono _ _
                  (λ row (r, h).
                    (r, has_record-append row.status row.id store.feedback (new ∷ []) h))
                  store.suggestions w.1,
            ),
            Grows-refl store.suggestions,
          )))

pub suppress-Advances :
    (host : Host) (now : ℕ) (config : SuppressionChange) (store : SuggestionStore)
    → IsWellFormed store
    → Ensures (λ r. Advances store r.0) (add_suggestion_suppression host now config store)
unfolding add_suggestion_suppression
suppress-Advances host now config store w =
    Ensures-after (validate_suggestion_suppression host config)
      (λ u. returns _ (w, Grows-refl store.suggestions))

pub unsuppress-Advances :
    (config : SuppressionChange) (store : SuggestionStore)
    → IsWellFormed store
    → Ensures (Advances store) (remove_suggestion_suppression config store)
unfolding remove_suggestion_suppression
unsuppress-Advances config store w =
    Ensures-guard _ _ _
      (λ g. Ensures-guard _ _ _ (λ h. returns _ (w, Grows-refl store.suggestions)))

snoozed-leads : (s : SuggestionStatus) → is_snoozed s ≡ true → leads s proposed ≡ true
unfolding leads
snoozed-leads snoozed h = refl
snoozed-leads proposed h = refl
snoozed-leads reviewed h = refl
snoozed-leads approved h = h
snoozed-leads dismissed h = h
snoozed-leads acted h = h

module _ (now : String) (ss : List Suppression) where
  expire_row-Keeps : (row : Suggestion) → Keeps row (expire_row now ss row)
  unfolding expire_row moved_to leads
  expire_row-Keeps row = elim (Bool-cases (is_snoozed row.status && is_snooze_over now row ss)) [
    | inl h ↦
        let was = and-eq-true (is_snoozed row.status) (is_snooze_over now row ss) h in
        rw h (refl, refl, refl, snoozed-leads row.status was.0)
    | inr h ↦ rw h (refl, refl, refl, leads_refl row.status)
  ]

  expire_row-IsRecorded :
      (feedback : List Feedback) (row : Suggestion)
      → IsRecorded feedback row
      → IsRecorded feedback (expire_row now ss row)
  unfolding expire_row moved_to resolved_by has_record is_resolved
  expire_row-IsRecorded feedback row h =
      elim (Bool-cases (is_snoozed row.status && is_snooze_over now row ss)) [
        | inl e ↦ rw e (refl, refl)
        | inr e ↦ rw e h
      ]

pub expire-Advances :
    (host : Host) (now : ℕ) (store : SuggestionStore)
    → IsWellFormed store
    → Advances store (expire_snoozed_suggestions host now store)
unfolding expire_snoozed_suggestions
expire-Advances host now store w =
    map-AreKept store.feedback _ store.suggestions
      (expire_row-Keeps (host.show_time now) store.suppressions)
      (expire_row-IsRecorded (host.show_time now) store.suppressions store.feedback) w.0 w.1

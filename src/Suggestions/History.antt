-- ===== src/Suggestions/History.antt =====
-- What holds of the suggestions after any history of operations.
use workgraph.Common.{ℕ, String, Result, ok, err, List, [], ◌∷◌, Ensures, returns, refuses}
use workgraph.Suggestions.{SuggestionStore, FeedbackEvent, Host, append_suggestion_feedback}
use workgraph.Suggestions.Propose.{
  SuggestionUpsert, SuppressionChange, upsert_suggestion, add_suggestion_suppression,
  remove_suggestion_suppression,
}
use workgraph.Suggestions.Decide.{
  StatusUpdate, update_suggestion_status, complete_suggestion, dismiss_suggestion,
  approve_suggestion,
}
use workgraph.Suggestions.Snooze.{SnoozeUpdate, snooze_suggestion, list_suggestions}
use workgraph.Suggestions.Rows.{Grows, Grows-refl, Grows-trans}
use workgraph.Suggestions.Recorded.{IsWellFormed}
use workgraph.Suggestions.Legal.{Advances}
use workgraph.Suggestions.Steps.{
  update-Advances, complete-Advances, dismiss-Advances, approve-Advances, snooze-Advances,
}
use workgraph.Suggestions.Kept.{
  upsert-Advances, feedback-Advances, suppress-Advances, unsuppress-Advances, expire-Advances,
}

pub data SuggestionCall : Type 0 where
  proposes : SuggestionUpsert → SuggestionCall
  updates : StatusUpdate → SuggestionCall
  completes : StatusUpdate → SuggestionCall
  dismisses : StatusUpdate → SuggestionCall
  approves : StatusUpdate → SuggestionCall
  snoozes : SnoozeUpdate → SuggestionCall
  gives_feedback : FeedbackEvent → SuggestionCall
  suppresses : SuppressionChange → SuggestionCall
  unsuppresses : SuppressionChange → SuggestionCall
  lists : String → ℕ → SuggestionCall

-- A call that fails leaves the tables as they were.
unfoldable pub after_call : SuggestionStore → Result SuggestionStore → SuggestionStore
after_call store (ok after) = after
after_call store (err e) = store

unfoldable pub after_read {ℓ} :
    {A : Type ℓ} → SuggestionStore → Result (SuggestionStore × A) → SuggestionStore
after_read store (ok after) = after.0
after_read store (err e) = store

after_call-Advances :
    (store : SuggestionStore) (m : Result SuggestionStore)
    → IsWellFormed store
    → Ensures (Advances store) m
    → Advances store (after_call store m)
unfolding after_call
after_call-Advances store _ w (returns after a) = a
after_call-Advances store _ w (refuses e) = (w, Grows-refl store.suggestions)

after_read-Advances {ℓ} :
    {A : Type ℓ} (store : SuggestionStore) (m : Result (SuggestionStore × A))
    → IsWellFormed store
    → Ensures (λ r. Advances store r.0) m
    → Advances store (after_read store m)
unfolding after_read
after_read-Advances store _ w (returns after a) = a
after_read-Advances store _ w (refuses e) = (w, Grows-refl store.suggestions)

module _ (ignore_path ignore_name : String → Result (Unit {0})) (host : Host) where
  unfoldable pub suggestion_step : SuggestionStore → ℕ × SuggestionCall → SuggestionStore
  unfolding after_call after_read upsert_suggestion update_suggestion_status complete_suggestion
      dismiss_suggestion approve_suggestion snooze_suggestion append_suggestion_feedback
      add_suggestion_suppression remove_suggestion_suppression list_suggestions
  suggestion_step store (now, proposes config) =
      after_read store (upsert_suggestion host now config store)
  suggestion_step store (now, updates config) =
      after_call store (update_suggestion_status host now config store)
  suggestion_step store (now, completes config) =
      after_read store (complete_suggestion host now config store)
  suggestion_step store (now, dismisses config) =
      after_read store (dismiss_suggestion host now config store)
  suggestion_step store (now, approves config) =
      after_read store (approve_suggestion ignore_path ignore_name host now config store)
  suggestion_step store (now, snoozes config) =
      after_read store (snooze_suggestion host now config store)
  suggestion_step store (now, gives_feedback event) =
      after_call store (append_suggestion_feedback host now event store)
  suggestion_step store (now, suppresses config) =
      after_read store (add_suggestion_suppression host now config store)
  suggestion_step store (now, unsuppresses config) =
      after_call store (remove_suggestion_suppression config store)
  suggestion_step store (now, lists status limit) = (list_suggestions host now status limit store).0

  unfoldable pub suggestion_run : SuggestionStore → List (ℕ × SuggestionCall) → SuggestionStore
  unfolding suggestion_step
  suggestion_run store [] = store
  suggestion_run store (c ∷ cs) = suggestion_run (suggestion_step store c) cs

  suggestion_step-Advances :
      (store : SuggestionStore) (c : ℕ × SuggestionCall)
      → IsWellFormed store
      → Advances store (suggestion_step store c)
  unfolding suggestion_step list_suggestions
  suggestion_step-Advances store (now, proposes config) w =
      after_read-Advances store _ w (upsert-Advances host now config store w)
  suggestion_step-Advances store (now, updates config) w =
      after_call-Advances store _ w (update-Advances host now config store w)
  suggestion_step-Advances store (now, completes config) w =
      after_read-Advances store _ w (complete-Advances host now config store w)
  suggestion_step-Advances store (now, dismisses config) w =
      after_read-Advances store _ w (dismiss-Advances host now config store w)
  suggestion_step-Advances store (now, approves config) w =
      after_read-Advances store _ w
        (approve-Advances host now ignore_path ignore_name config store w)
  suggestion_step-Advances store (now, snoozes config) w =
      after_read-Advances store _ w (snooze-Advances host now config store w)
  suggestion_step-Advances store (now, gives_feedback event) w =
      after_call-Advances store _ w (feedback-Advances host now event store w)
  suggestion_step-Advances store (now, suppresses config) w =
      after_read-Advances store _ w (suppress-Advances host now config store w)
  suggestion_step-Advances store (now, unsuppresses config) w =
      after_call-Advances store _ w (unsuppress-Advances config store w)
  suggestion_step-Advances store (now, lists status limit) w = expire-Advances host now store w

  -- After any history of operations from well-formed tables, they are well formed: ids are distinct, a
  -- suggestion has a time of resolution just in the statuses approved, dismissed, snoozed and acted,
  -- and the feedback that its status asks for is on record, for a completed one that of its approval
  -- too. No suggestion is lost, or gets another id, type or pattern; an approved one has only become
  -- a completed one, and one that was dismissed or completed is still that.
  pub suggestion_run-Advances :
      (store : SuggestionStore) (cs : List (ℕ × SuggestionCall))
      → IsWellFormed store
      → IsWellFormed (suggestion_run store cs)
        × Grows store.suggestions (suggestion_run store cs).suggestions
  unfolding suggestion_run
  suggestion_run-Advances store [] w = (w, Grows-refl store.suggestions)
  suggestion_run-Advances store (c ∷ cs) w =
      let one = suggestion_step-Advances store c w in
      let rest = suggestion_run-Advances (suggestion_step store c) cs one.0 in
      (rest.0, Grows-trans _ _ _ one.1 rest.1)

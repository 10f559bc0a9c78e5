-- ===== src/Suggestions/Steps.antt =====
-- Each operation on suggestions keeps the rows and what is on record.
use workgraph.Common.{
  ℕ, String, ◌≡◌, refl, Option, none, some, first_with, Result, Ensures, returns, refuses,
  Ensures-guard, Ensures-bind, Ensures-after, trim_space, trim_space_idem, ◌>>=◌,
}
use workgraph.Suggestions.{
  Suggestion, SuggestionStatus, SuggestionStore, Host, proposed, reviewed, approved, dismissed,
  snoozed, acted, found_suggestion, read_suggestion_by_id,
}
use workgraph.Suggestions.Decide.{
  StatusUpdate, move_suggestion, update_to, update_suggestion_status, with_read,
  complete_suggestion, dismiss_suggestion, approve_suggestion, reason_or, is_approvable,
}
use workgraph.Suggestions.Snooze.{SnoozeUpdate, snooze_until, snooze_suggestion}
use workgraph.Suggestions.Recorded.{IsWellFormed}
use workgraph.Suggestions.Moved.{move_suggestion-Advances}
use workgraph.Suggestions.Legal.{Advances, row_id}

found-Ensures {ℓ} :
    {A : Type ℓ} {P : A → Type 0} (o : Option Suggestion) (next : Suggestion → Result A)
    → ((row : Suggestion) → o ≡ some row → Ensures P (next row))
    → Ensures P (found_suggestion o >>= next)
unfolding found_suggestion ◌>>=◌
found-Ensures none next h = refuses _
found-Ensures (some row) next h = h row refl

-- A row that is read is the first of its id.
read-Ensures {ℓ} :
    {A : Type ℓ} {P : A → Type 0} (id : String) (store : SuggestionStore)
    (next : Suggestion → Result A)
    → ((row : Suggestion)
        → first_with row_id (trim_space id) store.suggestions ≡ some row
        → Ensures P (next row))
    → Ensures P (read_suggestion_by_id id store >>= next)
unfolding read_suggestion_by_id
read-Ensures id store next h = found-Ensures _ next h

with_read-Advances :
    (id : String) (store : SuggestionStore) (done : Result SuggestionStore)
    → Ensures (Advances store) done
    → Ensures (λ r. Advances store r.0) (with_read id done)
unfolding with_read
with_read-Advances id store done h =
    Ensures-bind (Advances store) h
      (λ after a. Ensures-after (read_suggestion_by_id id after) (λ row. returns _ a))

module _ (host : Host) (now : ℕ) where
  moved_read-Advances :
      (status : SuggestionStatus) (id reason_code note : String) (store : SuggestionStore)
      → IsWellFormed store
      → Ensures (Advances store) (
          read_suggestion_by_id id store >>= λ row.
          move_suggestion host now status (trim_space id) reason_code note row store)
  moved_read-Advances status id reason_code note store w = read-Ensures id store _ (λ row found.
      move_suggestion-Advances host now status (trim_space id) reason_code note row store
        (trim_space_idem id) found w)

  update_to-Advances :
      (config : StatusUpdate) (o : Option SuggestionStatus) (store : SuggestionStore)
      → IsWellFormed store
      → Ensures (Advances store) (update_to host now config o store)
  unfolding update_to
  update_to-Advances config none store w = refuses _
  update_to-Advances config (some proposed) store w = refuses _
  update_to-Advances config (some acted) store w = refuses _
  update_to-Advances config (some reviewed) store w =
      Ensures-guard _ _ _ (λ g.
        moved_read-Advances reviewed config.id config.reason_code config.feedback_note store w)
  update_to-Advances config (some approved) store w =
      Ensures-guard _ _ _ (λ g.
        moved_read-Advances approved config.id config.reason_code config.feedback_note store w)
  update_to-Advances config (some dismissed) store w =
      Ensures-guard _ _ _ (λ g.
        moved_read-Advances dismissed config.id config.reason_code config.feedback_note store w)
  update_to-Advances config (some snoozed) store w =
      Ensures-guard _ _ _
        (λ g. moved_read-Advances snoozed config.id config.reason_code config.feedback_note store w)

  pub update-Advances :
      (config : StatusUpdate) (store : SuggestionStore)
      → IsWellFormed store
      → Ensures (Advances store) (update_suggestion_status host now config store)
  unfolding update_suggestion_status
  update-Advances config store w = update_to-Advances config _ store w

  pub complete-Advances :
      (config : StatusUpdate) (store : SuggestionStore)
      → IsWellFormed store
      → Ensures (λ r. Advances store r.0) (complete_suggestion host now config store)
  unfolding complete_suggestion
  complete-Advances config store w = Ensures-guard _ _ _ (λ g.
      read-Ensures config.id store _ (λ row found. with_read-Advances config.id store _ (
        move_suggestion-Advances host now acted (trim_space config.id) config.reason_code
          config.feedback_note row store (trim_space_idem config.id) found w)))

  pub dismiss-Advances :
      (config : StatusUpdate) (store : SuggestionStore)
      → IsWellFormed store
      → Ensures (λ r. Advances store r.0) (dismiss_suggestion host now config store)
  unfolding dismiss_suggestion
  dismiss-Advances config store w = Ensures-guard _ _ _ (λ g.
      with_read-Advances config.id store _
        (update-Advances (record config { status = "dismissed" }) store w))

  pub approve-Advances :
      (ignore_path ignore_name : String → Result (Unit {0})) (config : StatusUpdate)
      (store : SuggestionStore)
      → IsWellFormed store
      → Ensures
          (λ r. Advances store r.0)
          (approve_suggestion ignore_path ignore_name host now config store)
  unfolding approve_suggestion
  approve-Advances ignore_path ignore_name config store w =
      read-Ensures config.id store _ (λ row found. Ensures-guard _ _ _ (λ g.
        Ensures-after (is_approvable row.type_name ignore_path ignore_name row.pattern_key) (λ u.
          with_read-Advances config.id store _ (
            update-Advances
              (record config {
                status = "approved";
                reason_code = reason_or config.reason_code "user_approved";
              })
              store w))))

  snooze_until-Advances :
      (config : SnoozeUpdate) (o : Option ℕ) (store : SuggestionStore)
      → IsWellFormed store
      → Ensures (λ r. Advances store r.0) (snooze_until host now config o store)
  unfolding snooze_until
  snooze_until-Advances config none store w = refuses _
  snooze_until-Advances config (some until) store w = Ensures-guard _ _ _ (λ g.
      read-Ensures config.id store _ (λ row found. Ensures-guard _ _ _ (λ v.
        Ensures-guard _ _ _ (λ p.
          Ensures-bind (Advances store)
            (move_suggestion-Advances host now snoozed (trim_space config.id) config.reason_code
              config.feedback_note row store (trim_space_idem config.id) found w)
            (λ moved a. with_read-Advances config.id store _ (returns _ a))))))

  pub snooze-Advances :
      (config : SnoozeUpdate) (store : SuggestionStore)
      → IsWellFormed store
      → Ensures (λ r. Advances store r.0) (snooze_suggestion host now config store)
  unfolding snooze_suggestion
  snooze-Advances config store w = Ensures-guard _ _ _ (λ g. snooze_until-Advances config _ store w)

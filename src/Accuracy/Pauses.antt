-- ===== src/Accuracy/Pauses.antt =====
-- What a transaction leaves on record of each profile.
use workgraph.Common.{
  ℕ, ◌+◌, String, ◌≡◌, refl, sym, ap, subst, ◌∙◌, Bool, Option, none, some, List, [], Result, ok,
  ◌>>=◌, Ensures, returns, Ensures-bind, Ensures-of_ok, Ensures-ok, if◌then◌else◌, leb, first_with,
  value_or, arith,
}
use workgraph.Clock.{format}
use workgraph.Links.Review.{below}
use workgraph.Accuracy.{
  AutoApplyPauseState, PauseEvent, ProfileLinkAccuracy, Database, AutoApplyThresholds,
  ProjectLinkAccuracyReport, latest_auto_apply_pause_states, state_before,
  auto_apply_minimum_sample,
}
use workgraph.Accuracy.Quotient.{quotient}
use workgraph.Accuracy.Measure.{profile_key, transition, new_entry, measure_profile_accuracy}
use workgraph.Accuracy.Report.{default_entry, project_link_accuracy, for_profile}
use workgraph.Accuracy.Record.{
  record_auto_apply_pause_transition, record_project_auto_apply_state, with_project_links_tx,
}
use workgraph.Accuracy.Reported.{for_profile-entry}
use workgraph.Accuracy.Entries.{OncePerProfile}
use workgraph.Accuracy.Newest.{Until, transition-none}
use workgraph.Accuracy.Settled.{
  Transitions, Settled, paused_in, record_transitions-Settled, record_transitions-quiet,
}
use workgraph.Accuracy.Verdicts.{Report, Reports, reported, measure-paused}

same-answer :
    (b x before after first again : Bool)
    → first ≡ (if b then x else before)
    → again ≡ (if b then x else after)
    → after ≡ first
    → again ≡ after
same-answer b x before after first again p q h = ground arith

-- What is measured again, from what was measured, is measured the same.
measure-again :
    (before after : AutoApplyPauseState) (e : ProfileLinkAccuracy)
    → after.paused ≡ (measure_profile_accuracy before e).paused
    → (measure_profile_accuracy after e).paused ≡ after.paused
measure-again before after e h =
    let decided = e.confirmed + e.corrected + e.undone in
    same-answer (leb auto_apply_minimum_sample decided)
      (below (quotient e.confirmed decided) e.required) before.paused after.paused _ _
      (measure-paused before e) (measure-paused after e) h

measure-event :
    (state : AutoApplyPauseState) (e : ProfileLinkAccuracy)
    → (measure_profile_accuracy state e).pause_event
      ≡ transition state.paused (measure_profile_accuracy state e).paused
unfolding measure_profile_accuracy
measure-event state e = refl

says-event :
    (now : ℕ) (thresholds : AutoApplyThresholds) (db : Database)
    (report : ProjectLinkAccuracyReport) (states : List AutoApplyPauseState)
    → Report now thresholds db report states
    → (name : String)
    → (for_profile name report).pause_event
      ≡ transition (state_before name states).paused (for_profile name report).paused
says-event now thresholds db report states r name = rw (r.says name) (measure-event _ _)

profiles-Transitions :
    (now : ℕ) (thresholds : AutoApplyThresholds) (db : Database)
    (report : ProjectLinkAccuracyReport) (states : List AutoApplyPauseState)
    → Report now thresholds db report states
    → Transitions states report.profiles
unfolding value_or
profiles-Transitions now thresholds db report states r name e h =
    subst (λ d. d.pause_event ≡ transition (state_before name states).paused d.paused)
      (for_profile-entry report name (some e) h) (says-event now thresholds db report states r name)

paused_in-for_profile :
    (report : ProjectLinkAccuracyReport) (name : String) (before : Bool)
    (o : Option ProfileLinkAccuracy)
    → (for_profile name report).pause_event ≡ transition before (for_profile name report).paused
    → first_with profile_key name report.profiles ≡ o
    → paused_in before o ≡ (for_profile name report).paused
unfolding paused_in value_or default_entry new_entry
paused_in-for_profile report name before none t h =
    transition-none before _
      (sym t ∙ ap (λ d. d.pause_event) (for_profile-entry report name none h))
paused_in-for_profile report name before (some e) t h =
    ap (λ d. d.paused) (sym (for_profile-entry report name (some e) h))

transitions-Settled :
    (now : ℕ) (thresholds : AutoApplyThresholds) (db : Database)
    (report : ProjectLinkAccuracyReport) (states : List AutoApplyPauseState)
    → Report now thresholds db report states
    → Until (format now) db.events
    → Settled now report.profiles states (record_auto_apply_pause_transition now report db).events
unfolding record_auto_apply_pause_transition
transitions-Settled now thresholds db report states r u =
    record_transitions-Settled now report.profiles states db.events r.once
      (profiles-Transitions now thresholds db report states r) u r.latest

paused-as_reported :
    (now : ℕ) (thresholds : AutoApplyThresholds) (db : Database)
    (report : ProjectLinkAccuracyReport) (states : List AutoApplyPauseState)
    (events : List PauseEvent)
    → Report now thresholds db report states
    → (s : Settled now report.profiles states events) (name : String)
    → (state_before name s.states).paused ≡ (for_profile name report).paused
paused-as_reported now thresholds db report states events r s name =
    s.paused name
    ∙ paused_in-for_profile report name _ _ (says-event now thresholds db report states r name) refl

-- The transitions of a report put on record what it says: where no event is stamped after now, each
-- profile's state on record is then the one that the report has for it.
pub record_auto_apply_pause_transition_lem :
    (now : ℕ) (thresholds : AutoApplyThresholds) (requested : List String) (db : Database)
    (report : ProjectLinkAccuracyReport)
    → project_link_accuracy now thresholds requested db ≡ ok report
    → Until (format now) db.events
    → (states : List AutoApplyPauseState) × (latest_auto_apply_pause_states
          (record_auto_apply_pause_transition now report db).events
        ≡ ok states)
      × ((name : String) → (state_before name states).paused ≡ (for_profile name report).paused)
unfolding Reports
record_auto_apply_pause_transition_lem now thresholds requested db report h u =
    let (before, r) = Ensures-ok (reported now thresholds requested db) h in
    let s = transitions-Settled now thresholds db report before r u in
    (s.states, s.latest, paused-as_reported now thresholds db report before _ r s)

bind-ok {ℓ κ} :
    {A : Type ℓ} {B : Type κ} (m : Result A) (f : A → B) (a : A)
    → m ≡ ok a
    → (m >>= λ x. ok (f x)) ≡ ok (f a)
unfolding ◌>>=◌
bind-ok m f a h = rw h refl

accuracy-ok :
    (now : ℕ) (thresholds : AutoApplyThresholds) (requested : List String) (db : Database)
    (states : List AutoApplyPauseState)
    → latest_auto_apply_pause_states db.events ≡ ok states
    → (report : ProjectLinkAccuracyReport) × (project_link_accuracy now thresholds requested db
        ≡ ok report)
unfolding project_link_accuracy
accuracy-ok now thresholds requested db states h =
    (_, bind-ok (latest_auto_apply_pause_states db.events) _ states h)

-- A report in which no profile changes puts nothing on record.
quiet-report :
    (now : ℕ) (report : ProjectLinkAccuracyReport) (db : Database)
    → OncePerProfile report.profiles
    → ((name : String) → (for_profile name report).pause_event ≡ none)
    → record_auto_apply_pause_transition now report db ≡ db
unfolding record_auto_apply_pause_transition value_or
quiet-report now report db once q =
    ap (λ es. record db { events = es })
      (record_transitions-quiet now report.profiles db.events once λ name e h.
        subst (λ d. d.pause_event ≡ none) (for_profile-entry report name (some e) h) (q name))

transition-same : (a b : Bool) → b ≡ a → transition a b ≡ none
unfolding transition
transition-same a b h = ground arith

-- A report that follows another one's transitions has each profile paused as they are on record.
second-paused :
    (now : ℕ) (thresholds : AutoApplyThresholds) (db : Database) (events : List PauseEvent)
    (first second : ProjectLinkAccuracyReport) (before after : List AutoApplyPauseState)
    → Report now thresholds db first before
    → Report now thresholds (record db { events = events }) second after
    → ((name : String) → (state_before name after).paused ≡ (for_profile name first).paused)
    → (name : String) → (for_profile name second).paused ≡ (state_before name after).paused
second-paused now thresholds db events first second before after r again h name =
    ap (λ d. d.paused) (again.says name)
    ∙ measure-again (state_before name before) (state_before name after) _
        (h name ∙ ap (λ d. d.paused) (r.says name))

-- It has no transitions of its own.
second-quiet :
    (now : ℕ) (thresholds : AutoApplyThresholds) (db : Database) (events : List PauseEvent)
    (first second : ProjectLinkAccuracyReport) (before after : List AutoApplyPauseState)
    → Report now thresholds db first before
    → Report now thresholds (record db { events = events }) second after
    → ((name : String) → (state_before name after).paused ≡ (for_profile name first).paused)
    → (name : String) → (for_profile name second).pause_event ≡ none
second-quiet now thresholds db events first second before after r again h name =
    says-event now thresholds _ second after again name
    ∙ transition-same _ _
        (second-paused now thresholds db events first second before after r again h name)

-- The pauses on record are those that the links give: the report on the database has each profile
-- paused just where the record has it, and to record the state again records nothing.
pub record IsOnRecord (now : ℕ) (thresholds : AutoApplyThresholds) (db : Database) : Type 0 where
  pub report : ProjectLinkAccuracyReport
  pub states : List AutoApplyPauseState
  pub reported : project_link_accuracy now thresholds [] db ≡ ok report
  pub latest : latest_auto_apply_pause_states db.events ≡ ok states
  pub agree : (name : String) → (state_before name states).paused ≡ (for_profile name report).paused
  pub quiet : record_project_auto_apply_state now thresholds db ≡ ok db

recorded-IsOnRecord :
    (now : ℕ) (thresholds : AutoApplyThresholds) (db : Database)
    (report : ProjectLinkAccuracyReport) (before : List AutoApplyPauseState)
    → Report now thresholds db report before
    → Until (format now) db.events
    → IsOnRecord now thresholds (record_auto_apply_pause_transition now report db)
unfolding record_project_auto_apply_state Reports
recorded-IsOnRecord now thresholds db report before r u =
    let s = transitions-Settled now thresholds db report before r u in
    let after = record_auto_apply_pause_transition now report db in
    let (second, e) = accuracy-ok now thresholds [] after s.states s.latest in
    let (states, again) = Ensures-ok (reported now thresholds [] after) e in
    let same : s.states ≡ states = cc (s.latest, again.latest) in
    let settled = paused-as_reported now thresholds db report before _ r s in
    let paused : (name : String)
        → (state_before name states).paused ≡ (for_profile name report).paused =
      λ name. rw⁻¹ same (settled name) in
    record {
      report = second;
      states = states;
      reported = e;
      latest = again.latest;
      agree = λ name. sym (
          second-paused now thresholds db after.events report second before states r again paused
            name);
      quiet =
          bind-ok (project_link_accuracy now thresholds [] after)
            (λ report. record_auto_apply_pause_transition now report after) second e
          ∙ ap ok (
              quiet-report now second after again.once (
                second-quiet now thresholds db after.events report second before states r again
                  paused));
    }

record_state-IsOnRecord :
    (now : ℕ) (thresholds : AutoApplyThresholds) (db : Database)
    → Until (format now) db.events
    → Ensures
        (λ after. IsOnRecord now thresholds after × (after.store ≡ db.store))
        (record_project_auto_apply_state now thresholds db)
unfolding record_project_auto_apply_state Reports record_auto_apply_pause_transition
record_state-IsOnRecord now thresholds db u =
    Ensures-bind _ (reported now thresholds [] db)
      λ report r. returns _ (recorded-IsOnRecord now thresholds db report r.0 r.1 u, refl)

-- A transaction on links that commits keeps what it did to the links, and leaves the pauses on record
-- that the links then give, if none of the events it leaves before its recording is stamped after now:
-- a profile is paused on record just where the report on its links says so, and to record the state
-- again records nothing.
pub with_project_links_tx_lem {ℓ} :
    {A : Type ℓ} (now : ℕ) (thresholds : AutoApplyThresholds)
    (apply : Database → Result (Database × A)) (db after : Database) (a : A)
    → ((done : Database × A) → apply db ≡ ok done → Until (format now) done.0.events)
    → with_project_links_tx now thresholds apply db ≡ ok (after, a)
    → IsOnRecord now thresholds after
      × (done : Database × A) × (apply db ≡ ok done)
      × (after.store ≡ done.0.store)
unfolding with_project_links_tx
with_project_links_tx_lem {A} now thresholds apply db after a u h =
    Ensures-ok
      {P = λ (r : Database × A).
        IsOnRecord now thresholds r.0
        × (done : Database × A) × (apply db ≡ ok done)
        × (r.0.store ≡ done.0.store)}
      (Ensures-bind (λ done. (apply db ≡ ok done) × Until (format now) done.0.events)
        (Ensures-of_ok (apply db) λ done e. (e, u done e))
        λ done (e, n).
          Ensures-bind _ (record_state-IsOnRecord now thresholds done.0 n)
            λ db (k, same). returns _ (k, done, e, same))
      h

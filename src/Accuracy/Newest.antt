-- ===== src/Accuracy/Newest.antt =====
-- An event that no other is later than is the newest.
use workgraph.Common.{
  ℕ, String, ◌≡◌, refl, sym, ap, ◌∙◌, Bool, true, false, Option, none, some, List, [], ◌∷◌, ◌++◌,
  ◌==◌, ok, ◌>>=◌, All, All-append, if◌then◌else◌, eq_refl, arith,
}
use workgraph.Clock.{Stamp, format, at_most}
use workgraph.Clock.Order.{at_most_refl}
use workgraph.Accuracy.{
  AutoApplyPauseState, PauseEvent, PauseEventType, ProfileLinkAccuracy, insert_newest, newest_first,
  read_payload, read_states, latest_auto_apply_pause_states, state_before, recorded_state,
  legacy_state, is_state_of,
}
use workgraph.Accuracy.Measure.{transition}
use workgraph.Accuracy.Record.{pause_event_row, record_profile_pause_transition}
use workgraph.Accuracy.Entries.{recorded_state-past}

abbrev pub Until : Stamp → List PauseEvent → Type 0
Until stamp events = All (λ e. at_most e.timestamp stamp ≡ true) events

newest_first-append :
    (sorted events : List PauseEvent) (e : PauseEvent)
    → newest_first sorted (events ++ e ∷ []) ≡ insert_newest e (newest_first sorted events)
unfolding newest_first
newest_first-append sorted [] e = refl
newest_first-append sorted (f ∷ events) e = newest_first-append (insert_newest f sorted) events e

if-Until :
    (b : Bool) (stamp : Stamp) (xs ys : List PauseEvent)
    → Until stamp xs
    → Until stamp ys
    → Until stamp (if b then xs else ys)
if-Until true stamp xs ys p q = p
if-Until false stamp xs ys p q = q

insert_newest-Until :
    (stamp : Stamp) (e : PauseEvent) (fs : List PauseEvent)
    → at_most e.timestamp stamp ≡ true
    → Until stamp fs
    → Until stamp (insert_newest e fs)
unfolding insert_newest
insert_newest-Until stamp e [] h u = (h, tt)
insert_newest-Until stamp e (f ∷ fs) h u =
    if-Until (at_most f.timestamp e.timestamp) stamp _ _ (h, u)
      (u.0, insert_newest-Until stamp e fs h u.1)

newest_first-Until :
    (stamp : Stamp) (sorted events : List PauseEvent)
    → Until stamp sorted
    → Until stamp events
    → Until stamp (newest_first sorted events)
unfolding newest_first
newest_first-Until stamp sorted [] s u = s
newest_first-Until stamp sorted (e ∷ events) s u =
    newest_first-Until stamp (insert_newest e sorted) events
      (insert_newest-Until stamp e sorted u.0 s) u.1

insert_newest-first :
    (e : PauseEvent) (fs : List PauseEvent) → Until e.timestamp fs → insert_newest e fs ≡ e ∷ fs
unfolding insert_newest
insert_newest-first e [] u = refl
insert_newest-first e (f ∷ fs) u = rw u.0 refl

-- The state of an event that no other is later than comes first.
latest-append :
    (events : List PauseEvent) (e : PauseEvent) (s : AutoApplyPauseState)
    (ss : List AutoApplyPauseState)
    → Until e.timestamp events
    → e.payload ≡ some s
    → latest_auto_apply_pause_states events ≡ ok ss
    → latest_auto_apply_pause_states (events ++ e ∷ []) ≡ ok (s ∷ ss)
unfolding latest_auto_apply_pause_states read_states read_payload ◌>>=◌
latest-append events e s ss u p h =
    ap read_states (
      newest_first-append [] events e
      ∙ insert_newest-first e _ (newest_first-Until e.timestamp [] events tt u))
    ∙ rw (p, h) refl

recorded_state-here :
    (s : AutoApplyPauseState) (ss : List AutoApplyPauseState) (name : String)
    → is_state_of name s.profile ≡ true
    → recorded_state name (s ∷ ss) ≡ some s
unfolding recorded_state
recorded_state-here s ss name h = rw h refl

state_before-recorded :
    (s : AutoApplyPauseState) (ss : List AutoApplyPauseState) (name : String)
    → recorded_state name ss ≡ some s
    → state_before name ss ≡ s
unfolding state_before
state_before-recorded s ss name h = rw (state_before, h) refl

pub state_before-same :
    (s : AutoApplyPauseState) (ss : List AutoApplyPauseState) (name : String)
    → s.profile ≡ some name
    → state_before name (s ∷ ss) ≡ s
unfolding is_state_of
state_before-same s ss name h =
    state_before-recorded s (s ∷ ss) name
      (recorded_state-here s ss name (ap (is_state_of name) h ∙ eq_refl name))

legacy_state-by :
    (s : AutoApplyPauseState) (ss : List AutoApplyPauseState) (o : Option String)
    → s.profile ≡ o
    → legacy_state (s ∷ ss) ≡ elim o [ none ↦ s | some q ↦ legacy_state ss ]
unfolding legacy_state
legacy_state-by s ss o h = rw (← h) refl

pub state_before-other :
    (s : AutoApplyPauseState) (ss : List AutoApplyPauseState) (q name : String)
    → s.profile ≡ some q
    → (q == name) ≡ false
    → state_before name (s ∷ ss) ≡ state_before name ss
unfolding state_before is_state_of
state_before-other s ss q name h k =
    cc (recorded_state-past name s ss (some q) h k, legacy_state-by s ss (some q) h)

-- What an entry records: its own state is as measured, and that of no other profile has changed.
pub record Recorded (now : ℕ) (e : ProfileLinkAccuracy) (ss : List AutoApplyPauseState)
    (events : List PauseEvent) : Type 0 where
  pub states : List AutoApplyPauseState
  pub latest : latest_auto_apply_pause_states events ≡ ok states
  pub none_later : Until (format now) events
  pub own : (state_before e.profile states).paused ≡ e.paused
  pub others :
      (name : String)
      → (e.profile == name) ≡ false
      → (state_before name states).paused ≡ (state_before name ss).paused

pub transition-none : (a b : Bool) → transition a b ≡ none → a ≡ b
unfolding transition
transition-none a b h = ground arith

after_event-Recorded :
    (now : ℕ) (e : ProfileLinkAccuracy) (events : List PauseEvent) (ss : List AutoApplyPauseState)
    (o : Option PauseEventType)
    → e.pause_event ≡ o
    → o ≡ transition (state_before e.profile ss).paused e.paused
    → Until (format now) events
    → latest_auto_apply_pause_states events ≡ ok ss
    → Recorded now e ss (record_profile_pause_transition now e events)
unfolding record_profile_pause_transition pause_event_row
after_event-Recorded now e events ss none h t u l = rw h (record {
  states = ss;
  latest = l;
  none_later = u;
  own = transition-none _ _ (sym t);
  others = λ name k. refl;
})
after_event-Recorded now e events ss (some type) h t u l =
    let row = pause_event_row now type e in
    let s : AutoApplyPauseState = record {
      paused = e.paused;
      reason = e.pause_reason;
      profile = some e.profile;
    } in
    rw h (record {
      states = s ∷ ss;
      latest = latest-append events row s ss u refl l;
      none_later = All-append _ events (row ∷ []) u (at_most_refl (format now), tt);
      own = ap (λ r. r.paused) (state_before-same s ss e.profile refl);
      others = λ name k. ap (λ r. r.paused) (state_before-other s ss e.profile name refl k);
    })

pub record_profile_pause_transition-Recorded :
    (now : ℕ) (e : ProfileLinkAccuracy) (events : List PauseEvent) (ss : List AutoApplyPauseState)
    → e.pause_event ≡ transition (state_before e.profile ss).paused e.paused
    → Until (format now) events
    → latest_auto_apply_pause_states events ≡ ok ss
    → Recorded now e ss (record_profile_pause_transition now e events)
record_profile_pause_transition-Recorded now e events ss =
    after_event-Recorded now e events ss _ refl

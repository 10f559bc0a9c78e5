-- ===== src/Accuracy/Settled.antt =====
-- What the transitions of a report leave on record.
use workgraph.Common.{
  ℕ, String, ◌≡◌, refl, sym, ap, subst, ◌∙◌, Bool, true, Option, none, some, List, [], ◌∷◌, ◌==◌,
  ok, eq_iff, eq_refl, Bool-cases, inl, inr, first_with, first_with-here, first_with-past,
}
use workgraph.Clock.{format}
use workgraph.Accuracy.{
  AutoApplyPauseState, PauseEvent, ProfileLinkAccuracy, latest_auto_apply_pause_states,
  state_before,
}
use workgraph.Accuracy.Measure.{profile_key, transition}
use workgraph.Accuracy.Record.{record_profile_pause_transition, record_transitions}
use workgraph.Accuracy.Entries.{OncePerProfile}
use workgraph.Accuracy.Newest.{Until, Recorded, record_profile_pause_transition-Recorded}

unfoldable pub paused_in : Bool → Option ProfileLinkAccuracy → Bool
paused_in before none = before
paused_in before (some e) = e.paused

-- The entries' events say how they differ from what was on record.
abbrev pub Transitions : List AutoApplyPauseState → List ProfileLinkAccuracy → Type 0
Transitions ss es =
    (name : String) (e : ProfileLinkAccuracy)
    → first_with profile_key name es ≡ some e
    → e.pause_event ≡ transition (state_before name ss).paused e.paused

pub record Settled (now : ℕ) (es : List ProfileLinkAccuracy) (ss : List AutoApplyPauseState)
    (events : List PauseEvent) : Type 0 where
  pub states : List AutoApplyPauseState
  pub latest : latest_auto_apply_pause_states events ≡ ok states
  pub none_later : Until (format now) events
  pub paused :
      (name : String)
      → (state_before name states).paused
        ≡ paused_in (state_before name ss).paused (first_with profile_key name es)

-- The rest of the entries has none of the first one's profile.
apart :
    (e : ProfileLinkAccuracy) (es : List ProfileLinkAccuracy) (name : String)
    → OncePerProfile (e ∷ es)
    → (e.profile == name) ≡ true
    → first_with profile_key name es ≡ none
apart e es name u h =
    subst (λ n. first_with profile_key n es ≡ none) ((eq_iff e.profile name).0 h) u.0

rest-Transitions :
    (now : ℕ) (e : ProfileLinkAccuracy) (es : List ProfileLinkAccuracy)
    (ss : List AutoApplyPauseState) (events : List PauseEvent)
    → OncePerProfile (e ∷ es)
    → Transitions ss (e ∷ es)
    → (r : Recorded now e ss events) → Transitions r.states es
rest-Transitions now e es ss events u t r name d h = elim (Bool-cases (e.profile == name)) [
  | inl k ↦ absurd (cc (apart e es name u k, h))
  | inr k ↦
      t name d (first_with-past profile_key name e es k ∙ h)
      ∙ ap (λ b. transition b d.paused) (sym (r.others name k))
]

paused-cons :
    (now : ℕ) (e : ProfileLinkAccuracy) (es : List ProfileLinkAccuracy)
    (ss : List AutoApplyPauseState) (events : List PauseEvent)
    → OncePerProfile (e ∷ es)
    → (r : Recorded now e ss events) (name : String)
    → paused_in (state_before name r.states).paused (first_with profile_key name es)
      ≡ paused_in (state_before name ss).paused (first_with profile_key name (e ∷ es))
unfolding paused_in
paused-cons now e es ss events u r name = elim (Bool-cases (e.profile == name)) [
  | inl k ↦
      rw (first_with-here profile_key name e es k, apart e es name u k)
        (subst (λ n. (state_before n r.states).paused ≡ e.paused) ((eq_iff e.profile name).0 k)
          r.own)
  | inr k ↦ rw (first_with-past profile_key name e es k, r.others name k) refl
]

pub record_transitions-Settled :
    (now : ℕ) (es : List ProfileLinkAccuracy) (ss : List AutoApplyPauseState)
    (events : List PauseEvent)
    → OncePerProfile es
    → Transitions ss es
    → Until (format now) events
    → latest_auto_apply_pause_states events ≡ ok ss
    → Settled now es ss (record_transitions now es events)
unfolding record_transitions paused_in first_with
record_transitions-Settled now [] ss events u t n l = record {
  states = ss;
  latest = l;
  none_later = n;
  paused = λ name. refl;
}
record_transitions-Settled now (e ∷ es) ss events u t n l =
    let first = t e.profile e (first_with-here profile_key e.profile e es (eq_refl e.profile)) in
    let r = record_profile_pause_transition-Recorded now e events ss first n l in
    let rest =
      record_transitions-Settled now es r.states _ u.1 (rest-Transitions now e es ss _ u t r)
        r.none_later r.latest in
    record {
      states = rest.states;
      latest = rest.latest;
      none_later = rest.none_later;
      paused = λ name. rest.paused name ∙ paused-cons now e es ss _ u r name;
    }

-- Entries without an event record nothing.
pub record_transitions-quiet :
    (now : ℕ) (es : List ProfileLinkAccuracy) (events : List PauseEvent)
    → OncePerProfile es
    → ((name : String) (e : ProfileLinkAccuracy)
        → first_with profile_key name es ≡ some e
        → e.pause_event ≡ none)
    → record_transitions now es events ≡ events
unfolding record_transitions record_profile_pause_transition
record_transitions-quiet now [] events u q = refl
record_transitions-quiet now (e ∷ es) events u q =
    let first = q e.profile e (first_with-here profile_key e.profile e es (eq_refl e.profile)) in
    rw first (
      record_transitions-quiet now es events u.1 λ name d h. elim (Bool-cases (e.profile == name)) [
        | inl k ↦ absurd (cc (apart e es name u k, h))
        | inr k ↦ q name d (first_with-past profile_key name e es k ∙ h)
      ])

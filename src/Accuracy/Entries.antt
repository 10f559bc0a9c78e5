-- ===== src/Accuracy/Entries.antt =====
-- A report has one entry for each profile, and one for each profile that has a state on record.
use workgraph.Common.{
  ℕ, String, ◌≡◌, refl, sym, ◌∙◌, Bool, true, false, Option, none, some, List, [], ◌∷◌, ◌==◌,
  select, Option-cases, subst, inl, inr, if◌then◌else◌, first_with, first_with-upsert, Unrepeated,
  upsert-Unrepeated, sort_by-Unrepeated, map-Unrepeated,
}
use workgraph.Links.{ProjectLink, LinkStore}
use workgraph.Accuracy.{
  AutoApplyPauseState, ProfileLinkAccuracy, AutoApplyThresholds, recorded_state, is_state_of,
  recorded_profiles,
}
use workgraph.Accuracy.Measure.{
  profile_key, new_entry, with_entry, with_entries, count_link, count_links, measure_each, is_llm,
  entries,
}
use workgraph.Accuracy.Report.{by_profile}
use workgraph.Accuracy.Counts.{new_entry-profile, count_link-profile}
use workgraph.Accuracy.Reported.{Listed, measured_of, measured_of-profile}

abbrev pub HasNone : String → List ProfileLinkAccuracy → Type 0
HasNone name es = first_with profile_key name es ≡ none

-- Where a changed list has no entry of a profile, another was changed, and there was none before.
if-none :
    (b : Bool) (e : ProfileLinkAccuracy) (o : Option ProfileLinkAccuracy)
    → (if b then some e else o) ≡ none
    → (b ≡ false) × (o ≡ none)
if-none true e o h = absurd (cc h)
if-none false e o h = (refl, h)

with_entry-HasNone :
    (thresholds : AutoApplyThresholds) (name : String)
    (f : ProfileLinkAccuracy → ProfileLinkAccuracy)
    → ((e : ProfileLinkAccuracy) → (f e).profile ≡ e.profile)
    → (es : List ProfileLinkAccuracy) (other : String)
    → HasNone other (with_entry thresholds name f es)
    → ((name == other) ≡ false) × HasNone other es
unfolding with_entry
with_entry-HasNone thresholds name f k es other h = if-none (name == other) _ _ (
    sym (
      first_with-upsert profile_key name (new_entry thresholds name) f
        (new_entry-profile thresholds name) k es other)
    ∙ h)

with_entries-HasNone :
    (thresholds : AutoApplyThresholds) (names : List String) (es : List ProfileLinkAccuracy)
    (other : String)
    → HasNone other (with_entries thresholds names es)
    → HasNone other es
unfolding with_entries
with_entries-HasNone thresholds [] es other h = h
with_entries-HasNone thresholds (name ∷ names) es other h =
    (with_entry-HasNone thresholds name (λ e. e) (λ e. refl) es other
      (with_entries-HasNone thresholds names _ other h)).1

recorded_profiles-by :
    (s : AutoApplyPauseState) (ss : List AutoApplyPauseState) (o : Option String)
    → s.profile ≡ o
    → recorded_profiles (s ∷ ss)
      ≡ elim o [ none ↦ recorded_profiles ss | some q ↦ q ∷ recorded_profiles ss ]
unfolding recorded_profiles
recorded_profiles-by s ss o h = rw (← h) refl

pub recorded_state-past :
    (name : String) (s : AutoApplyPauseState) (ss : List AutoApplyPauseState) (o : Option String)
    → s.profile ≡ o
    → is_state_of name o ≡ false
    → recorded_state name (s ∷ ss) ≡ recorded_state name ss
unfolding recorded_state
recorded_state-past name s ss o h k = rw (h, k) refl

with_recorded-Listed :
    (thresholds : AutoApplyThresholds) (states : List AutoApplyPauseState)
    (es : List ProfileLinkAccuracy)
    → Listed states (with_entries thresholds (recorded_profiles states) es)
unfolding with_entries recorded_state is_state_of
with_recorded-Listed thresholds [] es name h = refl
with_recorded-Listed thresholds (s ∷ states) es name h = elim (Option-cases s.profile) [
  | inl e ↦
      let g =
        subst (λ names. HasNone name (with_entries thresholds names es))
          (recorded_profiles-by s states none e) h in
      recorded_state-past name s states none e refl
      ∙ with_recorded-Listed thresholds states es name g
  | inr (q, e) ↦
      let g =
        subst (λ names. HasNone name (with_entries thresholds names es))
          (recorded_profiles-by s states (some q) e) h in
      let there =
        with_entry-HasNone thresholds q (λ e. e) (λ e. refl) es name
          (with_entries-HasNone thresholds (recorded_profiles states) _ name g) in
      recorded_state-past name s states (some q) e there.0
      ∙ with_recorded-Listed thresholds states _ name g
]

pub entries-Listed :
    (now : ℕ) (thresholds : AutoApplyThresholds) (requested : List String) (store : LinkStore)
    (states : List AutoApplyPauseState)
    → Listed states (entries now thresholds requested store states)
unfolding entries
entries-Listed now thresholds requested store states = with_recorded-Listed thresholds states _

abbrev pub OncePerProfile : List ProfileLinkAccuracy → Type 0
OncePerProfile es = Unrepeated profile_key es

with_entry-OncePerProfile :
    (thresholds : AutoApplyThresholds) (name : String)
    (f : ProfileLinkAccuracy → ProfileLinkAccuracy)
    → ((e : ProfileLinkAccuracy) → (f e).profile ≡ e.profile)
    → (es : List ProfileLinkAccuracy) → OncePerProfile es
    → OncePerProfile (with_entry thresholds name f es)
unfolding with_entry
with_entry-OncePerProfile thresholds name f k es u =
    upsert-Unrepeated profile_key name (new_entry thresholds name) f
      (new_entry-profile thresholds name) k es u

with_entries-OncePerProfile :
    (thresholds : AutoApplyThresholds) (names : List String) (es : List ProfileLinkAccuracy)
    → OncePerProfile es
    → OncePerProfile (with_entries thresholds names es)
unfolding with_entries
with_entries-OncePerProfile thresholds [] es u = u
with_entries-OncePerProfile thresholds (name ∷ names) es u =
    with_entries-OncePerProfile thresholds names _
      (with_entry-OncePerProfile thresholds name (λ e. e) (λ e. refl) es u)

count_links-OncePerProfile :
    (thresholds : AutoApplyThresholds) (since now : ℕ) (links : List ProjectLink)
    (es : List ProfileLinkAccuracy)
    → OncePerProfile es
    → OncePerProfile (count_links thresholds since now links es)
unfolding count_links
count_links-OncePerProfile thresholds since now [] es u = u
count_links-OncePerProfile thresholds since now (link ∷ links) es u =
    count_links-OncePerProfile thresholds since now links _ (
      with_entry-OncePerProfile thresholds link.profile (count_link since now link)
        (count_link-profile since now link) es u)

pub profiles-OncePerProfile :
    (now : ℕ) (thresholds : AutoApplyThresholds) (requested : List String) (store : LinkStore)
    (states : List AutoApplyPauseState)
    → OncePerProfile
        (by_profile (measure_each states (entries now thresholds requested store states)))
unfolding by_profile measure_each measured_of entries
profiles-OncePerProfile now thresholds requested store states = sort_by-Unrepeated profile_key _ (
    map-Unrepeated profile_key (measured_of states) (measured_of-profile states) _ (
      with_entries-OncePerProfile thresholds (recorded_profiles states) _ (
        count_links-OncePerProfile thresholds _ now (select is_llm store.links) _
          (with_entries-OncePerProfile thresholds requested [] tt))))

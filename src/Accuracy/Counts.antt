-- ===== src/Accuracy/Counts.antt =====
-- The report's entry of a profile is the measure of what the links count for it.
use workgraph.Common.{
  ℕ, ◌+◌, ◌-◌, String, ◌≡◌, refl, ap, ◌∙◌, Bool, true, false, ◌&&◌, List, [], ◌∷◌, length, select,
  ◌==◌, arith, eq_iff, Bool-cases, inl, inr, if◌then◌else◌, first_with, value_or, first_with-upsert,
}
use workgraph.Links.{ProjectLink, LinkStore, Decision}
use workgraph.Accuracy.{
  AutoApplyPauseState, ProfileLinkAccuracy, AutoApplyThresholds, auto_apply_accuracy_window,
  recorded_profiles,
}
use workgraph.Accuracy.Measure.{
  profile_key, new_entry, with_entry, with_entries, is_counted, count_decision, count_link,
  count_links, is_llm, entries,
}

abbrev pub to_confirmed : Decision → Bool
to_confirmed Decision.confirmed = true
to_confirmed _ = false

abbrev pub to_corrected : Decision → Bool
to_corrected Decision.corrected = true
to_corrected _ = false

abbrev pub to_undone : Decision → Bool
to_undone Decision.undone = true
to_undone _ = false

-- The links of a profile that were applied by themselves and decided in the window in one way.
unfoldable pub decided_so : (Decision → Bool) → ℕ → String → ProjectLink → Bool
unfolding is_counted is_llm
decided_so way now name link =
    is_llm link
    && link.profile == name
    && is_counted (now - auto_apply_accuracy_window) now link
    && way link.decision

unfoldable pub count_so : (Decision → Bool) → ℕ → String → List ProjectLink → ℕ
unfolding decided_so
count_so way now name links = length (select (decided_so way now name) links)

-- The entry of a profile, new where it has none.
unfoldable pub entry_of :
    AutoApplyThresholds → String → List ProfileLinkAccuracy → ProfileLinkAccuracy
unfolding new_entry first_with value_or
entry_of thresholds name es = value_or (new_entry thresholds name) (first_with profile_key name es)

pub count_link-profile :
    (since now : ℕ) (link : ProjectLink) (e : ProfileLinkAccuracy)
    → (count_link since now link e).profile ≡ e.profile
unfolding count_link count_decision
count_link-profile since now link e = ground arith

pub new_entry-profile :
    (thresholds : AutoApplyThresholds) (name : String) → (new_entry thresholds name).profile ≡ name
unfolding new_entry
new_entry-profile thresholds name = refl

entry_of-with_entry :
    (thresholds : AutoApplyThresholds) (name : String)
    (f : ProfileLinkAccuracy → ProfileLinkAccuracy)
    → ((e : ProfileLinkAccuracy) → (f e).profile ≡ e.profile)
    → (es : List ProfileLinkAccuracy) (other : String)
    → entry_of thresholds other (with_entry thresholds name f es)
      ≡ (if name == other then f (entry_of thresholds other es) else entry_of thresholds other es)
unfolding with_entry entry_of value_or
entry_of-with_entry thresholds name f k es other =
    let found =
      first_with-upsert profile_key name (new_entry thresholds name) f
        (new_entry-profile thresholds name) k es other in
    elim (Bool-cases (name == other)) [
      | inl h ↦ rw (found, h) (rw ((eq_iff name other).0 h) refl)
      | inr h ↦ rw (found, h) refl
    ]

entry_of-with_entries :
    (thresholds : AutoApplyThresholds) (names : List String) (es : List ProfileLinkAccuracy)
    (other : String)
    → entry_of thresholds other (with_entries thresholds names es) ≡ entry_of thresholds other es
unfolding with_entries
entry_of-with_entries thresholds [] es other = refl
entry_of-with_entries thresholds (name ∷ names) es other =
    entry_of-with_entries thresholds names _ other
    ∙ entry_of-with_entry thresholds name (λ e. e) (λ e. refl) es other
    ∙ ground arith

count_so-cons :
    (way : Decision → Bool) (now : ℕ) (name : String) (link : ProjectLink)
    (links : List ProjectLink)
    → count_so way now name (link ∷ links)
      ≡ (if is_llm link
            && link.profile == name
            && is_counted (now - auto_apply_accuracy_window) now link
            && way link.decision
          then 1
          else 0)
        + count_so way now name links
unfolding count_so decided_so
count_so-cons way now name link links = ground arith

unfoldable pub with_counts : ℕ → ℕ → ℕ → ProfileLinkAccuracy → ProfileLinkAccuracy
with_counts a b c e = record e {
  confirmed = e.confirmed + a;
  corrected = e.corrected + b;
  undone = e.undone + c;
}

-- An entry to which the links of a profile have been counted.
unfoldable pub counted : ℕ → String → List ProjectLink → ProfileLinkAccuracy → ProfileLinkAccuracy
unfolding with_counts count_so
counted now name links =
    with_counts (count_so to_confirmed now name links) (count_so to_corrected now name links)
      (count_so to_undone now name links)

with_counts-decision :
    (a b c : ℕ) (named counts : Bool) (d : Decision) (e : ProfileLinkAccuracy)
    → with_counts a b c (if named then (if counts then count_decision d e else e) else e)
      ≡ with_counts
          ((if named && counts && to_confirmed d then 1 else 0) + a)
          ((if named && counts && to_corrected d then 1 else 0) + b)
          ((if named && counts && to_undone d then 1 else 0) + c)
          e
unfolding with_counts count_decision
with_counts-decision a b c named counts d e = ground arith

counted-step :
    (now : ℕ) (name : String) (link : ProjectLink) (links : List ProjectLink)
    (e : ProfileLinkAccuracy)
    → is_llm link ≡ true
    → counted now name links (
        if link.profile == name
        then count_link (now - auto_apply_accuracy_window) now link e
        else e)
      ≡ counted now name (link ∷ links) e
unfolding counted count_link
counted-step now name link links e h =
    with_counts-decision _ _ _ _ _ link.decision e
    ∙ rw
        (
          count_so-cons to_confirmed now name link links,
          count_so-cons to_corrected now name link links,
          count_so-cons to_undone now name link links,
          h,
        )
        refl

count_so-skip :
    (way : Decision → Bool) (now : ℕ) (name : String) (link : ProjectLink)
    (links : List ProjectLink)
    → is_llm link ≡ false
    → count_so way now name (link ∷ links) ≡ count_so way now name links
unfolding count_so decided_so
count_so-skip way now name link links h = rw h refl

counted-skip :
    (now : ℕ) (name : String) (link : ProjectLink) (links : List ProjectLink)
    (e : ProfileLinkAccuracy)
    → is_llm link ≡ false
    → counted now name links e ≡ counted now name (link ∷ links) e
unfolding counted
counted-skip now name link links e h =
    rw
      (
        count_so-skip to_confirmed now name link links h,
        count_so-skip to_corrected now name link links h,
        count_so-skip to_undone now name link links h,
      )
      refl

counted-none : (now : ℕ) (name : String) (e : ProfileLinkAccuracy) → e ≡ counted now name [] e
unfolding counted with_counts count_so
counted-none now name e = ground arith

count_links-counted :
    (thresholds : AutoApplyThresholds) (now : ℕ) (links : List ProjectLink)
    (es : List ProfileLinkAccuracy) (name : String)
    → entry_of thresholds name
        (count_links thresholds (now - auto_apply_accuracy_window) now (select is_llm links) es)
      ≡ counted now name links (entry_of thresholds name es)
unfolding count_links
count_links-counted thresholds now [] es name = counted-none now name _
count_links-counted thresholds now (link ∷ links) es name = elim (Bool-cases (is_llm link)) [
  | inl h ↦ rw h (
      count_links-counted thresholds now links _ name
      ∙ ap (counted now name links) (
          entry_of-with_entry thresholds link.profile
            (count_link (now - auto_apply_accuracy_window) now link) (count_link-profile _ now link)
            es name)
      ∙ counted-step now name link links _ h)
  | inr h ↦ rw h (
      count_links-counted thresholds now links es name
      ∙ counted-skip now name link links (entry_of thresholds name es) h)
]

entry_of-none :
    (thresholds : AutoApplyThresholds) (name : String)
    → entry_of thresholds name [] ≡ new_entry thresholds name
unfolding entry_of first_with value_or
entry_of-none thresholds name = refl

-- An entry with the numbers of a profile's links.
unfoldable pub with_numbers :
    ℕ → String → List ProjectLink → ProfileLinkAccuracy → ProfileLinkAccuracy
unfolding count_so
with_numbers now name links e = record e {
  confirmed = count_so to_confirmed now name links;
  corrected = count_so to_corrected now name links;
  undone = count_so to_undone now name links;
}

counted-new :
    (now : ℕ) (name : String) (links : List ProjectLink) (thresholds : AutoApplyThresholds)
    → counted now name links (new_entry thresholds name)
      ≡ with_numbers now name links (new_entry thresholds name)
unfolding counted with_counts new_entry with_numbers
counted-new now name links thresholds = ground arith

-- The entry that a report has for a profile, before it is measured.
pub entry_of-entries :
    (now : ℕ) (thresholds : AutoApplyThresholds) (requested : List String) (store : LinkStore)
    (states : List AutoApplyPauseState) (name : String)
    → entry_of thresholds name (entries now thresholds requested store states)
      ≡ with_numbers now name store.links (new_entry thresholds name)
unfolding entries
entry_of-entries now thresholds requested store states name =
    entry_of-with_entries thresholds (recorded_profiles states) _ name
    ∙ count_links-counted thresholds now store.links _ name
    ∙ ap (counted now name store.links)
        (entry_of-with_entries thresholds requested [] name ∙ entry_of-none thresholds name)
    ∙ counted-new now name store.links thresholds

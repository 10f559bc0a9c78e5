-- ===== src/Links/Review.antt =====
-- Decisions on many links at once (project_review_bulk.go). Each runs under a savepoint: one that is
-- refused leaves the store as it was before it, and the rest go on. The batches of the transactions
-- do not show in what is decided, since no statement of a decision fails but by its own error; the
-- recording of pauses that ends each of them is not in it, nor that a batch is undone if that fails.
-- The link that an outcome holds beside an error is left out.
use workgraph.Common.{
  ℕ, zero, String, Bool, true, false, not, ◌&&◌, ◌||◌, none, List, [], ◌∷◌, ◌==◌, Result, ok, err,
  guard, ◌>>=◌, leb, select, link_not_current, link_changed, bad_confidence, unsupported_target,
}
use workgraph.Links.{
  ProjectLink, LinkStore, LinkState, proposed, applied, rejected, Decision, undecided, approved,
  confirmed, corrected, undone, Double, minus, plus, is_proposed, same_id, read_project_link,
  project_link_current,
}
use workgraph.Links.Write.{is_confidence}
use workgraph.Links.Decide.{Assignment, approve_project_link, assign_project_link}

abbrev pub same_state : LinkState → LinkState → Bool
same_state proposed proposed = true
same_state applied applied = true
same_state rejected rejected = true
same_state _ _ = false

abbrev same_decision : Decision → Decision → Bool
same_decision undecided undecided = true
same_decision approved approved = true
same_decision confirmed confirmed = true
same_decision corrected corrected = true
same_decision undone undone = true
same_decision _ _ = false

-- == on doubles, where -0 is 0
abbrev same_double : Double → Double → Bool
same_double (plus a) (plus b) = same_id a b
same_double (minus a) (minus b) = same_id a b
same_double (plus zero) (minus zero) = true
same_double (minus zero) (plus zero) = true
same_double _ _ = false

unfoldable pub project_link_unchanged : ProjectLink → ProjectLink → Bool
project_link_unchanged listed current =
    same_state current.state listed.state
    && same_decision current.decision listed.decision
    && current.target == listed.target
    && current.project == listed.project
    && same_double current.confidence listed.confidence
    && current.profile == listed.profile
    && same_id current.created_at listed.created_at

-- ApproveProjectLinksAsListed, on one link
unfoldable pub approve_as_listed : ℕ → ProjectLink → LinkStore → Result (LinkStore × ProjectLink)
unfolding read_project_link project_link_unchanged approve_project_link
approve_as_listed now listed store = do
  current ← read_project_link listed.id store
  _ ← guard (project_link_unchanged listed current) (link_changed current.id)
  approve_project_link now current.id store

unfoldable pub no_project : String → Assignment
no_project unit = record {
  unit_id = unit;
  unit_kind = "";
  container = "";
  evidence = [];
  target = "none";
  project = "";
  new_project = none;
  summary = "";
}

-- RejectProjectLinks, on one link
unfoldable pub reject_project_link :
    (ℕ → Bool) → ℕ → ℕ → LinkStore → Result (LinkStore × ProjectLink)
unfolding read_project_link project_link_current no_project assign_project_link
reject_project_link is_format now id store = do
  link ← read_project_link id store
  _ ← guard (project_link_current link) (link_not_current link.id)
  assign_project_link is_format now (no_project link.unit_id) store

-- The store and the outcome after a savepoint.
unfoldable pub released :
    LinkStore → Result (LinkStore × ProjectLink) → LinkStore × Result ProjectLink
released store (ok (after, link)) = (after, ok link)
released store (err e) = (store, err e)

-- decideProjectReviewBatches, with one decision for each item
unfoldable pub decide_each {ℓ} :
    {A : Type ℓ}
    → (A → LinkStore → Result (LinkStore × ProjectLink))
    → List A
    → LinkStore
    → LinkStore × List (Result ProjectLink)
unfolding released
decide_each decide [] store = (store, [])
decide_each decide (item ∷ items) store =
    let first = released store (decide item store) in
    let rest = decide_each decide items first.0 in (rest.0, first.1 ∷ rest.1)

pub record ApproveAboveFilter : Type 0 where
  pub confidence : Double
  pub target : String
  pub container : String

-- a < b
abbrev pub below : Double → Double → Bool
below (plus a) (plus b) = not (leb b a)
below (minus a) (minus b) = not (leb a b)
below (minus zero) (plus zero) = false
below (minus a) (plus b) = true
below (plus a) (minus b) = false

abbrev is_undone : Decision → Bool
is_undone undone = true
is_undone _ = false

-- A link of this unit was undone.
unfoldable pub was_undone : String → List ProjectLink → Bool
was_undone unit [] = false
was_undone unit (link ∷ links) =
    link.unit_id == unit && is_undone link.decision || was_undone unit links

unfoldable pub matches : ApproveAboveFilter → List ProjectLink → ProjectLink → Bool
unfolding was_undone
matches filter links link =
    is_proposed link.state
    && link.source == "llm"
    && not (was_undone link.unit_id links)
    && (link.target == "project" || link.target == "none")
    && (filter.target == "" || link.target == filter.target)
    && (filter.container == "" || link.container == filter.container)
    && not (below link.confidence filter.confidence)

unfoldable pub project_links_to_approve_above :
    ApproveAboveFilter → LinkStore → Result (List ProjectLink)
unfolding matches is_confidence
project_links_to_approve_above filter store = do
  _ ← guard (is_confidence filter.confidence) bad_confidence
  _ ←
      guard (filter.target == "" || filter.target == "project" || filter.target == "none")
        unsupported_target
  ok (select (matches filter store.links) store.links)

-- ===== src/Links/Write.antt =====
-- A link is written once it is valid (validateProjectLink, insertProjectLink), and decided by its id
-- (decideProjectLink). An update is not checked against the index on current links: no decision makes
-- a link current that was not.
use workgraph.Common.{
  ℕ, zero, suc, ◌+◌, String, Bool, true, false, not, ◌&&◌, ◌||◌, Option, none, some, List, [], ◌∷◌,
  ◌++◌, ◌==◌, Result, ok, err, guard, ◌>>=◌, leb, trim_space, if◌then◌else◌, unique_violation,
  unit_required, bad_project, bad_new_project, bad_no_project, unsupported_target,
  unsupported_link_kind, bad_confidence, evidence_required, empty_evidence,
}
use workgraph.Links.{
  ProjectLink, ProposedProject, LinkStore, Double, minus, plus, one, undecided, is_current,
  is_current_of, update_link,
}
use workgraph.Links.Summary.{sanitize_project_link_summary}

unfoldable pub is_empty : String → Bool
unfolding trim_space
is_empty text = trim_space text == ""

unfoldable pub project_link_kinds : String → Bool
project_link_kinds kind =
    kind == "review"
    || kind == "build"
    || kind == "coordination"
    || kind == "advice"
    || kind == "unblock"
    || kind == "decision"
    || kind == "fyi"

-- confidence >= 0 and confidence <= 1
unfoldable pub is_confidence : Double → Bool
is_confidence (plus n) = leb n one
is_confidence (minus zero) = true
is_confidence (minus (suc n)) = false

abbrev names_project : Option ProposedProject → Bool
names_project none = false
names_project (some project) = true

unfoldable pub is_complete : Option ProposedProject → Bool
unfolding is_empty
is_complete none = false
is_complete (some project) = not (is_empty project.slug) && not (is_empty project.name)

unfoldable pub all_filled : List String → Bool
unfolding is_empty
all_filled [] = true
all_filled (id ∷ ids) = not (is_empty id) && all_filled ids

unfoldable pub validate_target : ProjectLink → Result (Unit {0})
unfolding is_empty is_complete
validate_target link =
    if link.target == "project"
    then guard (not (is_empty link.project || names_project link.new_project)) bad_project
    else if link.target == "new_project"
    then guard (link.project == "" && is_complete link.new_project) bad_new_project
    else if link.target == "none"
    then guard (link.project == "" && not (names_project link.new_project)) bad_no_project
    else err unsupported_target

abbrev some_evidence : List String → Bool
some_evidence [] = false
some_evidence (id ∷ ids) = true

unfoldable pub validate_project_link : ProjectLink → Result (Unit {0})
unfolding is_empty validate_target project_link_kinds is_confidence all_filled
validate_project_link link = do
  _ ← guard (not (is_empty link.unit_id || is_empty link.unit_kind)) unit_required
  _ ← validate_target link
  _ ← guard (link.kind == "" || project_link_kinds link.kind) unsupported_link_kind
  _ ← guard (is_confidence link.confidence) bad_confidence
  _ ← guard (some_evidence link.evidence) evidence_required
  guard (all_filled link.evidence) empty_evidence

-- The index project_links_current_unit has a row of this unit.
unfoldable pub taken_unit : String → List ProjectLink → Bool
unfolding is_current_of
taken_unit unit [] = false
taken_unit unit (link ∷ links) = is_current_of unit link || taken_unit unit links

-- The row as it is stored.
unfoldable pub written_link : (ℕ → Bool) → ℕ → ℕ → ProjectLink → ProjectLink
unfolding sanitize_project_link_summary
written_link is_format id now link = record link {
  id = id;
  summary = sanitize_project_link_summary is_format link.summary;
  created_at = now;
  decided_at = none;
  decision = undecided;
}

unfoldable pub insert_project_link :
    (ℕ → Bool) → ℕ → ProjectLink → LinkStore → Result (LinkStore × ProjectLink)
unfolding written_link validate_project_link taken_unit
insert_project_link is_format now link store = do
  let written = written_link is_format store.next_id now link
  _ ← validate_project_link written
  _ ←
      guard (not (is_current written.state && taken_unit written.unit_id store.links))
        unique_violation
  ok (record store { links = store.links ++ written ∷ []; next_id = store.next_id + 1 }, written)

-- The columns of a decision, taken from a link as it was decided.
unfoldable pub decided_row : ProjectLink → ProjectLink → ProjectLink
decided_row link row = record row {
  state = link.state;
  auto = link.auto;
  decision = link.decision;
  decided_at = link.decided_at;
}

unfoldable pub decide_project_link : ProjectLink → LinkStore → LinkStore
unfolding update_link decided_row
decide_project_link link store = record store {
  links = update_link link.id (decided_row link) store.links;
}

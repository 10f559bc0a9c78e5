-- ===== src/Links/Decide.antt =====
-- What a user decides on a link: approve it, assign its unit anew, or undo what was applied
-- automatically (approveProjectLinkTx, assignProjectLinkTx, undoProjectLinkTx, UndoProjectLinkRun).
-- Each is the work inside one transaction of withProjectLinksTx.
use workgraph.Common.{
  ℕ, String, Bool, true, false, not, ◌&&◌, Option, none, some, List, [], ◌∷◌, ◌==◌, Result, ok, err,
  guard, ◌>>=◌, select, trim_space, if◌then◌else◌, link_decided, not_auto_applied, run_id_required,
}
use workgraph.Links.{
  ProjectLink, ProposedProject, LinkStore, LinkState, proposed, applied, rejected, Decision,
  undecided, approved, confirmed, corrected, undone, plus, one, is_applied, current_project_link,
  read_project_link, update_link, first_non_empty,
}
use workgraph.Links.Write.{insert_project_link, decide_project_link}

-- The decision on a link in a state, applied automatically or not, decided so far or not.
unfoldable pub approval : ℕ → LinkState → Bool → Decision → ProjectLink → Result ProjectLink
approval now proposed auto decision link =
    ok (record link { state = applied; auto = false; decision = approved; decided_at = some now })
approval now applied true undecided link =
    ok (record link { decision = confirmed; decided_at = some now })
approval now _ auto decision link = err (link_decided link.id)

unfoldable pub approve_project_link : ℕ → ℕ → LinkStore → Result (LinkStore × ProjectLink)
unfolding read_project_link approval decide_project_link
approve_project_link now id store = do
  link ← read_project_link id store
  decided ← approval now link.state link.auto link.decision link
  ok (decide_project_link decided store, decided)

unfoldable pub named_project : String → ProjectLink → ProjectLink
named_project slug link = record link { target = "project"; project = slug }

-- An approved link to a new project becomes one to the project of its slug.
unfoldable pub name_new_project :
    Option ProposedProject → LinkStore → ProjectLink → LinkStore × ProjectLink
unfolding update_link named_project
name_new_project none store link = (store, link)
name_new_project (some project) store link =
    if link.target == "new_project"
    then (
      record store { links = update_link link.id (named_project project.slug) store.links },
      named_project project.slug link,
    )
    else (store, link)

unfoldable pub approve_new_project_link : ℕ → ℕ → LinkStore → Result (LinkStore × ProjectLink)
unfolding approve_project_link name_new_project
approve_new_project_link now id store = approve_project_link now id store >>= λ approval.
    ok (name_new_project approval.1.new_project approval.0 approval.1)

pub record Assignment : Type 0 where
  pub unit_id : String
  pub unit_kind : String
  pub container : String
  pub evidence : List String
  pub target : String
  pub project : String
  pub new_project : Option ProposedProject
  pub summary : String

unfoldable pub assigned_link : Assignment → ProjectLink
assigned_link assignment = record {
  id = 0;
  unit_id = assignment.unit_id;
  unit_kind = assignment.unit_kind;
  container = assignment.container;
  target = assignment.target;
  project = assignment.project;
  new_project = assignment.new_project;
  source = "user";
  kind = "";
  summary = assignment.summary;
  confidence = plus one;
  evidence = assignment.evidence;
  state = applied;
  auto = false;
  rule = "";
  profile = "";
  run_id = "";
  created_at = 0;
  decided_at = none;
  decision = undecided;
}

abbrev evidence_or : List String → List String → List String
evidence_or [] known = known
evidence_or (id ∷ ids) known = id ∷ ids

-- What an assignment leaves out is taken from the unit's current link.
unfoldable pub inherit : ProjectLink → ProjectLink → ProjectLink
unfolding first_non_empty
inherit current link = record link {
  unit_kind = first_non_empty link.unit_kind current.unit_kind;
  container = first_non_empty link.container current.container;
  summary = first_non_empty link.summary current.summary;
  kind = current.kind;
  evidence = evidence_or link.evidence current.evidence;
}

unfoldable pub rejected_as : Decision → ℕ → ProjectLink → ProjectLink
rejected_as decision now link = record link {
  state = rejected;
  decision = decision;
  decided_at = some now;
}

-- By the current link of the unit.
unfoldable pub assign_over :
    (ℕ → Bool) → ℕ → Option ProjectLink → ProjectLink → LinkStore → Result (LinkStore × ProjectLink)
unfolding inherit decide_project_link rejected_as insert_project_link
assign_over is_format now none link store = insert_project_link is_format now link store
assign_over is_format now (some current) link store =
    insert_project_link is_format now (inherit current link)
      (decide_project_link (rejected_as corrected now current) store)

unfoldable pub assign_project_link :
    (ℕ → Bool) → ℕ → Assignment → LinkStore → Result (LinkStore × ProjectLink)
unfolding current_project_link assigned_link assign_over
assign_project_link is_format now assignment store =
    assign_over is_format now (current_project_link assignment.unit_id store)
      (assigned_link assignment) store

abbrev is_undoable : Decision → Bool
is_undoable undecided = true
is_undoable confirmed = true
is_undoable _ = false

-- state = 'applied' AND auto = 1 AND decision IN ('', 'confirmed')
unfoldable pub auto_applied : ProjectLink → Bool
auto_applied link = is_applied link.state && link.auto && is_undoable link.decision

unfoldable pub undo_link :
    (ℕ → Bool) → ℕ → ProjectLink → LinkStore → Result (LinkStore × ProjectLink)
unfolding auto_applied decide_project_link rejected_as insert_project_link
undo_link is_format now link store = do
  _ ← guard (auto_applied link) (not_auto_applied link.id)
  insert_project_link is_format now (record link { state = proposed; auto = false })
      (decide_project_link (rejected_as undone now link) store)

unfoldable pub undo_project_link : (ℕ → Bool) → ℕ → ℕ → LinkStore → Result (LinkStore × ProjectLink)
unfolding read_project_link undo_link
undo_project_link is_format now id store =
    read_project_link id store >>= λ link. undo_link is_format now link store

unfoldable pub undo_each :
    (ℕ → Bool) → ℕ → List ProjectLink → LinkStore → Result (LinkStore × List ProjectLink)
unfolding undo_link
undo_each is_format now [] store = ok (store, [])
undo_each is_format now (link ∷ links) store = undo_link is_format now link store >>= λ one.
    undo_each is_format now links one.0 >>= λ rest. ok (rest.0, one.1 ∷ rest.1)

unfoldable pub undo_project_link_run :
    (ℕ → Bool) → ℕ → String → LinkStore → Result (LinkStore × List ProjectLink)
unfolding undo_each auto_applied trim_space
undo_project_link_run is_format now run_id store = do
  _ ← guard (not (trim_space run_id == "")) run_id_required
  undo_each is_format now (select (λ link. link.run_id == run_id && auto_applied link) store.links)
      store

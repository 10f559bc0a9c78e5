-- ===== src/Relink.antt =====
-- Relinking units whose container maps to other projects now, and rechecking the proposals of a model
-- by the deterministic rules (project_relink.go). A change supersedes the unit's current link, if that
-- is still the link it was planned for, and a run records the replacements, in batches of 500 with a
-- transaction each.
--
-- The rules (deterministicProjectLink), the catalog and the container mappings are arguments. A map from
-- units to links is the list of links, read from its end.
pub mod Apply
pub mod Containers
pub mod Superseded
pub mod Batches
pub mod Planned
pub mod Relinked
mod Examples
use workgraph.Common.{
  ℕ, ◌+◌, String, Bool, true, false, not, ◌&&◌, ◌||◌, Option, none, some, List, [], ◌∷◌, map, ◌==◌,
  Result, ok, err, ◌>>=◌, select, if◌then◌else◌,
}
use workgraph.Links.{
  ProjectLink, LinkState, Decision, proposed, applied, rejected, undecided, is_proposed, is_applied,
  is_current_of,
}
use workgraph.Links.Review.{was_undone}
use workgraph.Links.Record.{ProjectLinkProposal}
use workgraph.Units.{ProjectUnit}

pub record ProjectRelinkChange : Type 0 where
  pub unit : ProjectUnit
  pub current : Option ProjectLink
  pub replacement : Option ProjectLinkProposal

-- What a relinking reads before it writes.
pub record ProjectRelinkState : Type 0 where
  pub units : List ProjectUnit
  pub links : List ProjectLink
  pub has_project : String → Bool
  pub mapped : String → List String
  pub resolve : ProjectUnit → Result (Option ProjectLinkProposal)

-- state.current[unit]: the last current link of the unit.
unfoldable pub last_current : String → List ProjectLink → Option ProjectLink
unfolding is_current_of
last_current unit [] = none
last_current unit (link ∷ links) = elim (last_current unit links) [
  | some other ↦ some other
  | none ↦ if is_current_of unit link then some link else none
]

abbrev pub is_undecided : Decision → Bool
is_undecided undecided = true
is_undecided _ = false

unfoldable pub project_container_mapping_link_movable : ProjectLink → Bool
project_container_mapping_link_movable link =
    is_applied link.state
    && link.auto
    && link.source == "deterministic"
    && link.rule == "container_mapping"
    && is_undecided link.decision

unfoldable pub proposal_replaceable : List ProjectLink → ProjectLink → Bool
unfolding was_undone
proposal_replaceable links link =
    is_proposed link.state && link.source == "llm" && not (was_undone link.unit_id links)

-- Whether the unit's link may be changed at all.
unfoldable pub may_change : List ProjectLink → ProjectUnit → Option ProjectLink → Bool
unfolding project_container_mapping_link_movable proposal_replaceable
may_change links unit none = unit.eligible
may_change links unit (some current) =
    project_container_mapping_link_movable current || proposal_replaceable links current

-- The change, once the rules have said what the unit is linked to.
unfoldable pub planned_change :
    ProjectUnit → Option ProjectLink → Option ProjectLinkProposal → Option ProjectRelinkChange
planned_change unit none none = none
planned_change unit none (some proposal) =
    some (record { unit = unit; current = none; replacement = some proposal })
planned_change unit (some current) none =
    if is_proposed current.state
    then none
    else some (record { unit = unit; current = some current; replacement = none })
planned_change unit (some current) (some proposal) =
    if not (is_proposed current.state) && proposal.project == current.project
    then none
    else some (record { unit = unit; current = some current; replacement = some proposal })

unfoldable pub container_change :
    ProjectRelinkState → ProjectUnit → Result (Option ProjectRelinkChange)
unfolding last_current may_change planned_change
container_change state unit =
    if may_change state.links unit (last_current unit.id state.links)
    then state.resolve unit
      >>= (λ resolved. ok (planned_change unit (last_current unit.id state.links) resolved))
    else ok none

abbrev pub cons_change :
    Option ProjectRelinkChange → List ProjectRelinkChange → List ProjectRelinkChange
cons_change none changes = changes
cons_change (some change) changes = change ∷ changes

abbrev pub among : String → List String → Bool
among name [] = false
among name (other ∷ others) = other == name || among name others

-- The changes to the units of some containers; the first error ends the relinking.
unfoldable pub container_changes :
    ProjectRelinkState → List String → List ProjectUnit → Result (List ProjectRelinkChange)
unfolding container_change
container_changes state containers [] = ok []
container_changes state containers (unit ∷ units) =
    (if among unit.container containers then container_change state unit else ok none) >>= λ change.
    container_changes state containers units >>= λ rest. ok (cons_change change rest)

unfoldable pub replaced_by :
    ProjectUnit → ProjectLink → Option ProjectLinkProposal → Option ProjectRelinkChange
replaced_by unit current none = none
replaced_by unit current (some proposal) =
    some (record { unit = unit; current = some current; replacement = some proposal })

-- The proposals of a model that may be replaced, with the replacement that the rules give.
unfoldable pub recheck_change :
    ProjectRelinkState → ProjectUnit → Option ProjectLink → Result (Option ProjectRelinkChange)
unfolding proposal_replaceable replaced_by
recheck_change state unit none = ok none
recheck_change state unit (some current) =
    if proposal_replaceable state.links current
    then state.resolve unit >>= (λ resolved. ok (replaced_by unit current resolved))
    else ok none

unfoldable pub recheck_changes :
    ProjectRelinkState → List ProjectUnit → Result (List ProjectRelinkChange)
unfolding recheck_change last_current
recheck_changes state [] = ok []
recheck_changes state (unit ∷ units) =
    recheck_change state unit (last_current unit.id state.links) >>= λ change.
    recheck_changes state units >>= λ rest. ok (cons_change change rest)

abbrev all_same : String → List String → Bool
all_same slug [] = true
all_same slug (other ∷ others) = other == slug && all_same slug others

abbrev only_one : List String → String
only_one [] = ""
only_one (slug ∷ slugs) = if all_same slug slugs then slug else ""

-- The project that a container maps to, if it is one.
unfoldable pub single_mapped_project : ProjectRelinkState → String → String
single_mapped_project state container = only_one (select state.has_project (state.mapped container))

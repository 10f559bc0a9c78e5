-- ===== src/Links.antt =====
-- The links from units of work to projects: the table project_links of project_links.go, and the
-- statements on it. A time is its instant in nanoseconds, as the codec of Clock keeps it.
--
-- A confidence is a finite double, a multiple of 2^-1074. The units' and projects' JSON texts are
-- kept as the values they encode.
pub mod Summary
pub mod Write
pub mod Decide
pub mod Record
pub mod Review
pub mod Written
pub mod Rows
pub mod Current
pub mod History
pub mod Outcomes
pub mod Recorded
pub mod Proposals
pub mod Placement
mod Examples
use workgraph.Common.{
  ℕ, zero, suc, ◌+◌, ◌^◌, String, Bool, true, false, not, ◌&&◌, ◌||◌, Option, none, some, List, [],
  ◌∷◌, ◌++◌, ◌==◌, Result, ok, err, guard, ◌>>=◌, leb, trim_space, if◌then◌else◌, link_not_found,
}

pub data LinkState : Type 0 where
  proposed applied rejected : LinkState

pub data Decision : Type 0 where
  undecided approved confirmed corrected undone : Decision

pub data Double : Type 0 where
  minus : ℕ → Double
  plus : ℕ → Double

-- The double 1 in units of 2^-1074
abbrev pub one : ℕ
one = 2 ^ 1074

pub record ProposedProject : Type 0 where
  pub slug : String
  pub name : String
  pub description : String
  pub workstream : String

pub record ProjectLink : Type 0 where
  pub id : ℕ
  pub unit_id : String
  pub unit_kind : String
  pub container : String
  pub target : String
  pub project : String
  pub new_project : Option ProposedProject
  pub source : String
  pub kind : String
  pub summary : String
  pub confidence : Double
  pub evidence : List String
  pub state : LinkState
  pub auto : Bool
  pub rule : String
  pub profile : String
  pub run_id : String
  pub created_at : ℕ
  pub decided_at : Option ℕ
  pub decision : Decision

-- A row of project_link_verifications. The two answers are their JSON texts.
pub record Verification : Type 0 where
  pub link_id : ℕ
  pub primary_profile : String
  pub primary : String
  pub verifier_profile : String
  pub verifier : String

-- The tables; next_id is the next key that AUTOINCREMENT draws.
pub record LinkStore : Type 0 where
  pub links : List ProjectLink
  pub next_id : ℕ
  pub verifications : List Verification

abbrev pub is_proposed : LinkState → Bool
is_proposed proposed = true
is_proposed _ = false

abbrev pub is_applied : LinkState → Bool
is_applied applied = true
is_applied _ = false

-- state IN ('proposed', 'applied')
abbrev pub is_current : LinkState → Bool
is_current rejected = false
is_current _ = true

unfoldable pub project_link_current : ProjectLink → Bool
project_link_current link = is_current link.state

abbrev pub same_id : ℕ → ℕ → Bool
same_id a b = leb a b && leb b a

abbrev pub has_link_id : ℕ → ProjectLink → Bool
has_link_id id link = same_id link.id id

-- WHERE unit_id = ? AND state IN ('proposed', 'applied')
unfoldable pub is_current_of : String → ProjectLink → Bool
is_current_of unit link = link.unit_id == unit && is_current link.state

-- The first row of a query.
unfoldable pub find_link : (ProjectLink → Bool) → List ProjectLink → Option ProjectLink
find_link p [] = none
find_link p (link ∷ links) = if p link then some link else find_link p links

unfoldable pub current_project_link : String → LinkStore → Option ProjectLink
unfolding find_link is_current_of
current_project_link unit store = find_link (is_current_of unit) store.links

unfoldable pub found_link : ℕ → Option ProjectLink → Result ProjectLink
found_link id none = err (link_not_found id)
found_link id (some link) = ok link

unfoldable pub read_project_link : ℕ → LinkStore → Result ProjectLink
unfolding found_link find_link
read_project_link id store = found_link id (find_link (has_link_id id) store.links)

-- UPDATE project_links SET f WHERE id = ?
unfoldable pub update_link : ℕ → (ProjectLink → ProjectLink) → List ProjectLink → List ProjectLink
update_link id f [] = []
update_link id f (link ∷ links) =
    (if has_link_id id link then f link else link) ∷ update_link id f links

unfoldable pub first_non_empty : String → String → String
unfolding trim_space
first_non_empty a b =
    if not (trim_space a == "") then a else if not (trim_space b == "") then b else ""

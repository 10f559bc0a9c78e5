-- ===== src/Links/Proposals.antt =====
-- Which proposals of a run are the first ones of units without a current link.
use workgraph.Common.{
  ℕ, ◌+◌, String, ◌≡◌, refl, Bool, true, false, ◌||◌, Option, none, some, List, [], ◌∷◌, ◌++◌, ◌==◌,
  arith, if◌then◌else◌,
}
use workgraph.Links.{
  ProjectLink, LinkStore, Verification, is_current, find_link, is_current_of, current_project_link,
}
use workgraph.Links.Record.{ProjectLinkProposal}

abbrev pub listed : String → List String → Bool
listed unit [] = false
listed unit (u ∷ units) = u == unit || listed unit units

-- The units that have a current link.
abbrev pub current_units : List ProjectLink → List String
current_units [] = []
current_units (l ∷ links) =
    if is_current l.state then l.unit_id ∷ current_units links else current_units links

-- The proposals for units that are not among these ones, for each unit its first one.
abbrev pub first_proposals : List String → List ProjectLinkProposal → List ProjectLinkProposal
first_proposals units [] = []
first_proposals units (p ∷ ps) =
    if listed p.unit_id units
    then first_proposals units ps
    else p ∷ first_proposals (p.unit_id ∷ units) ps

-- The units of the other proposals.
abbrev pub other_units : List String → List ProjectLinkProposal → List String
other_units units [] = []
other_units units (p ∷ ps) =
    if listed p.unit_id units
    then p.unit_id ∷ other_units units ps
    else other_units (p.unit_id ∷ units) ps

abbrev pub verification_of : Option (ℕ → Verification) → ℕ → List Verification
verification_of none id = []
verification_of (some verification) id = verification id ∷ []

-- The rows of verifications of proposals that are written in turn, from a key on.
abbrev pub verified : ℕ → List ProjectLinkProposal → List Verification
verified id [] = []
verified id (p ∷ ps) = verification_of p.verification id ++ verified (id + 1) ps

abbrev pub is_found : Option ProjectLink → Bool
is_found none = false
is_found (some link) = true

-- The units are those that have a current link.
abbrev pub AreTaken : List String → LinkStore → Type 0
AreTaken units store =
    (unit : String) → is_found (current_project_link unit store) ≡ listed unit units

current_units-found :
    (unit : String) (links : List ProjectLink)
    → is_found (find_link (is_current_of unit) links) ≡ listed unit (current_units links)
unfolding find_link is_current_of
current_units-found unit [] = refl
current_units-found unit (l ∷ links) = ground (arith, current_units-found unit links)

pub current_units-AreTaken : (store : LinkStore) → AreTaken (current_units store.links) store
unfolding current_project_link
current_units-AreTaken store unit = current_units-found unit store.links

pub find_link-append :
    (unit : String) (links : List ProjectLink) (w : ProjectLink)
    → is_current w.state ≡ true
    → is_found (find_link (is_current_of unit) (links ++ w ∷ []))
      ≡ (w.unit_id == unit || is_found (find_link (is_current_of unit) links))
unfolding find_link is_current_of
find_link-append unit [] w h = ground arith
find_link-append unit (l ∷ links) w h = ground (arith, find_link-append unit links w h)

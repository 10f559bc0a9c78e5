-- ===== src/Units/Groups.antt =====
-- Events with one key are one group (keyedProjectUnits, newProjectUnit), in the order of the events.
use Prim.Native.String.{◌++◌ as text_append}
use workgraph.Common.{ℕ, String, true, List, [], ◌∷◌, ◌++◌, map, ◌==◌, if◌then◌else◌}
use workgraph.Units.{ProjectUnitEvent, ProjectUnit, Members, Group}

unfoldable pub events_in : Members → List ProjectUnitEvent
events_in members = members.first ∷ members.rest

-- The event's time that is the last one.
unfoldable pub last_time : ℕ → List ProjectUnitEvent → ℕ
last_time at [] = at
last_time at (event ∷ events) = last_time event.timestamp events

unfoldable pub new_project_unit : String → String → Members → ProjectUnit
unfolding events_in last_time
new_project_unit id kind members = record {
  id = id;
  kind = kind;
  container = members.first.project;
  start = members.first.timestamp;
  end = last_time members.first.timestamp members.rest;
  event_ids = map (λ event. event.id) (events_in members);
  eligible = true;
}

unfoldable pub with_member : Group → ProjectUnitEvent → Group
with_member group event = record group {
  members = record group.members { rest = group.members.rest ++ event ∷ [] };
}

-- groups[key] = append(groups[key], event)
unfoldable pub add_member : String → ProjectUnitEvent → List Group → List Group
unfolding with_member
add_member key event [] = record { key = key; members = record { first = event; rest = [] } } ∷ []
add_member key event (group ∷ groups) =
    let others = add_member key event groups in
    if group.key == key then with_member group event ∷ groups else group ∷ others

unfoldable pub group_each :
    (ProjectUnitEvent → String) → List ProjectUnitEvent → List Group → List Group
unfolding add_member
group_each key [] groups = groups
group_each key (event ∷ events) groups = group_each key events (add_member (key event) event groups)

unfoldable pub unit_of_group : String → Group → ProjectUnit
unfolding new_project_unit
unit_of_group kind group =
    new_project_unit (text_append kind (text_append ":" group.key)) kind group.members

unfoldable pub keyed_project_units :
    String → List ProjectUnitEvent → (ProjectUnitEvent → String) → List ProjectUnit
unfolding group_each unit_of_group
keyed_project_units kind events key = map (unit_of_group kind) (group_each key events [])

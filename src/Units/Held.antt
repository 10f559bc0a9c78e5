-- ===== src/Units/Held.antt =====
-- The units made of some events hold just these events.
use mathlib.Core.List.{Perm, append-nil, append_assoc, perm_middle}
use mathlib.Core.List.Perm
use workgraph.Common.{
  ℕ, String, not, ◌≡◌, refl, sym, ◌∙◌, ap, List, [], ◌∷◌, ◌++◌, map, ◌==◌, Bool-cases, inl, inr,
  arith, select, select-perm, concat_map, concat_map-append,
}
use workgraph.Units.{ProjectUnitEvent, ProjectUnit, Members, Group}
use workgraph.Units.Groups.{
  events_in, new_project_unit, with_member, add_member, group_each, unit_of_group,
  keyed_project_units,
}
use workgraph.Units.Bursts.{
  put_before, split_project_unit_events, session_unit, git_session_project_units, thread_unit,
  burst_unit, in_thread, slack_project_units, thread_of, place_key,
}

abbrev pub event_id : ProjectUnitEvent → String
event_id event = event.id

abbrev group_events : Group → List ProjectUnitEvent
group_events group = events_in group.members

-- The ids of the events of some units, unit by unit.
unfoldable pub unit_event_ids : List ProjectUnit → List String
unfolding concat_map
unit_event_ids units = concat_map (λ unit. unit.event_ids) units

pub map-append {ℓ κ} :
    {A : Type ℓ} {B : Type κ} (f : A → B) (xs ys : List A) → map f (xs ++ ys) ≡ map f xs ++ map f ys
map-append f [] ys = refl
map-append f (x ∷ xs) ys = rw (map-append f xs ys) refl

pub concat_map-singles :
    (es : List ProjectUnitEvent) → concat_map (λ e. e.id ∷ []) es ≡ map event_id es
unfolding concat_map
concat_map-singles [] = refl
concat_map-singles (e ∷ es) = rw (concat_map-singles es) refl

-- Units that are made of some groups hold the groups' events.
unit_event_ids-map {ℓ} :
    {G : Type ℓ} (events : G → List ProjectUnitEvent) (make : G → ProjectUnit)
    → ((g : G) → (make g).event_ids ≡ map event_id (events g))
    → (gs : List G) → unit_event_ids (map make gs) ≡ map event_id (concat_map events gs)
unfolding unit_event_ids concat_map
unit_event_ids-map events make h [] = refl
unit_event_ids-map events make h (g ∷ gs) =
    rw
      (
        h g,
        unit_event_ids-map events make h gs,
        map-append event_id (events g) (concat_map events gs),
      )
      refl

add_member-perm :
    (key : String) (e : ProjectUnitEvent) (gs : List Group)
    → Perm (concat_map group_events (add_member key e gs)) (e ∷ concat_map group_events gs)
unfolding concat_map add_member with_member events_in
add_member-perm key e [] = Perm.rfl
add_member-perm key e (g ∷ gs) = elim (Bool-cases (g.key == key)) [
  | inl h ↦ rw (h, append_assoc) (perm_middle (group_events g) (concat_map group_events gs))
  | inr h ↦ rw h (
      Perm.trans (Perm.append_left (group_events g) (add_member-perm key e gs))
        (perm_middle (group_events g) (concat_map group_events gs)))
]

group_each-perm :
    (key : ProjectUnitEvent → String) (es : List ProjectUnitEvent) (gs : List Group)
    → Perm (concat_map group_events (group_each key es gs)) (es ++ concat_map group_events gs)
unfolding group_each
group_each-perm key [] gs = Perm.rfl
group_each-perm key (e ∷ es) gs = Perm.trans (group_each-perm key es (add_member (key e) e gs)) (
    Perm.trans (Perm.append_left es (add_member-perm (key e) e gs))
      (perm_middle es (concat_map group_events gs)))

put_before-concat_map :
    (e : ProjectUnitEvent) (gs : List Members)
    → concat_map events_in (put_before e gs) ≡ e ∷ concat_map events_in gs
unfolding put_before concat_map events_in
put_before-concat_map e [] = refl
put_before-concat_map e (g ∷ gs) = ground arith

pub split_project_unit_events-concat_map :
    (es : List ProjectUnitEvent) → concat_map events_in (split_project_unit_events es) ≡ es
unfolding split_project_unit_events concat_map
split_project_unit_events-concat_map [] = refl
split_project_unit_events-concat_map (e ∷ es) =
    put_before-concat_map e (split_project_unit_events es)
    ∙ ap (◌∷◌ e) (split_project_unit_events-concat_map es)

-- What is split again holds the same.
unit_event_ids-split :
    (make : Group → Members → ProjectUnit)
    → ((g : Group) (m : Members) → (make g m).event_ids ≡ map event_id (events_in m))
    → (gs : List Group)
    → unit_event_ids
        (concat_map (λ g. map (make g) (split_project_unit_events (events_in g.members))) gs)
      ≡ map event_id (concat_map group_events gs)
unfolding unit_event_ids concat_map
unit_event_ids-split make h [] = refl
unit_event_ids-split make h (g ∷ gs) =
    concat_map-append (λ u. u.event_ids)
      (map (make g) (split_project_unit_events (events_in g.members)))
      (concat_map (λ g. map (make g) (split_project_unit_events (events_in g.members))) gs)
    ∙ rw
        (
          unit_event_ids-map events_in (make g) (h g)
              (split_project_unit_events (events_in g.members)),
          split_project_unit_events-concat_map (events_in g.members),
          unit_event_ids-split make h gs,
          map-append event_id (events_in g.members) (concat_map group_events gs),
        )
        refl

-- Events that are put in groups, with one unit for each group.
grouped-perm :
    (key : ProjectUnitEvent → String) (make : Group → ProjectUnit)
    → ((g : Group) → (make g).event_ids ≡ map event_id (group_events g))
    → (es : List ProjectUnitEvent)
    → Perm (unit_event_ids (map make (group_each key es []))) (map event_id es)
unfolding concat_map
grouped-perm key make h es =
    rw (unit_event_ids-map group_events make h (group_each key es []))
      (Perm.map event_id (rw append-nil at (group_each-perm key es [])))

split-perm :
    (key : ProjectUnitEvent → String) (make : Group → Members → ProjectUnit)
    → ((g : Group) (m : Members) → (make g m).event_ids ≡ map event_id (events_in m))
    → (es : List ProjectUnitEvent)
    → Perm
        (unit_event_ids (
          concat_map
            (λ g. map (make g) (split_project_unit_events (events_in g.members)))
            (group_each key es [])))
        (map event_id es)
unfolding concat_map
split-perm key make h es =
    rw (unit_event_ids-split make h (group_each key es []))
      (Perm.map event_id (rw append-nil at (group_each-perm key es [])))

pub unit_event_ids-append :
    (us vs : List ProjectUnit) → unit_event_ids (us ++ vs) ≡ unit_event_ids us ++ unit_event_ids vs
unfolding unit_event_ids
unit_event_ids-append us vs = concat_map-append (λ u. u.event_ids) us vs

pub keyed_project_units-perm :
    (kind : String) (es : List ProjectUnitEvent) (key : ProjectUnitEvent → String)
    → Perm (unit_event_ids (keyed_project_units kind es key)) (map event_id es)
unfolding keyed_project_units unit_of_group new_project_unit
keyed_project_units-perm kind es key = grouped-perm key (unit_of_group kind) (λ g. refl) es

pub git_session_project_units-perm :
    (es : List ProjectUnitEvent)
    → Perm (unit_event_ids (git_session_project_units es)) (map event_id es)
unfolding git_session_project_units session_unit new_project_unit
git_session_project_units-perm es =
    split-perm (λ e. e.payload.repo_path) (λ g. session_unit g.key) (λ g m. refl) es

pub slack_project_units-perm :
    (now : ℕ) (es : List ProjectUnitEvent)
    → Perm (unit_event_ids (slack_project_units now es)) (map event_id es)
unfolding slack_project_units thread_unit burst_unit new_project_unit
slack_project_units-perm now es =
    let replies = select (in_thread es) es in
    let others = select (λ e. not (in_thread es e)) es in
    rw
      (unit_event_ids-append
        (map thread_unit
          (group_each (λ e. place_key e.payload.channel_id (thread_of es e)) replies []))
        (concat_map
          (λ g. map (burst_unit now g.key) (split_project_unit_events (events_in g.members)))
          (group_each (λ e. e.payload.channel_id) others [])))
      (Perm.trans
        (Perm.append
          (grouped-perm (λ e. place_key e.payload.channel_id (thread_of es e)) thread_unit
            (λ g. refl) replies)
          (split-perm (λ e. e.payload.channel_id) (λ g. burst_unit now g.key) (λ g m. refl) others))
        (rw (sym (map-append event_id replies others))
          (Perm.map event_id (select-perm (in_thread es) es))))

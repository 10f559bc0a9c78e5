-- ===== src/Units/Partition.antt =====
-- Every kept event is in one unit.
use mathlib.Core.List.{Perm, perm_middle}
use mathlib.Core.List.Perm
use workgraph.Common.{
  ℕ, String, Bool, ◌≡◌, refl, sym, ap, Option, none, some, List, [], ◌∷◌, ◌++◌, map, if◌then◌else◌,
  arith, concat_map, sort_slice, sort_slice-concat_map,
}
use workgraph.Clock.{parse}
use workgraph.Units.{
  ProjectUnitEvent, ProjectUnit, UnitRow, ProjectUnitPayload, Source, slack, github, git, notion,
  calendar, other_source, same_source, read_unit_row, unit_event, cons_some, events_of,
  load_project_unit_events, project_unit_event_keyed, keeps_row,
}
use workgraph.Units.Groups.{events_in, new_project_unit}
use workgraph.Units.Bursts.{calendar_unit, project_units}
use workgraph.Units.Held.{
  event_id, unit_event_ids, map-append, concat_map-singles, unit_event_ids-append,
  keyed_project_units-perm, git_session_project_units-perm, slack_project_units-perm,
}

-- The events that are kept, in the order of the rows.
unfoldable pub kept_events : List UnitRow → List ProjectUnitEvent
unfolding unit_event cons_some
kept_events [] = []
kept_events (row ∷ rows) = cons_some (unit_event row) (kept_events rows)

calendar_unit-ids :
    (es : List ProjectUnitEvent) → unit_event_ids (map calendar_unit es) ≡ map event_id es
unfolding unit_event_ids concat_map calendar_unit new_project_unit events_in
calendar_unit-ids [] = refl
calendar_unit-ids (e ∷ es) = rw (calendar_unit-ids es) refl

load_project_unit_events-perm :
    (source : Source) (rows : List UnitRow)
    → Perm
        (map event_id (load_project_unit_events source rows))
        (map event_id (events_of source rows))
unfolding load_project_unit_events
load_project_unit_events-perm source rows =
    rw
      (
        sym (concat_map-singles (events_of source rows)),
        sym (concat_map-singles (load_project_unit_events source rows)),
      )
      (sort_slice-concat_map (λ e. e.id ∷ []) _ (events_of source rows))

read_unit_row-other :
    (row : UnitRow) (payload : Option ProjectUnitPayload) (at : Option ℕ)
    → row.source ≡ other_source
    → read_unit_row row payload at ≡ none
unfolding read_unit_row keeps_row project_unit_event_keyed
read_unit_row-other row none at h = refl
read_unit_row-other row (some payload) none h = refl
read_unit_row-other row (some payload) (some at) h =
    ground (arith, ap (λ source. project_unit_event_keyed source payload) h)

unit_event-other : (row : UnitRow) → row.source ≡ other_source → unit_event row ≡ none
unfolding unit_event
unit_event-other row h = read_unit_row-other row row.payload (parse row.timestamp) h

abbrev put :
    Source → Source → Option ProjectUnitEvent → List ProjectUnitEvent → List ProjectUnitEvent
put own source o es = if same_source own source then cons_some o es else es

put_each-perm :
    (own : Source) (o : Option ProjectUnitEvent) (xs ys zs ws vs all : List ProjectUnitEvent)
    → (own ≡ other_source → o ≡ none)
    → Perm (xs ++ (ys ++ (zs ++ (ws ++ vs)))) all
    → Perm
        (put own slack o xs
          ++ (put own github o ys
              ++ (put own git o zs ++ (put own notion o ws ++ put own calendar o vs))))
        (cons_some o all)
unfolding cons_some
put_each-perm slack none xs ys zs ws vs all h p = p
put_each-perm github none xs ys zs ws vs all h p = p
put_each-perm git none xs ys zs ws vs all h p = p
put_each-perm notion none xs ys zs ws vs all h p = p
put_each-perm calendar none xs ys zs ws vs all h p = p
put_each-perm other_source none xs ys zs ws vs all h p = p
put_each-perm slack (some e) xs ys zs ws vs all h p = Perm.cons e p
put_each-perm github (some e) xs ys zs ws vs all h p =
    Perm.trans (perm_middle xs (ys ++ (zs ++ (ws ++ vs)))) (Perm.cons e p)
put_each-perm git (some e) xs ys zs ws vs all h p =
    Perm.trans
      (Perm.trans (Perm.append_left xs (perm_middle ys (zs ++ (ws ++ vs))))
        (perm_middle xs (ys ++ (zs ++ (ws ++ vs)))))
      (Perm.cons e p)
put_each-perm notion (some e) xs ys zs ws vs all h p =
    Perm.trans
      (Perm.trans
        (Perm.append_left xs (
          Perm.trans (Perm.append_left ys (perm_middle zs (ws ++ vs)))
            (perm_middle ys (zs ++ (ws ++ vs)))))
        (perm_middle xs (ys ++ (zs ++ (ws ++ vs)))))
      (Perm.cons e p)
put_each-perm calendar (some e) xs ys zs ws vs all h p =
    Perm.trans
      (Perm.trans
        (Perm.append_left xs (
          Perm.trans
            (Perm.append_left ys
              (Perm.trans (Perm.append_left zs (perm_middle ws vs)) (perm_middle zs (ws ++ vs))))
            (perm_middle ys (zs ++ (ws ++ vs)))))
        (perm_middle xs (ys ++ (zs ++ (ws ++ vs)))))
      (Perm.cons e p)
put_each-perm other_source (some e) xs ys zs ws vs all h p = absurd (cc (h refl))

-- The five sources have the kept events.
sources-perm :
    (rows : List UnitRow)
    → Perm
        (events_of slack rows
          ++ (events_of github rows
              ++ (events_of git rows ++ (events_of notion rows ++ events_of calendar rows))))
        (kept_events rows)
unfolding events_of kept_events
sources-perm [] = Perm.rfl
sources-perm (row ∷ rows) =
    put_each-perm row.source (unit_event row) (events_of slack rows) (events_of github rows)
      (events_of git rows) (events_of notion rows) (events_of calendar rows) (kept_events rows)
      (unit_event-other row) (sources-perm rows)

sources_ids-perm :
    (rows : List UnitRow)
    → Perm
        (map event_id (events_of slack rows)
          ++ (map event_id (events_of github rows)
              ++ (map event_id (events_of git rows)
                  ++ (map event_id (events_of notion rows)
                      ++ map event_id (events_of calendar rows)))))
        (map event_id (kept_events rows))
sources_ids-perm rows =
    rw
      (
        sym (map-append event_id (events_of notion rows) (events_of calendar rows)),
        sym (
            map-append event_id (events_of git rows)
              (events_of notion rows ++ events_of calendar rows)),
        sym (
            map-append event_id (events_of github rows)
              (events_of git rows ++ (events_of notion rows ++ events_of calendar rows))),
        sym (
            map-append event_id (events_of slack rows) (
              events_of github rows
              ++ (events_of git rows ++ (events_of notion rows ++ events_of calendar rows)))),
      )
      (Perm.map event_id (sources-perm rows))

append-perm :
    (us vs : List ProjectUnit) {xs ys : List String}
    → Perm (unit_event_ids us) xs
    → Perm (unit_event_ids vs) ys
    → Perm (unit_event_ids (us ++ vs)) (xs ++ ys)
append-perm us vs p q = rw (unit_event_ids-append us vs) (Perm.append p q)

sort_slice-ids :
    (wrong : ProjectUnit → ProjectUnit → Bool) (us : List ProjectUnit) {xs : List String}
    → Perm (unit_event_ids us) xs
    → Perm (unit_event_ids (sort_slice wrong us)) xs
unfolding unit_event_ids
sort_slice-ids wrong us p = Perm.trans (sort_slice-concat_map (λ u. u.event_ids) wrong us) p

-- The units of the captured events hold the events that are kept, each in one unit and once.
pub project_units-perm :
    (date_of : ℕ → String) (now : ℕ) (rows : List UnitRow)
    → Perm (unit_event_ids (project_units date_of now rows)) (map (λ e. e.id) (kept_events rows))
unfolding project_units
project_units-perm date_of now rows =
    let read = λ (source : Source). load_project_unit_events-perm source rows in
    sort_slice-ids _ _ (
      Perm.trans
        (append-perm _ _ (Perm.trans (slack_project_units-perm now _) (read slack)) (
          append-perm _ _ (Perm.trans (keyed_project_units-perm _ _ _) (read github)) (
            append-perm _ _ (Perm.trans (git_session_project_units-perm _) (read git)) (
              append-perm _ _ (Perm.trans (keyed_project_units-perm _ _ _) (read notion)) (
                rw (calendar_unit-ids (load_project_unit_events calendar rows)) (read calendar))))))
        (sources_ids-perm rows))

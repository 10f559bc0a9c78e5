-- ===== src/Units/Bursts.antt =====
-- Events of one place are split where nothing happened for two hours (splitProjectUnitEvents), into
-- bursts of a channel and sessions of a repository; the messages of a thread are one unit. All the
-- units of the captured events (projectUnits).
use Prim.Native.Char.{code}
use Prim.Native.String.{◌++◌ as text_append}
use workgraph.Common.{
  concat_map, ℕ, ◌+◌, String, Bool, false, not, ◌&&◌, ◌||◌, Option, none, some, value_or, List, [],
  ◌∷◌, ◌++◌, map, ◌==◌, leb, select, sort_slice, to_lower, if◌then◌else◌,
}
use workgraph.Accuracy.Quotient.{show}
use workgraph.Units.{
  ProjectUnitEvent, ProjectUnit, Members, Group, UnitRow, slack, github, git, notion, calendar,
  project_unit_quiet_gap, is_after, load_project_unit_events,
}
use workgraph.Units.Groups.{events_in, new_project_unit, group_each, keyed_project_units}

-- The gap between two times is long enough for a new group.
unfoldable pub is_quiet : ℕ → ℕ → Bool
is_quiet before after = leb (before + project_unit_quiet_gap) after

-- An event before the groups that start with its next one.
unfoldable pub put_before : ProjectUnitEvent → List Members → List Members
unfolding is_quiet
put_before event [] = record { first = event; rest = [] } ∷ []
put_before event (group ∷ groups) =
    if is_quiet event.timestamp group.first.timestamp
    then record { first = event; rest = [] } ∷ group ∷ groups
    else record { first = event; rest = group.first ∷ group.rest } ∷ groups

unfoldable pub split_project_unit_events : List ProjectUnitEvent → List Members
unfolding put_before
split_project_unit_events [] = []
split_project_unit_events (event ∷ events) = put_before event (split_project_unit_events events)

-- The text after a prefix, if it has the prefix.
unfoldable pub after_prefix : String → String → Option String
after_prefix String.[] text = some text
after_prefix (String.◌∷◌ c prefix) String.[] = none
after_prefix (String.◌∷◌ c prefix) (String.◌∷◌ d text) =
    let rest = after_prefix prefix text in
    if leb (code c) (code d) && leb (code d) (code c) then rest else none

-- strings.TrimPrefix
unfoldable pub trim_prefix : String → String → String
unfolding after_prefix value_or
trim_prefix text prefix = value_or text (after_prefix prefix text)

unfoldable pub session_unit : String → Members → ProjectUnit
unfolding new_project_unit trim_prefix
session_unit repo members =
    new_project_unit
      (text_append "git.session:"
        (text_append repo (text_append ":" (trim_prefix members.first.id "git.commit:"))))
      "git.session" members

unfoldable pub git_session_project_units : List ProjectUnitEvent → List ProjectUnit
unfolding split_project_unit_events concat_map session_unit group_each events_in
git_session_project_units events =
    concat_map
      (λ group. map (session_unit group.key) (split_project_unit_events (events_in group.members)))
      (group_each (λ event. event.payload.repo_path) events [])

abbrev pub place_key : String → String → String
place_key channel ts = text_append channel (text_append ":" ts)

-- Some message is a reply in the thread of this key.
unfoldable pub is_thread : List ProjectUnitEvent → String → Bool
is_thread [] key = false
is_thread (event ∷ events) key =
    not (event.payload.thread_ts == "")
      && place_key event.payload.channel_id event.payload.thread_ts == key
    || is_thread events key

-- The thread that a message replies in, or starts; the empty text if none.
unfoldable pub thread_of : List ProjectUnitEvent → ProjectUnitEvent → String
unfolding is_thread
thread_of events event =
    if event.payload.thread_ts == ""
      && is_thread events (place_key event.payload.channel_id event.payload.ts)
    then event.payload.ts
    else event.payload.thread_ts

unfoldable pub in_thread : List ProjectUnitEvent → ProjectUnitEvent → Bool
unfolding thread_of
in_thread events event = not (thread_of events event == "")

unfoldable pub thread_unit : Group → ProjectUnit
unfolding new_project_unit
thread_unit group =
    new_project_unit (text_append "slack.thread:" group.key) "slack.thread" group.members

-- A burst is eligible once it is over.
unfoldable pub burst_unit : ℕ → String → Members → ProjectUnit
unfolding new_project_unit is_quiet
burst_unit now channel members =
    let unit =
      new_project_unit (text_append "slack.burst:" (place_key channel members.first.payload.ts))
        "slack.burst" members in
    record unit { eligible = is_quiet unit.end now }

unfoldable pub slack_project_units : ℕ → List ProjectUnitEvent → List ProjectUnit
unfolding in_thread thread_of group_each thread_unit concat_map burst_unit split_project_unit_events
    events_in
slack_project_units now events =
    map thread_unit (
      group_each (λ event. place_key event.payload.channel_id (thread_of events event))
        (select (in_thread events) events) [])
    ++ concat_map
        (λ group.
          map (burst_unit now group.key) (split_project_unit_events (events_in group.members)))
        (group_each (λ event. event.payload.channel_id)
          (select (λ event. not (in_thread events event)) events) [])

unfoldable pub pull_request_key : ProjectUnitEvent → String
unfolding to_lower show
pull_request_key event =
    text_append (to_lower event.payload.repository) (text_append "#" (show event.payload.number))

unfoldable pub calendar_unit : ProjectUnitEvent → ProjectUnit
unfolding new_project_unit
calendar_unit event =
    new_project_unit event.id "calendar.event" (record { first = event; rest = [] })

unfoldable pub project_units : (ℕ → String) → ℕ → List UnitRow → List ProjectUnit
unfolding slack_project_units keyed_project_units git_session_project_units calendar_unit
    pull_request_key load_project_unit_events sort_slice is_after
project_units date_of now rows =
    sort_slice (λ x y. is_after x.start x.id y.start y.id)
      (slack_project_units now (load_project_unit_events slack rows)
        ++ (keyed_project_units "github.pr" (load_project_unit_events github rows) pull_request_key
            ++ (git_session_project_units (load_project_unit_events git rows)
                ++ (keyed_project_units "notion.page" (load_project_unit_events notion rows)
                      (λ event. place_key event.payload.id (date_of event.timestamp))
                    ++ map calendar_unit (load_project_unit_events calendar rows)))))

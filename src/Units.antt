-- ===== src/Units.antt =====
-- The units of work (project_units.go): captured events are grouped into threads, bursts, pull
-- requests, sessions of commits, pages of a day and meetings.
--
-- A row is one that the query on events selects, with its payload as it decodes. Go's maps of groups
-- are lists of groups in the order of their first events; the order of the units comes from the last
-- sort. A group has a first event. The date of an instant in the user's zone, and whether a commit's
-- author is the user, are arguments.
pub mod Groups
pub mod Bursts
pub mod Held
pub mod Partition
pub mod Gaps
mod Examples
use Prim.Native.Nat.{Ordering}
use Prim.Native.String.{◌++◌ as text_append, compare as text_compare}
use workgraph.Common.{
  ℕ, ◌*◌, String, Bool, true, false, not, ◌&&◌, ◌||◌, Option, none, some, List, [], ◌∷◌, ◌++◌, map,
  ◌==◌, ltb, leb, sort_slice, if◌then◌else◌,
}
use workgraph.Clock.{hour, Stamp, parse}

abbrev pub project_unit_quiet_gap : ℕ
project_unit_quiet_gap = 2 * hour

pub data Source : Type 0 where
  slack github git notion calendar other_source : Source

-- A number that is not positive is 0.
pub record ProjectUnitPayload : Type 0 where
  pub channel_id : String
  pub ts : String
  pub thread_ts : String
  pub repository : String
  pub number : ℕ
  pub repo_path : String
  pub id : String

pub record ProjectUnitEvent : Type 0 where
  pub id : String
  pub timestamp : ℕ
  pub project : String
  pub payload : ProjectUnitPayload

-- A selected row of the table events. The payload is none where it does not decode.
pub record UnitRow : Type 0 where
  pub id : String
  pub source : Source
  pub timestamp : Stamp
  pub project : String
  pub payload : Option ProjectUnitPayload
  pub is_local : Bool

pub record ProjectUnit : Type 0 where
  pub id : String
  pub kind : String
  pub container : String
  pub start : ℕ
  pub end : ℕ
  pub event_ids : List String
  pub eligible : Bool

-- The events of one unit, in order.
pub record Members : Type 0 where
  pub first : ProjectUnitEvent
  pub rest : List ProjectUnitEvent

pub record Group : Type 0 where
  pub key : String
  pub members : Members

abbrev pub same_source : Source → Source → Bool
same_source slack slack = true
same_source github github = true
same_source git git = true
same_source notion notion = true
same_source calendar calendar = true
same_source other_source other_source = true
same_source _ _ = false

unfoldable pub project_unit_event_keyed : Source → ProjectUnitPayload → Bool
project_unit_event_keyed slack payload = not (payload.channel_id == "") && not (payload.ts == "")
project_unit_event_keyed github payload = not (payload.repository == "") && ltb 0 payload.number
project_unit_event_keyed git payload = not (payload.repo_path == "")
project_unit_event_keyed notion payload = not (payload.id == "")
project_unit_event_keyed calendar payload = true
project_unit_event_keyed other_source payload = false

-- Whether a row is kept, once its time and its payload are read.
unfoldable pub keeps_row : UnitRow → ProjectUnitPayload → Bool
unfolding project_unit_event_keyed
keeps_row row payload =
    project_unit_event_keyed row.source payload
    && (not (same_source row.source git) || row.is_local)

unfoldable pub read_unit_row :
    UnitRow → Option ProjectUnitPayload → Option ℕ → Option ProjectUnitEvent
unfolding keeps_row
read_unit_row row none at = none
read_unit_row row (some payload) none = none
read_unit_row row (some payload) (some at) =
    if keeps_row row payload
    then some (record { id = row.id; timestamp = at; project = row.project; payload = payload })
    else none

unfoldable pub unit_event : UnitRow → Option ProjectUnitEvent
unfolding read_unit_row parse
unit_event row = read_unit_row row row.payload (parse row.timestamp)

unfoldable pub cons_some {ℓ} : {A : Type ℓ} → Option A → List A → List A
cons_some none xs = xs
cons_some (some x) xs = x ∷ xs

-- The events of a source, as they are read.
unfoldable pub events_of : Source → List UnitRow → List ProjectUnitEvent
unfolding unit_event cons_some
events_of source [] = []
events_of source (row ∷ rows) =
    let rest = events_of source rows in
    if same_source row.source source then cons_some (unit_event row) rest else rest

-- An earlier time, or the same and an earlier id.
unfoldable pub is_after : ℕ → String → ℕ → String → Bool
is_after t id u other =
    if ltb t u
    then false
    else if ltb u t
    then true
    else elim (text_compare other id) [ Ordering.lt ↦ true | _ ↦ false ]

unfoldable pub load_project_unit_events : Source → List UnitRow → List ProjectUnitEvent
unfolding events_of sort_slice is_after
load_project_unit_events source rows =
    sort_slice (λ x y. is_after x.timestamp x.id y.timestamp y.id) (events_of source rows)

-- ===== src/Accuracy.antt =====
-- How often the linker's own links are confirmed, and whether it may go on applying links by itself
-- (project_accuracy.go). A time is its instant in nanoseconds, a stored one its text.
--
-- The rows of the events table that are kept are those of the two pause events, in the order of
-- their rowids. Of a payload the fields that are read are kept, and of a report all but its window.
pub mod Quotient
pub mod Measure
pub mod Report
pub mod Record
pub mod Counts
pub mod Reported
pub mod Newest
pub mod Settled
pub mod Verdicts
pub mod Pauses
pub mod AutoApply
mod Examples
pub mod Entries
use workgraph.Common.{
  ℕ, ◌+◌, ◌-◌, ◌*◌, String, Bool, true, false, not, Option, none, some, List, [], ◌∷◌, ◌==◌,
  value_or, Result, ok, err, ◌>>=◌, if◌then◌else◌, bad_pause_event,
}
use workgraph.Clock.{Stamp, day, at_most}
use workgraph.Links.{LinkStore, Double, plus}
use workgraph.Accuracy.Quotient.{quotient}

abbrev pub auto_apply_accuracy_window : ℕ
auto_apply_accuracy_window = 14 * day

abbrev pub auto_apply_minimum_sample : ℕ
auto_apply_minimum_sample = 20

abbrev pub auto_apply_rejection_window : ℕ
auto_apply_rejection_window = 30 * day

-- The zero time.Time, the first of January of the year 1.
abbrev pub zero_time : ℕ
zero_time = 366 * day

pub data PauseEventType : Type 0 where
  auto_apply_paused auto_apply_resumed : PauseEventType

pub record AutoApplyPauseState : Type 0 where
  pub paused : Bool
  pub reason : String
  pub profile : Option String

-- A payload that json.Unmarshal refuses is none.
pub record PauseEvent : Type 0 where
  pub type : PauseEventType
  pub timestamp : Stamp
  pub payload : Option AutoApplyPauseState
  pub summary : String

-- The tables that a transaction on links works on.
pub record Database : Type 0 where
  pub store : LinkStore
  pub events : List PauseEvent

pub data AccuracyStatus : Type 0 where
  insufficient_data measured : AccuracyStatus

pub record ProfileLinkAccuracy : Type 0 where
  pub profile : String
  pub required : Double
  pub confirmed : ℕ
  pub corrected : ℕ
  pub undone : ℕ
  pub decided : ℕ
  pub accuracy : Double
  pub status : AccuracyStatus
  pub paused : Bool
  pub pause_reason : String
  pub pause_event : Option PauseEventType

-- The thresholds by profile, and what a profile has that is not among them.
abbrev pub AutoApplyThresholds : Type 0
AutoApplyThresholds = List (String × Double)

unfoldable pub threshold_of : String → AutoApplyThresholds → Double
unfolding quotient
threshold_of profile [] = quotient 95 100
threshold_of profile ((name, threshold) ∷ thresholds) =
    let rest = threshold_of profile thresholds in if name == profile then threshold else rest

pub record ProjectLinkAccuracyReport : Type 0 where
  pub since : ℕ
  pub profiles : List ProfileLinkAccuracy
  pub paused : Bool
  pub pause_reason : String
  pub thresholds : AutoApplyThresholds
  pub legacy : AutoApplyPauseState

-- ORDER BY timestamp DESC, rowid DESC, on the rows in the order of their rowids.
unfoldable pub insert_newest : PauseEvent → List PauseEvent → List PauseEvent
unfolding at_most
insert_newest e [] = e ∷ []
insert_newest e (f ∷ fs) =
    let rest = insert_newest e fs in
    if at_most f.timestamp e.timestamp then e ∷ f ∷ fs else f ∷ rest

unfoldable pub newest_first : List PauseEvent → List PauseEvent → List PauseEvent
unfolding insert_newest
newest_first sorted [] = sorted
newest_first sorted (e ∷ es) = newest_first (insert_newest e sorted) es

unfoldable pub read_payload : Option AutoApplyPauseState → Result AutoApplyPauseState
read_payload none = err bad_pause_event
read_payload (some state) = ok state

unfoldable pub read_states : List PauseEvent → Result (List AutoApplyPauseState)
unfolding read_payload
read_states [] = ok []
read_states (e ∷ es) = do
  state ← read_payload e.payload
  states ← read_states es
  ok (state ∷ states)

unfoldable pub is_state_of : String → Option String → Bool
is_state_of profile none = false
is_state_of profile (some name) = name == profile

-- The first state of a profile.
unfoldable pub recorded_state : String → List AutoApplyPauseState → Option AutoApplyPauseState
unfolding is_state_of
recorded_state profile [] = none
recorded_state profile (s ∷ ss) =
    let rest = recorded_state profile ss in if is_state_of profile s.profile then some s else rest

-- The first state without a profile.
unfoldable pub legacy_state : List AutoApplyPauseState → AutoApplyPauseState
legacy_state [] = record { paused = false; reason = ""; profile = none }
legacy_state (s ∷ ss) = elim s.profile [ none ↦ s | some _ ↦ legacy_state ss ]

-- The profiles that have a state.
unfoldable pub recorded_profiles : List AutoApplyPauseState → List String
recorded_profiles [] = []
recorded_profiles (s ∷ ss) = elim s.profile [
  | none ↦ recorded_profiles ss
  | some profile ↦ profile ∷ recorded_profiles ss
]

-- What holds of a profile before anything is counted: its own last state, or else the legacy one.
unfoldable pub state_before : String → List AutoApplyPauseState → AutoApplyPauseState
unfolding recorded_state legacy_state value_or
state_before profile states = value_or (legacy_state states) (recorded_state profile states)

-- The states on record, the newest first.
unfoldable pub latest_auto_apply_pause_states : List PauseEvent → Result (List AutoApplyPauseState)
unfolding newest_first read_states
latest_auto_apply_pause_states events = read_states (newest_first [] events)

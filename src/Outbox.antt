-- ===== src/Outbox.antt =====
-- The capture outbox: the tables capture_requests and capture_cursors of init.go, and the SQL that
-- bridged_capture.go, bridged_window_split.go and llm_schedule.go run on them.
--
-- A table is the list of its rows. A statement runs alone, as SQLite's transactions make it run;
-- comparisons of times are those of the stored texts, and a comparison with NULL is false.
pub mod Recycle
pub mod Claim
pub mod Capability
pub mod Cancel
pub mod Emit
pub mod Complete
pub mod Rows
pub mod Evolution
pub mod Invariant
pub mod Calls
pub mod History
pub mod Single
pub mod Holder
pub mod Failure
pub mod Granted
pub mod Ingest
pub mod Watermark
pub mod Covered
pub mod Progress
pub mod Reached
pub mod Window
pub mod Expiry
use Prim.Native.Nat.{Ordering}
use Prim.Native.String.{compare}
use workgraph.Common.{
  ℕ, zero, suc, ◌+◌, String, Bool, true, false, not, ◌&&◌, ◌||◌, Option, none, some, List, [], ◌∷◌,
  ◌++◌, ◌==◌, Result, ok, err, unique_violation, request_not_found, if◌then◌else◌,
}
use workgraph.Clock.{Stamp, before, at_most}
use workgraph.Runtime.{RuntimeFile}

pub data Kind : Type 0 where
  capture llm_task : Kind

pub data Status : Type 0 where
  pending claimed completed cancelled : Status

-- params_json: a connector's scope, kept as its text, or an llm task with its units.
pub data Params : Type 0 where
  scope : String → Params
  task : String → List String → Params

pub record Request : Type 0 where
  pub id : String
  pub connector_id : String
  pub kind : Kind
  pub since : Stamp
  pub until : Stamp
  pub params : Params
  pub status : Status
  pub attempts : ℕ
  pub available_at : Stamp
  pub last_error : Option String
  pub created_at : Stamp
  pub claim_token : Option String
  pub claimed_by : Option String
  pub claimed_at : Option Stamp
  pub lease_expires_at : Option Stamp
  pub completed_at : Option Stamp
  pub cancelled_at : Option Stamp

pub record Cursor : Type 0 where
  pub connector_id : String
  pub completed_through : Stamp
  pub updated_at : Stamp

-- The database and the runtime file. `events` are the ids of the stored events.
pub record Store : Type 0 where
  pub requests : List Request
  pub cursors : List Cursor
  pub events : List String
  pub runtime : RuntimeFile

abbrev pub with_requests : Store → List Request → Store
with_requests store rows = record store { requests = rows }

abbrev pub is_pending : Status → Bool
is_pending pending = true
is_pending _ = false

abbrev pub is_claimed : Status → Bool
is_claimed claimed = true
is_claimed _ = false

-- status IN ('pending', 'claimed')
abbrev pub is_active : Status → Bool
is_active pending = true
is_active claimed = true
is_active _ = false

abbrev pub is_capture : Kind → Bool
is_capture capture = true
is_capture llm_task = false

abbrev pub same_kind : Kind → Kind → Bool
same_kind capture capture = true
same_kind llm_task llm_task = true
same_kind _ _ = false

-- column = ?, false at NULL
abbrev pub holds : Option String → String → Bool
holds none text = false
holds (some value) text = value == text

-- column <= ?
abbrev pub holds_at_most : Option Stamp → Stamp → Bool
holds_at_most none t = false
holds_at_most (some value) t = at_most value t

-- column > ?
abbrev pub holds_after : Option Stamp → Stamp → Bool
holds_after none t = false
holds_after (some value) t = before t value

-- COALESCE(column, '')
abbrev pub or_empty : Option String → String
or_empty none = ""
or_empty (some value) = value

-- UPDATE … SET f WHERE p
unfoldable pub update : (Request → Bool) → (Request → Request) → List Request → List Request
update p f [] = []
update p f (r ∷ rs) = (if p r then f r else r) ∷ update p f rs

-- RowsAffected() of such an update
unfoldable pub affected : (Request → Bool) → List Request → ℕ
affected p [] = 0
affected p (r ∷ rs) = if p r then suc (affected p rs) else affected p rs

-- SELECT … WHERE p, of the one row that is read
unfoldable pub find : (Request → Bool) → List Request → Option Request
find p [] = none
find p (r ∷ rs) = if p r then some r else find p rs

-- A row that must be there.
unfoldable pub found_request : String → Option Request → Result Request
found_request id none = err (request_not_found id)
found_request id (some r) = ok r

abbrev pub has_id : String → Request → Bool
has_id id r = r.id == id

-- readActiveCaptureRequest
unfoldable pub is_active_for : String → Request → Bool
is_active_for connector r = r.connector_id == connector && is_active r.status

-- A row that the primary key or idx_capture_requests_active_connector forbids beside `r`
unfoldable pub conflicts : Request → Request → Bool
conflicts r other =
    r.id == other.id
    || (is_active r.status && is_active other.status && r.connector_id == other.connector_id)

unfoldable pub conflicts_any : Request → List Request → Bool
unfolding conflicts
conflicts_any r [] = false
conflicts_any r (x ∷ xs) = conflicts r x || conflicts_any r xs

-- INSERT: the new row stands last, where the unique indices allow it.
unfoldable pub insert : Request → List Request → Result (List Request)
unfolding conflicts_any
insert r rows = if conflicts_any r rows then err unique_violation else ok (rows ++ r ∷ [])

unfoldable pub cursor_of : String → List Cursor → Option Cursor
cursor_of id [] = none
cursor_of id (c ∷ cs) = if c.connector_id == id then some c else cursor_of id cs

-- UPDATE capture_cursors SET completed_through = ?, updated_at = ? WHERE connector_id = ?
unfoldable pub move_cursor : String → Stamp → Stamp → List Cursor → List Cursor
move_cursor id through now [] = []
move_cursor id through now (c ∷ cs) =
    (if c.connector_id == id then record c { completed_through = through; updated_at = now } else c)
    ∷ move_cursor id through now cs

-- DELETE FROM capture_cursors WHERE connector_id = ? (resetCaptureCursor, connector.go)
unfoldable pub reset_capture_cursor : String → List Cursor → List Cursor
reset_capture_cursor id [] = []
reset_capture_cursor id (c ∷ cs) =
    let rest = reset_capture_cursor id cs in if c.connector_id == id then rest else c ∷ rest

-- a < b between two stored texts of another kind
abbrev pub text_before : String → String → Bool
text_before a b = elim (compare a b) [ Ordering.lt ↦ true | _ ↦ false ]

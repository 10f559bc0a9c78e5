-- ===== src/Cadence/Cooldowns.antt =====
-- The cooldowns of the linker's units (associateMembersHash, recordAssociateCooldowns and
-- activeAssociateCooldowns of llm_schedule.go, and the test of buildAssociatePayload in
-- project_associate.go): a unit that a run left without a link is not sent again for a day, unless its
-- members change. The digest of a text is an argument. The table's key is the unit's id.
use workgraph.Common.{
  ℕ, ◌+◌, String, Bool, false, not, ◌||◌, Option, none, some, List, [], ◌∷◌, ◌==◌, first_with,
  upsert, sort_by, if◌then◌else◌,
}
use workgraph.Clock.{Stamp, format, before, day}
use workgraph.Accuracy.Report.{join}
use workgraph.Links.{ProjectLink}
use workgraph.Links.Record.{RunResult}

abbrev pub llm_associate_cooldown : ℕ
llm_associate_cooldown = day

-- The fields that the cooldowns read; the members are the keys of a map, each once.
pub record AssociateUnit : Type 0 where
  pub link_unit_id : String
  pub members : List String

pub record Cooldown : Type 0 where
  pub unit_id : String
  pub members_hash : String
  pub until : Stamp

-- A unit of the request as it was sent.
pub record SentUnit : Type 0 where
  pub unit_id : String
  pub hash : String

unfoldable pub was_written : String → List ProjectLink → Bool
was_written id [] = false
was_written id (link ∷ links) = link.unit_id == id || was_written id links

unfoldable pub was_skipped : String → List String → Bool
was_skipped id [] = false
was_skipped id (other ∷ others) = other == id || was_skipped id others

unfoldable pub has_progressed : RunResult → String → Bool
unfolding was_written was_skipped
has_progressed result id = was_written id result.written || was_skipped id result.skipped

-- What a request says it sent; a unit that it does not name has the empty hash.
unfoldable pub sent_hash : String → List SentUnit → String
sent_hash id [] = ""
sent_hash id (unit ∷ units) =
    let rest = sent_hash id units in if unit.unit_id == id then unit.hash else rest

unfoldable pub was_changed : Option (List SentUnit) → String → String → Bool
unfolding sent_hash
was_changed none id hash = false
was_changed (some sent) id hash = not (sent_hash id sent == hash)

module _ (digest : String → String) where
  unfoldable pub associate_members_hash : AssociateUnit → String
  unfolding join
  associate_members_hash unit = digest (join "\n" (sort_by (λ id. id) unit.members))

  unfoldable pub is_passed_over : RunResult → Option (List SentUnit) → AssociateUnit → Bool
  unfolding has_progressed was_changed
  is_passed_over result sent unit =
      has_progressed result unit.link_unit_id
      || was_changed sent unit.link_unit_id (associate_members_hash unit)

  -- INSERT ... ON CONFLICT(unit_id) DO UPDATE
  unfoldable pub cool : Stamp → AssociateUnit → List Cooldown → List Cooldown
  cool until unit =
      let hash = associate_members_hash unit in
      upsert (λ row. row.unit_id) unit.link_unit_id
        (record { unit_id = unit.link_unit_id; members_hash = hash; until = until })
        (λ row. record row { members_hash = hash; until = until })

  unfoldable pub cool_each :
      Stamp
      → RunResult
      → Option (List SentUnit)
      → List AssociateUnit
      → List Cooldown
      → List Cooldown
  unfolding is_passed_over cool
  cool_each until result sent [] rows = rows
  cool_each until result sent (unit ∷ units) rows =
      cool_each until result sent units
        (if is_passed_over result sent unit then rows else cool until unit rows)

  unfoldable pub record_associate_cooldowns :
      ℕ → RunResult → Option (List SentUnit) → List AssociateUnit → List Cooldown → List Cooldown
  unfolding cool_each
  record_associate_cooldowns now result sent units rows =
      cool_each (format (now + llm_associate_cooldown)) result sent units rows

unfoldable pub active_since : Stamp → List Cooldown → List Cooldown
active_since now [] = []
active_since now (row ∷ rows) =
    let rest = active_since now rows in if before now row.until then row ∷ rest else rest

unfoldable pub active_associate_cooldowns : ℕ → List Cooldown → List Cooldown
unfolding active_since
active_associate_cooldowns now rows = active_since (format now) rows

unfoldable pub is_hash : String → Option Cooldown → Bool
is_hash hash none = false
is_hash hash (some row) = row.members_hash == hash

-- The unit is left out of the payload.
unfoldable pub is_cooled : (String → String) → List Cooldown → AssociateUnit → Bool
unfolding is_hash associate_members_hash
is_cooled digest cooled unit =
    is_hash (associate_members_hash digest unit)
      (first_with (λ row. row.unit_id) unit.link_unit_id cooled)

-- ===== src/Cadence/Examples.antt =====
-- Runs of the scheduler of the linker on a morning, and the witness.
use workgraph.Common.{
  none, arith, String, ◌+◌, first_with, sort_by, insert_by, if◌then◌else◌, ℕ, ◌≡◌, refl, ◌≤◌, true,
  false, List, [], ◌∷◌,
}
use workgraph.Cadence.{Outcome, LlmAssociateCadence, Round, new_llm_associate_cadence, is_day}
use workgraph.Cadence.Daily.{early_runs, early_runs_bound}
use workgraph.Cadence.Cooldowns.{
  AssociateUnit, Cooldown, llm_associate_cooldown, associate_members_hash, is_passed_over,
  record_associate_cooldowns, active_associate_cooldowns, is_cooled, has_progressed,
}
use workgraph.Cadence.Cooled.{record_associate_cooldowns_lem, record_associate_cooldowns-day}
use workgraph.Clock.{format, before, day}
use workgraph.Links.Record.{RunResult}
use workgraph.Accuracy.Report.{join}

abbrev made : Outcome
made = record { failed = false; eligible = true; created = true }

abbrev spent : Outcome
spent = record { failed = false; eligible = false; created = false }

-- A run whose request could not be executed.
abbrev broken : Outcome
broken = record { failed = true; eligible = true; created = true }

abbrev minute : ℕ → Outcome → Round
minute n outcome = record {
  now = record { at = n; date = 4; hour = 5 };
  scheduled = true;
  outcome = outcome;
}

abbrev night : LlmAssociateCadence
night = new_llm_associate_cadence (record { at = 0; date = 4; hour = 3 })

abbrev morning : List Round
morning = minute 1 made ∷ minute 2 made ∷ minute 3 broken ∷ minute 4 spent ∷ minute 5 made ∷ []

-- The first run is no early one, and the third, which fails, ends the daily run.
morning_runs : early_runs morning night ≡ 2
unfolding early_runs new_llm_associate_cadence
morning_runs = refl

-- A daemon that starts after the hour waits for the next date.
late_start : (new_llm_associate_cadence (record { at = 0; date = 4; hour = 9 })).daily_remaining ≡ 0
unfolding new_llm_associate_cadence
late_start = refl

early_runs_example : early_runs morning night ≤ 10
unfolding new_llm_associate_cadence is_day
early_runs_example = early_runs_bound 4 morning night (refl, (refl, (refl, (refl, (refl, tt)))))

-- Two units of a run. The run made the first one a link; the second got none, and had a row before.
abbrev first_unit : AssociateUnit
first_unit = record { link_unit_id = "u1"; members = "b" ∷ "a" ∷ [] }

abbrev second_unit : AssociateUnit
second_unit = record { link_unit_id = "u2"; members = "d" ∷ "c" ∷ [] }

abbrev sent_units : List AssociateUnit
sent_units = first_unit ∷ second_unit ∷ []

abbrev old_rows : List Cooldown
old_rows = record { unit_id = "u2"; members_hash = "x"; until = format 7 } ∷ []

abbrev skipped_first : RunResult
skipped_first = record { written = []; skipped = "u1" ∷ [] }

same_text : String → String
same_text text = text

members_text : associate_members_hash same_text second_unit ≡ "c\nd"
unfolding associate_members_hash join sort_by insert_by same_text
members_text = refl

record_associate_cooldowns_example :
    is_cooled same_text
      (active_associate_cooldowns 9
        (record_associate_cooldowns same_text 5 skipped_first none sent_units old_rows))
      first_unit
    ≡ (if is_passed_over same_text skipped_first none first_unit
        then is_cooled same_text (active_associate_cooldowns 9 old_rows) first_unit
        else before (format 9) (format (5 + llm_associate_cooldown)))
unfolding first_with
record_associate_cooldowns_example =
    record_associate_cooldowns_lem same_text 5 9 skipped_first none sent_units old_rows first_unit
      (refl, (refl, tt)) (refl, tt) refl

record_associate_cooldowns-day_example :
    (is_cooled same_text
        (active_associate_cooldowns 9
          (record_associate_cooldowns same_text 5 skipped_first none sent_units old_rows))
        second_unit
      ≡ true)
    × (is_cooled same_text
          (active_associate_cooldowns
            (day + day)
            (record_associate_cooldowns same_text 5 skipped_first none sent_units old_rows))
          second_unit
        ≡ false)
unfolding first_with is_passed_over has_progressed
record_associate_cooldowns-day_example =
    record_associate_cooldowns-day same_text 5 9 (day + day) skipped_first none sent_units old_rows
      second_unit (refl, (refl, tt)) (refl, tt) refl refl (omega arith) (omega arith)

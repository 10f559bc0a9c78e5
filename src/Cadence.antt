-- ===== src/Cadence.antt =====
-- When the daemon schedules the linker (llmAssociateCadence of llm_schedule.go, and the loop of
-- runLLMAssociateScheduler of run.go). A local time is its instant, its date and its hour. The
-- remaining requests are never below 0, since they are counted down only where there are some. Daily
-- is about the requests of one date; Cooldowns is what a run leaves for the next ones, and Open and
-- Cooled which units it keeps out.
pub mod Cooldowns
pub mod Open
pub mod Cooled
pub mod Daily
mod Examples
use workgraph.Common.{
  ℕ, zero, suc, ◌+◌, Bool, true, false, not, ◌&&◌, ◌||◌, Option, none, some, ltb, leb,
  if◌then◌else◌,
}
use workgraph.Clock.{hour}

abbrev pub llm_associate_hourly : ℕ
llm_associate_hourly = hour

abbrev pub llm_associate_daily_hour : ℕ
llm_associate_daily_hour = 5

abbrev pub llm_associate_daily_requests : ℕ
llm_associate_daily_requests = 10

pub record Moment : Type 0 where
  pub at : ℕ
  pub date : ℕ
  pub hour : ℕ

-- The zero time and the empty date are none.
pub record LlmAssociateCadence : Type 0 where
  pub last_hourly : Option ℕ
  pub daily_day : Option ℕ
  pub daily_remaining : ℕ

-- How a scheduled run ended.
pub record Outcome : Type 0 where
  pub failed : Bool
  pub eligible : Bool
  pub created : Bool

unfoldable pub new_llm_associate_cadence : Moment → LlmAssociateCadence
new_llm_associate_cadence now = record {
  last_hourly = none;
  daily_day = if leb llm_associate_daily_hour now.hour then some now.date else none;
  daily_remaining = 0;
}

unfoldable pub is_day : Option ℕ → ℕ → Bool
is_day none date = false
is_day (some day) date = leb day date && leb date day

-- The daily run begins at its hour.
unfoldable pub begin_day : Moment → LlmAssociateCadence → LlmAssociateCadence
unfolding is_day
begin_day now cadence =
    if leb llm_associate_daily_hour now.hour && not (is_day cadence.daily_day now.date)
    then record cadence {
      daily_day = some now.date;
      daily_remaining = llm_associate_daily_requests;
    }
    else cadence

-- There was no run, or the last one is an hour ago.
unfoldable pub hour_passed : Option ℕ → ℕ → Bool
hour_passed none now = true
hour_passed (some last) now = leb (last + llm_associate_hourly) now

unfoldable pub is_due : Moment → LlmAssociateCadence → Bool
unfolding hour_passed
is_due now cadence = ltb 0 cadence.daily_remaining || hour_passed cadence.last_hourly now.at

unfoldable pub remaining_after : Outcome → ℕ → ℕ
remaining_after outcome zero = 0
remaining_after outcome (suc n) =
    if outcome.failed || not outcome.eligible then 0 else if outcome.created then n else suc n

unfoldable pub record_run : Moment → Outcome → LlmAssociateCadence → LlmAssociateCadence
unfolding remaining_after
record_run now outcome cadence = record cadence {
  last_hourly = some now.at;
  daily_remaining = remaining_after outcome cadence.daily_remaining;
}

-- One round of the loop: the time, whether the linker is routed, and how a run would end.
pub record Round : Type 0 where
  pub now : Moment
  pub scheduled : Bool
  pub outcome : Outcome

unfoldable pub runs_now : Round → LlmAssociateCadence → Bool
unfolding is_due begin_day
runs_now round cadence = is_due round.now (begin_day round.now cadence) && round.scheduled

unfoldable pub after_round : Round → LlmAssociateCadence → LlmAssociateCadence
unfolding runs_now begin_day record_run
after_round round cadence =
    let begun = begin_day round.now cadence in
    if runs_now round cadence then record_run round.now round.outcome begun else begun

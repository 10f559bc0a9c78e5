-- ===== src/Cadence/Daily.antt =====
-- How many requests the daily run makes.
use workgraph.Common.{
  ℕ, zero, suc, ◌+◌, ◌≤◌, ◌≡◌, Bool, true, false, not, ◌&&◌, ◌||◌, List, [], ◌∷◌, ltb,
  if◌then◌else◌, arith, All, subst,
}
use workgraph.Cadence.{
  Moment, Round, Outcome, LlmAssociateCadence, llm_associate_daily_requests, is_day, begin_day,
  hour_passed, is_due, remaining_after, record_run, runs_now, after_round,
}

-- A run that comes less than an hour after the last one, and makes a request, whether or not it then
-- fails.
unfoldable pub is_early : Round → LlmAssociateCadence → Bool
unfolding hour_passed
is_early round cadence =
    runs_now round cadence
    && not (hour_passed cadence.last_hourly round.now.at)
    && round.outcome.created

unfoldable pub early_runs : List Round → LlmAssociateCadence → ℕ
unfolding is_early after_round
early_runs [] cadence = 0
early_runs (r ∷ rs) cadence =
    (if is_early r cadence then 1 else 0) + early_runs rs (after_round r cadence)

-- What a cadence may still make on a date.
unfoldable pub allowance : ℕ → LlmAssociateCadence → ℕ
unfolding is_day
allowance date cadence =
    cadence.daily_remaining
    + (if is_day cadence.daily_day date then 0 else llm_associate_daily_requests)

early_remaining :
    (outcome : Outcome) (n : ℕ) (passed scheduled : Bool)
    → (if ((ltb 0 n || passed) && scheduled) && not passed && outcome.created then 1 else 0)
        + (if (ltb 0 n || passed) && scheduled then remaining_after outcome n else n)
      ≤ n
unfolding remaining_after
early_remaining outcome zero true true = ground arith
early_remaining outcome zero true false = ground arith
early_remaining outcome zero false scheduled = ground arith
early_remaining outcome (suc n) passed scheduled = ground arith

begin_day-allowance :
    (date : ℕ) (now : Moment) (cadence : LlmAssociateCadence)
    → now.date ≡ date
    → allowance date (begin_day now cadence) ≤ allowance date cadence
unfolding allowance begin_day is_day
begin_day-allowance date now cadence e = ground arith

begin_day-last_hourly :
    (now : Moment) (cadence : LlmAssociateCadence)
    → (begin_day now cadence).last_hourly ≡ cadence.last_hourly
unfolding begin_day
begin_day-last_hourly now cadence = ground arith

after_round-daily_day :
    (r : Round) (cadence : LlmAssociateCadence)
    → (after_round r cadence).daily_day ≡ (begin_day r.now cadence).daily_day
unfolding after_round record_run
after_round-daily_day r cadence = ground arith

after_round-daily_remaining :
    (r : Round) (cadence : LlmAssociateCadence)
    → (after_round r cadence).daily_remaining ≡ (
        if runs_now r cadence
        then remaining_after r.outcome (begin_day r.now cadence).daily_remaining
        else (begin_day r.now cadence).daily_remaining)
unfolding after_round record_run
after_round-daily_remaining r cadence = ground arith

-- A run that is early takes one request of the allowance.
round-begun :
    (r : Round) (cadence : LlmAssociateCadence)
    → (if is_early r cadence then 1 else 0) + (after_round r cadence).daily_remaining
      ≤ (begin_day r.now cadence).daily_remaining
unfolding is_early runs_now is_due
round-begun r cadence =
    let begun = begin_day r.now cadence in
    rw (after_round-daily_remaining r cadence) (
      subst
        (λ last.
          (if runs_now r cadence && not (hour_passed last r.now.at) && r.outcome.created
              then 1
              else 0)
            + (if runs_now r cadence
                then remaining_after r.outcome begun.daily_remaining
                else begun.daily_remaining)
          ≤ begun.daily_remaining)
        (begin_day-last_hourly r.now cadence)
        (early_remaining r.outcome begun.daily_remaining (hour_passed begun.last_hourly r.now.at)
          r.scheduled))

round-allowance :
    (date : ℕ) (r : Round) (cadence : LlmAssociateCadence)
    → r.now.date ≡ date
    → (if is_early r cadence then 1 else 0) + allowance date (after_round r cadence)
      ≤ allowance date cadence
unfolding allowance
round-allowance date r cadence e =
    let begun = begin_day-allowance date r.now cadence e in
    let day = after_round-daily_day r cadence in
    let step = round-begun r cadence in rw day (omega arith)

-- However often the scheduler looks on one date, with whatever results, the runs that come less
-- than an hour after the last one and make a request, the runs that fail after it among them, are at
-- most those left over from before plus, where the daily run has not begun on that date, ten.
pub early_runs_bound :
    (date : ℕ) (rounds : List Round) (cadence : LlmAssociateCadence)
    → All (λ r. r.now.date ≡ date) rounds
    → early_runs rounds cadence
      ≤ cadence.daily_remaining + (if is_day cadence.daily_day date then 0 else 10)
unfolding early_runs allowance
early_runs_bound date [] cadence same = omega arith
early_runs_bound date (r ∷ rs) cadence (e, same) =
    let step = round-allowance date r cadence e in
    let rest = early_runs_bound date rs (after_round r cadence) same in omega arith

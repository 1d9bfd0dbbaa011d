-- ===== src/Scheduler/Planner.antt =====
-- services/server/src/scheduler/planner.rs: `plan` and what it calls. `run_scheduler` around it is a
-- timer loop that hands each claimed Schedule to `plan` and the plan to the store.
pub mod Cursor
pub mod Deadline
use Prim.Native.String.{String}
use crono.Prelude.{
  ℕ, zero, suc, ◌+◌, ◌-◌, ◌*◌, Bool, true, false, ◌&&◌, Option, none, some, List, [], ◌∷◌, ◌++◌,
  length, ltb, leb, if◌then◌else◌, Text, Result, ok, err, ◌>>=◌,
}
use crono.Domain.Schedule.{
  MisfirePolicy, CatchupPolicy, ScheduleTiming, Schedule, PlannedOccurrence, SchedulePlan,
}
use crono.Scheduler.Misfire.{MisfireDecision, nanos_per_second, lateness, decide_misfire}
use crono.Scheduler.Recurrence.{Calendar, RecurrenceError, next_cron_occurrence}

pub dispatch_deadline : MisfirePolicy → Option ℕ → ℕ → Option ℕ
dispatch_deadline MisfirePolicy.run_late grace_seconds scheduled_at = none
dispatch_deadline MisfirePolicy.skip grace_seconds scheduled_at =
    some (scheduled_at + 30 * nanos_per_second)
dispatch_deadline MisfirePolicy.grace_period none scheduled_at = none
dispatch_deadline MisfirePolicy.grace_period (some seconds) scheduled_at =
    some (scheduled_at + seconds * nanos_per_second)

-- the `match decision` of `occurrence`
pub decided : Schedule → ℕ → Option String → MisfireDecision → PlannedOccurrence
decided schedule scheduled_at reason (MisfireDecision.execute late) = record {
  scheduled_at = scheduled_at;
  execute = true;
  lateness_seconds = late;
  reason = reason;
  dispatch_deadline =
      dispatch_deadline schedule.misfire_policy schedule.misfire_grace_seconds scheduled_at;
}
decided schedule scheduled_at reason (MisfireDecision.skip late) = record {
  scheduled_at = scheduled_at;
  execute = false;
  lateness_seconds = late;
  reason = some "misfire policy rejected the late occurrence";
  dispatch_deadline = none;
}

unfoldable pub occurrence : Schedule → ℕ → ℕ → Option String → PlannedOccurrence
unfolding decided dispatch_deadline decide_misfire
occurrence schedule scheduled_at now reason =
    decided schedule scheduled_at reason
      (decide_misfire schedule.misfire_policy schedule.misfire_grace_seconds scheduled_at now)

unfoldable pub skipped : ℕ → ℕ → String → PlannedOccurrence
skipped scheduled_at now reason = record {
  scheduled_at = scheduled_at;
  execute = false;
  lateness_seconds = lateness scheduled_at now;
  reason = some reason;
  dispatch_deadline = none;
}

abbrev pub skip_summary : String
skip_summary = "catch-up policy skipped missed occurrences"

abbrev pub age_summary : String
age_summary = "occurrences older than max_catchup_age were summarized"

abbrev pub excess_summary : String
excess_summary = "occurrences exceeding max_catchup_runs were summarized"

-- The occurrences collected so far, and the cursor.
abbrev pub Progress : Type 0
Progress = List PlannedOccurrence × ℕ

-- In the functions below `next` is `next_cron_occurrence(expression, timezone, …)`.
module _ (next : ℕ → Result RecurrenceError ℕ) (schedule : Schedule) (now : ℕ) where
  -- `while cursor <= now && occurrences.len() < limit`
  unfoldable pub catch_up_loop : ℕ → ℕ → Progress → Result RecurrenceError Progress
  catch_up_loop zero limit (occurrences, cursor) = ok (occurrences, cursor)
  catch_up_loop (suc fuel) limit (occurrences, cursor) =
      let rest = next cursor >>= λ later.
      catch_up_loop fuel limit (occurrences ++ occurrence schedule cursor now none ∷ [], later) in
      if leb cursor now && ltb (length occurrences) limit then rest else ok (occurrences, cursor)

  -- the occurrences older than `max_catchup_age_seconds`
  unfoldable pub summarize_old : ℕ → Result RecurrenceError Progress
  summarize_old first_due =
      let oldest = now - schedule.max_catchup_age_seconds * nanos_per_second in
      if ltb first_due oldest
      then (do cursor ← next oldest; ok (skipped first_due now age_summary ∷ [], cursor))
      else ok ([], first_due)

  -- the occurrences that exceed `max_catchup_runs`
  unfoldable pub summarize_excess : Progress → Result RecurrenceError Progress
  summarize_excess (occurrences, cursor) =
      if leb cursor now
      then (do later ← next now; ok (occurrences ++ skipped cursor now excess_summary ∷ [], later))
      else ok (occurrences, cursor)

  -- the `match schedule.catchup_policy` of `plan_cron`
  unfoldable pub catch_up : CatchupPolicy → ℕ → Result RecurrenceError Progress
  catch_up CatchupPolicy.skip first_due = do
    later ← next now
    ok (skipped first_due now skip_summary ∷ [], later)
  catch_up CatchupPolicy.run_once first_due = do
    later ← next now
    ok (occurrence schedule first_due now (some "coalesced missed occurrences") ∷ [], later)
  catch_up CatchupPolicy.catch_up first_due = do
    start ← summarize_old first_due
    caught_up ← catch_up_loop schedule.max_catchup_runs schedule.max_catchup_runs start
    summarize_excess caught_up

  unfoldable pub plan_cron : ℕ → ℕ → Result RecurrenceError SchedulePlan
  plan_cron owner first_due = do
    (occurrences, next_run_at) ← catch_up schedule.catchup_policy first_due
    ok (record {
      schedule_id = schedule.id;
      owner = owner;
      occurrences = occurrences;
      next_run_at = some next_run_at;
      disable = false;
    })

-- The scan never runs out of fuel (`next_cron_occurrence-ne-none`), so the last case is not reached.
abbrev pub or_out_of_range : Option (Result RecurrenceError ℕ) → Result RecurrenceError ℕ
or_out_of_range (some r) = r
or_out_of_range none = err RecurrenceError.out_of_range

-- the `match &schedule.timing` of `plan`
unfoldable pub plan_timing :
    Calendar → Schedule → ℕ → ℕ → ℕ → ScheduleTiming → Result RecurrenceError SchedulePlan
plan_timing c schedule owner now first_due (ScheduleTiming.once execute_at) = ok (record {
  schedule_id = schedule.id;
  owner = owner;
  occurrences = occurrence schedule first_due now none ∷ [];
  next_run_at = none;
  disable = true;
})
plan_timing c schedule owner now first_due (ScheduleTiming.cron expression timezone) =
    plan_cron (λ after. or_out_of_range (next_cron_occurrence c expression timezone after)) schedule
      now owner first_due

-- the `let Some(first_due) = schedule.next_run_at else` of `plan`
unfoldable pub plan_from :
    Calendar → Schedule → ℕ → ℕ → Option ℕ → Result RecurrenceError SchedulePlan
plan_from c schedule owner now none = ok (record {
  schedule_id = schedule.id;
  owner = owner;
  occurrences = [];
  next_run_at = none;
  disable = true;
})
plan_from c schedule owner now (some first_due) =
    plan_timing c schedule owner now first_due schedule.timing

unfoldable pub plan : Calendar → Schedule → ℕ → ℕ → Result RecurrenceError SchedulePlan
plan c schedule owner now = plan_from c schedule owner now schedule.next_run_at

-- ===== src/Tests/Scheduler.antt =====
-- A calendar in which every hour begins an occurrence, and a Schedule that was missed.
use crono.Prelude.{
  ℕ, ◌+◌, ◌*◌, ◌/◌, ◌%◌, ◌<◌, ◌≡◌, ◌↔◌, ◌⊎◌, refl, true, false, none, some, [], ◌∷◌, Text, codes,
  Result, ok, err, arith,
}
use crono.Domain.Json
use crono.Domain.Schedule.{
  MisfirePolicy, CatchupPolicy, ScheduleTiming, TargetSelection, Schedule, SchedulePlan,
}
use crono.Scheduler.Misfire.{nanos_per_second}
use crono.Scheduler.Recurrence.{
  Calendar, CronFields, RecurrenceError, WallClock, nanos_per_minute, parsed_fields,
  next_cron_occurrence, prepare, resume, settle, to_stored, first_utc_match, matches,
}
use crono.Scheduler.Recurrence.Search.{IsFirstMatch}
use crono.Scheduler.Recurrence.Next.{
  next_cron_occurrence-ne-none, next_cron_occurrence-IsFirstMatch,
}
use crono.Scheduler.Planner.{
  plan, plan_from, plan_timing, plan_cron, catch_up, catch_up_loop, summarize_old, summarize_excess,
  occurrence, skipped,
}
use crono.Scheduler.Planner.Deadline.{occurrence_execute_iff, occurrence_deadline, Tolerated}
use crono.Scheduler.Planner.Cursor.{IsForward, plan-IsForward}

abbrev hour : ℕ
hour = 60 * nanos_per_minute

abbrev clock : ℕ → WallClock
clock t = record {
  minute = t / nanos_per_minute % 60;
  hour = 0;
  day = 1;
  month = 1;
  num_days_from_sunday = 0;
}

-- It reads a field as its least value, and answers with the next whole hour.
abbrev pub hourly : Calendar
hourly = record {
  Tz = Unit {0};
  parse_zone = λ text. some tt;
  parse_field = λ text low high. some (low ∷ []);
  parse_cron = λ text zone t. some ((t / hour + 1) * hour);
  with_timezone = λ zone t. clock t;
  max_utc = 1000 * hour;
  min_nanos = 0;
  max_nanos = 1000 * hour;
}

abbrev expression : Text
expression = codes "0 0 1 1 0"

abbrev zone_name : Text
zone_name = codes "UTC"

abbrev schedule : Schedule
schedule = record {
  id = 1;
  namespace_id = 2;
  name = codes "hourly";
  job_id = 3;
  target = TargetSelection.target 4;
  inputs = Json.Value.null;
  timing = ScheduleTiming.cron expression zone_name;
  enabled = true;
  next_run_at = some hour;
  last_run_at = none;
  misfire_policy = MisfirePolicy.skip;
  misfire_grace_seconds = none;
  catchup_policy = CatchupPolicy.catch_up;
  max_catchup_runs = 2;
  max_catchup_age_seconds = 86_400;
  revision = 1;
  created_at = 0;
  updated_at = 0;
}

abbrev now : ℕ
now = 3 * hour + 5

abbrev no_plan : SchedulePlan
no_plan = record {
  schedule_id = 0;
  owner = 0;
  occurrences = [];
  next_run_at = none;
  disable = true;
}

abbrev planned : Result RecurrenceError SchedulePlan → SchedulePlan
planned (ok p) = p
planned (err e) = no_plan

hourly_later :
    (zone : Unit {0}) (a b : ℕ) → Calendar.parse_cron hourly expression zone a ≡ some b → a < b
hourly_later zone a b h = ground arith

plan_runs : plan hourly schedule 9 now ≡ ok (planned (plan hourly schedule 9 now))
unfolding plan plan_from plan_timing plan_cron catch_up catch_up_loop summarize_old summarize_excess
    next_cron_occurrence prepare resume settle to_stored first_utc_match matches parsed_fields
    occurrence skipped
plan_runs = refl

-- two late occurrences, and a third that stands for the rest
plan_stores : (planned (plan hourly schedule 9 now)).next_run_at ≡ some (4 * hour)
unfolding plan plan_from plan_timing plan_cron catch_up catch_up_loop summarize_old summarize_excess
    next_cron_occurrence prepare resume settle to_stored first_utc_match matches parsed_fields
    occurrence skipped
plan_stores = refl

plan-IsForward_example : IsForward now hour 2 (planned (plan hourly schedule 9 now))
plan-IsForward_example =
    plan-IsForward hourly schedule 9 now hour expression zone_name
      (planned (plan hourly schedule 9 now)) hourly_later refl refl (omega arith) plan_runs

next_runs : next_cron_occurrence hourly expression zone_name 7 ≡ some (ok hour)
unfolding next_cron_occurrence prepare resume settle to_stored first_utc_match matches parsed_fields
next_runs = refl

next_cron_occurrence-ne-none_example : ¬ (next_cron_occurrence hourly expression zone_name 7 ≡ none)
next_cron_occurrence-ne-none_example = next_cron_occurrence-ne-none hourly expression zone_name 7

next_cron_occurrence-IsFirstMatch_example :
    (fields : CronFields) × (zone : Unit {0}) × (library_next : ℕ) × (parsed_fields hourly
        expression
      ≡ ok fields)
    × (Calendar.parse_zone hourly zone_name ≡ some zone)
    × (Calendar.parse_cron hourly expression zone 7 ≡ some library_next)
    × IsFirstMatch hourly fields zone 7 library_next hour
next_cron_occurrence-IsFirstMatch_example =
    next_cron_occurrence-IsFirstMatch hourly expression zone_name 7 hour hourly_later next_runs

occurrence_execute_iff_example :
    (occurrence schedule hour now none).execute ≡ true ↔ Tolerated MisfirePolicy.skip none hour now
occurrence_execute_iff_example = occurrence_execute_iff schedule hour now none

abbrev deadline : ℕ
deadline = hour + 30 * nanos_per_second

occurrence_deadline_example :
    ((occurrence schedule hour now none).execute ≡ true ↔ (now < deadline + nanos_per_second))
    × (((occurrence schedule hour now none).execute ≡ false)
        ⊎ ((occurrence schedule hour now none).dispatch_deadline ≡ some deadline))
unfolding occurrence
occurrence_deadline_example = occurrence_deadline schedule hour now deadline none refl

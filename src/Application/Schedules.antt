-- ===== src/Application/Schedules.antt =====
-- application/service.rs: the use cases on Schedules.
use crono.Prelude.{
  List, ℕ, Bool, true, false, ◌&&◌, Option, none, some, ◌==◌, Text, codes, trim, Result, ok, err,
  guard,
}
use crono.Domain.Json.{Value}
use crono.Domain.Schedule.{ScheduleTiming}
use crono.Domain.Entities.{Target}
use crono.Authorization.Capabilities.{Capability, ResourceScope}
use crono.Scheduler.Recurrence.{Calendar, next_cron_occurrence}
use crono.Scheduler.Planner.{or_out_of_range}
use crono.Application.Model.{CreateScheduleInput, Page, JobRecord, ScheduleRecord}
use crono.Application.Program.{
  ApplicationError, invalid_request, Call, Program, ◌>>=◌, authorized, visible, store, checked,
}
use crono.Application.Checks.{
  or_invalid, parsed_name, page_limit, page_cursor, validate_schedule_policy,
}
use crono.Application.JobChecks.{validate_input_object, validate_renderings}
use crono.Application.Targets.{execution_targets}

unfoldable pub list_schedules : ℕ → Option ℕ → Option Text → Program (Page ScheduleRecord)
list_schedules namespace_id limit after = do
  _ ← authorized Capability.schedule_read (ResourceScope.namespace namespace_id)
  visibility ← visible Capability.schedule_read
  size ← checked (page_limit limit)
  cursor ← checked (page_cursor after)
  _ ← store (Call.get_namespace namespace_id)
  store (Call.list_schedules namespace_id visibility size cursor)

unfoldable pub get_schedule : ℕ → Program ScheduleRecord
get_schedule id = do
  _ ← authorized Capability.schedule_read (ResourceScope.schedule id)
  store (Call.get_schedule id)

-- the libraries under `next_cron_occurrence`, and the size of an encoding in JSON
module _ (calendar : Calendar) (encoded_len : Value → Option ℕ) where
  unfoldable pub next_occurrence : Text → Text → ℕ → Result ApplicationError ℕ
  next_occurrence expression timezone now =
      or_invalid "cron_expression"
        (or_out_of_range (next_cron_occurrence calendar expression timezone now))

  -- the `match input.timing`: the expression, the instant, the zone and the next run
  unfoldable pub stored_timing :
      ℕ → ScheduleTiming → Result ApplicationError (Option Text × Option ℕ × Text × ℕ)
  unfolding next_occurrence
  stored_timing now (ScheduleTiming.cron expression timezone) =
      elim (next_occurrence (trim expression) (trim timezone) now) [
        | ok next ↦ ok (some (trim expression), none, trim timezone, next)
        | err failure ↦ err failure
      ]
  stored_timing now (ScheduleTiming.once execute_at) =
      ok (none, some execute_at, codes "UTC", execute_at)

  -- `create_schedule` behind the Job and the selection
  unfoldable pub schedule_targets :
      ℕ
      → Text
      → CreateScheduleInput
      → JobRecord
      → ℕ × Option Value × List Target
      → Program ScheduleRecord
  unfolding stored_timing
  schedule_targets namespace_id name input job (selection_namespace, target_set_inputs, targets) =
      do
        _ ← checked (
            guard (job.job.namespace_id == namespace_id && selection_namespace == namespace_id)
              invalid_request)
        _ ← checked (validate_renderings encoded_len job.job target_set_inputs targets input.inputs)
        _ ← checked (
            validate_schedule_policy input.misfire_policy input.misfire_grace_seconds
              input.max_catchup_runs input.max_catchup_age_seconds)
        now ← Program.now_utc (λ t. checked (ok t))
        (cron_expression, execute_at, timezone, next_run_at) ←
            checked (stored_timing now input.timing)
        store (
            Call.create_schedule (record {
              namespace_id = namespace_id;
              name = name;
              job_id = input.job_id;
              target = input.target;
              inputs = input.inputs;
              cron_expression = cron_expression;
              execute_at = execute_at;
              timezone = timezone;
              next_run_at = next_run_at;
              misfire_policy = input.misfire_policy;
              misfire_grace_seconds = input.misfire_grace_seconds;
              catchup_policy = input.catchup_policy;
              max_catchup_runs = input.max_catchup_runs;
              max_catchup_age_seconds = input.max_catchup_age_seconds;
            }))

  unfoldable pub create_schedule : ℕ → CreateScheduleInput → Program ScheduleRecord
  unfolding schedule_targets execution_targets
  create_schedule namespace_id input = do
    name ← checked (parsed_name input.name)
    _ ← checked (validate_input_object encoded_len input.inputs)
    _ ← authorized Capability.schedule_create (ResourceScope.namespace namespace_id)
    _ ← authorized Capability.job_read (ResourceScope.job input.job_id)
    _ ← authorized Capability.job_execute (ResourceScope.job input.job_id)
    _ ← authorized Capability.run_create (ResourceScope.namespace namespace_id)
    job ← store (Call.get_job input.job_id)
    selected ← execution_targets input.target
    schedule_targets namespace_id name input job selected

  -- the `match &record.schedule.timing` of an enabled Schedule, which reads the clock for a cron
  unfoldable pub enabled_next : ScheduleTiming → Program (Option ℕ)
  unfolding next_occurrence
  enabled_next (ScheduleTiming.cron expression timezone) = do
    now ← Program.now_utc (λ t. checked (ok t))
    next ← checked (next_occurrence expression timezone now)
    checked (ok (some next))
  enabled_next (ScheduleTiming.once execute_at) = checked (ok (some execute_at))

  -- the enabling of a Schedule behind its selection
  unfoldable pub enable_targets :
      ScheduleRecord → ℕ × Option Value × List Target → Program (Option ℕ)
  unfolding enabled_next
  enable_targets found (selection_namespace, target_set_inputs, targets) = do
    _ ← checked (guard (selection_namespace == found.schedule.namespace_id) invalid_request)
    enabled_next found.schedule.timing

  -- the `if enabled`
  unfoldable pub next_when : Bool → ScheduleRecord → Program (Option ℕ)
  unfolding enable_targets execution_targets
  next_when false found = checked (ok none)
  next_when true found = do
    _ ← authorized Capability.job_read (ResourceScope.job found.schedule.job_id)
    _ ← authorized Capability.job_execute (ResourceScope.job found.schedule.job_id)
    _ ← authorized Capability.run_create (ResourceScope.namespace found.schedule.namespace_id)
    selected ← execution_targets found.schedule.target
    enable_targets found selected

  unfoldable pub set_schedule_enabled : ℕ → ℕ → Bool → Program ScheduleRecord
  unfolding get_schedule next_when
  set_schedule_enabled id revision enabled = do
    found ← get_schedule id
    _ ← authorized Capability.schedule_update (ResourceScope.schedule id)
    next ← next_when enabled found
    store (Call.set_schedule_enabled found.schedule.id revision enabled next)

-- ===== src/Dispatch/Create.antt =====
-- Creation of Runs with their first Attempt and its outbox row: `create_attempt_and_outbox`,
-- `create_normal_run` and `insert_scheduled_occurrence`. The UUIDs that `Uuid::now_v7` draws are
-- arguments; a key that exists already fails the INSERT, as PostgreSQL does.
use Prim.Native.String.{String}
use crono.Prelude.{
  min, ℕ, Bool, true, false, ◌||◌, Option, none, some, ◌∷◌, ◌&&◌, leb, if◌then◌else◌, Text, Result,
  ok, err, ◌>>=◌,
}
use crono.Dispatch.Status.{RunStatus, AttemptStatus, run_is_pending}
use crono.Domain.Schedule.{PlannedOccurrence}
use crono.Dispatch.Tables.{
  StoreError, ExecutionSnapshot, Run, Attempt, Outbox, OccurrenceKey, same_key, Store, insert_row,
  is_none,
}

-- the two UUIDs of one Attempt
pub record Fresh : Type 0 where
  pub attempt_id : ℕ
  pub dispatch_id : ℕ

abbrev pub new_attempt : ℕ → ℕ → Attempt
new_attempt run_id attempt = record {
  run_id = run_id;
  attempt = attempt;
  status = AttemptStatus.pending_dispatch;
  worker_id = none;
  started_at = none;
  heartbeat_at = none;
  lease_expires_at = none;
  completed_at = none;
  exit_code = none;
  stdout_tail = none;
  stderr_tail = none;
  output_sequence = 0;
  error = none;
}

abbrev pub new_outbox : ℕ → Fresh → ℕ → ℕ → Option ℕ → Outbox
new_outbox now fresh run_id queue_id deadline = record {
  run_id = run_id;
  attempt_id = fresh.attempt_id;
  subject = queue_id;
  payload = record {
    dispatch_id = fresh.dispatch_id;
    run_id = run_id;
    attempt_id = fresh.attempt_id;
    queue_id = queue_id;
  };
  dispatch_deadline = deadline;
  attempt_count = 0;
  next_attempt_at = now;
  claimed_by = none;
  claim_expires_at = none;
  last_error = none;
  published_at = none;
  cancelled_at = none;
  nats_stream_sequence = none;
}

unfoldable pub create_attempt_and_outbox :
    ℕ → Fresh → ℕ → ℕ → ℕ → Option ℕ → Store → Result StoreError Store
create_attempt_and_outbox now fresh run_id attempt queue_id deadline s =
    if is_none (s.attempts fresh.attempt_id) && is_none (s.outbox fresh.dispatch_id)
    then ok (record s {
      attempts = insert_row s.attempts fresh.attempt_id (new_attempt run_id attempt);
      outbox =
          insert_row s.outbox fresh.dispatch_id (new_outbox now fresh run_id queue_id deadline);
    })
    else err StoreError.conflict

unfoldable pub insert_run_event : ℕ → String → Store → Store
insert_run_event run_id event_type s = record s {
  run_events = record { run_id = run_id; event_type = event_type } ∷ s.run_events;
}

-- `INSERT INTO crono.runs`, with the constraint `runs_attempt_bounds` of the table
unfoldable pub insert_run : Run → Store → Result StoreError Store
insert_run run s =
    if leb run.attempt_count run.max_attempts
    then if is_none (s.runs run.id)
      then ok (record s { runs = insert_row s.runs run.id run })
      else err StoreError.conflict
    else err StoreError.internal

pub record PreparedRun : Type 0 where
  pub id : ℕ
  pub request_id : ℕ
  pub job_id : ℕ
  pub target_id : ℕ
  pub queue_id : ℕ
  pub max_attempts : ℕ
  pub snapshot : ExecutionSnapshot

abbrev pub normal_run : ℕ → PreparedRun → Run
normal_run now prepared = record {
  id = prepared.id;
  request_id = some prepared.request_id;
  rerun_of_run_id = none;
  schedule_id = none;
  job_id = prepared.job_id;
  target_id = prepared.target_id;
  queue_id = prepared.queue_id;
  status = RunStatus.pending_dispatch;
  scheduled_at = now;
  execution_snapshot = prepared.snapshot;
  queued_at = none;
  started_at = none;
  completed_at = none;
  attempt_count = 1;
  max_attempts = prepared.max_attempts;
  next_retry_at = none;
  lateness_seconds = 0;
  terminal_reason = none;
}

unfoldable pub create_normal_run : ℕ → Fresh → PreparedRun → Store → Result StoreError Store
create_normal_run now fresh prepared s = do
  s₁ ← insert_run (normal_run now prepared) s
  s₂ ← create_attempt_and_outbox now fresh prepared.id 1 prepared.queue_id none s₁
  ok (insert_run_event prepared.id "created" s₂)

-- what the statements read of an `ExecutionRow`
pub record ExecutionRow : Type 0 where
  pub job_id : ℕ
  pub target_id : ℕ
  pub queue_id : ℕ
  pub max_attempts : ℕ

-- A snapshot that could not be rendered has none of the fields that the statements read; they take
-- the Job for not idempotent, and such a Run is failed from the start.
abbrev pub unrendered : ExecutionSnapshot
unrendered = record {
  idempotent = false;
  queue_id = 0;
  retry_initial_seconds = 0;
  retry_max_seconds = 0;
}

-- the `match (occurrence.execute, rendered)`, without its texts
abbrev pub occurrence_status : Bool → Result Text ExecutionSnapshot → ExecutionSnapshot × RunStatus
occurrence_status true (ok snapshot) = (snapshot, RunStatus.pending_dispatch)
occurrence_status false (ok snapshot) = (snapshot, RunStatus.skipped)
occurrence_status execute (err message) = (unrendered, RunStatus.failed)

-- the event's name, `created` for a Run that is to be dispatched
abbrev pub event_name : RunStatus → String
event_name RunStatus.pending_dispatch = "created"
event_name RunStatus.failed = "failed"
event_name _ = "skipped"

abbrev pub scheduled_run :
    ℕ → ℕ → OccurrenceKey → ExecutionRow → ℕ → ExecutionSnapshot → RunStatus → Option Text → Run
scheduled_run now run_id key execution lateness snapshot status reason = record {
  id = run_id;
  request_id = none;
  rerun_of_run_id = none;
  schedule_id = some key.schedule_id;
  job_id = execution.job_id;
  target_id = execution.target_id;
  queue_id = execution.queue_id;
  status = status;
  scheduled_at = key.scheduled_at;
  execution_snapshot = snapshot;
  queued_at = none;
  started_at = none;
  completed_at = if run_is_pending status then none else some now;
  attempt_count = if run_is_pending status then 1 else 0;
  max_attempts = execution.max_attempts;
  next_retry_at = none;
  lateness_seconds = lateness;
  terminal_reason = reason;
}

abbrev pub mark_index : OccurrenceKey → Store → Store
mark_index key s = record s {
  occurrence_index = λ other. same_key other key || s.occurrence_index other;
}

abbrev pub insert_schedule_event : OccurrenceKey → String → ℕ → Store → Store
insert_schedule_event key event_type run_id s = record s {
  schedule_events =
      record { key = key; event_type = event_type; run_id = run_id } ∷ s.schedule_events;
}

-- the part of `insert_scheduled_occurrence` behind `ON CONFLICT … DO NOTHING`
unfoldable pub insert_occurrence :
    ℕ
    → ℕ
    → Fresh
    → OccurrenceKey
    → ExecutionRow
    → ℕ
    → Option ℕ
    → ExecutionSnapshot
    → RunStatus
    → Option Text
    → Store
    → Result StoreError Store
insert_occurrence now run_id fresh key execution lateness deadline snapshot status reason s = do
  s₁ ← insert_run (scheduled_run now run_id key execution lateness snapshot status reason) s
  let s₂ = mark_index key s₁
  s₃ ←
      if run_is_pending status
      then create_attempt_and_outbox now fresh run_id 1 execution.queue_id deadline s₂
      else ok s₂
  ok (
      insert_schedule_event key (event_name status) run_id
        (insert_run_event run_id (event_name status) s₃))

-- the largest `i64`, at which a lateness is cut off
abbrev pub max_lateness : ℕ
max_lateness = 9_223_372_036_854_775_807

-- `rendered` is what `scheduled_snapshot` returns, and `reason` the text that the match picks.
unfoldable pub insert_scheduled_occurrence :
    ℕ
    → ℕ
    → Fresh
    → ℕ
    → PlannedOccurrence
    → ExecutionRow
    → Result Text ExecutionSnapshot
    → Option Text
    → Store
    → Result StoreError Store
insert_scheduled_occurrence now run_id fresh schedule_id planned execution rendered reason s =
    let key : OccurrenceKey = record {
      schedule_id = schedule_id;
      scheduled_at = planned.scheduled_at;
      target_id = execution.target_id;
    } in
    let (snapshot, status) = occurrence_status planned.execute rendered in
    if s.occurrence_index key
    then ok s
    else insert_occurrence now run_id fresh key execution
        (min planned.lateness_seconds max_lateness) planned.dispatch_deadline snapshot status reason
        s

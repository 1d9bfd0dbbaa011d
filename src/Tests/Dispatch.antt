-- ===== src/Tests/Dispatch.antt =====
-- The theorems of Dispatch, applied to the story of one Run.
use crono.Prelude.{
  ◌+◌, ◌≤◌, ◌<◌, ◌≡◌, ◌↔◌, ◌⊎◌, refl, true, false, none, some, [], ◌++◌, ok, err, codes, Text,
}
use crono.Domain.Schedule.{PlannedOccurrence}
use crono.Dispatch.Status.{RunStatus, AttemptStatus, run_status_name, parse_run_status, is_terminal}
use crono.Dispatch.Status.Names.{parse_run_status_iff}
use crono.Dispatch.Tail.{byte_len, tail_limit, bounded_tail}
use crono.Dispatch.Tail.Bounds.{bounded_tail-bounds}
use crono.Dispatch.Tables.{Run, Attempt, Outbox, Store, affects}
use crono.Dispatch.Create.{
  create_normal_run, ExecutionRow, insert_scheduled_occurrence, insert_run_event, insert_run,
  create_attempt_and_outbox, insert_occurrence,
}
use crono.Dispatch.Outbox.{claim_outbox, mark_published}
use crono.Dispatch.Attempt.{
  claim_attempt, complete_attempt, is_claimable, claim_rows, lease_seconds,
}
use crono.Dispatch.Soundness.{IsConsistent}
use crono.Dispatch.Soundness.Work.{claim_attempt-ne-conflict}
use crono.Dispatch.Moves.{stage}
use crono.Dispatch.Moves.History.{Steps}
use crono.Dispatch.Guarantees.{
  empty_store, Steps-IsConsistent, Steps-not_idempotent, Steps-unfinished, Steps-terminal,
  Steps-forward, Steps-open, insert_scheduled_occurrence_idem,
}
use crono.Tests.Story.{
  snapshot, fresh, attempt_key, stored, created, taken, published, claim_request, claimed,
  completed, world, to_created, to_taken, to_published, running-Steps, end-Steps, again,
  running_attempt, the_run, no_run,
}

Steps-IsConsistent_example : IsConsistent claimed.0
Steps-IsConsistent_example = Steps-IsConsistent (world claimed.0 taken.1) running-Steps

attempt_runs : claimed.0.attempts 10 ≡ some running_attempt
unfolding create_normal_run insert_run create_attempt_and_outbox insert_run_event claim_outbox
    mark_published claim_attempt
attempt_runs = refl

run_runs : claimed.0.runs 1 ≡ some (the_run 1 claimed.0 no_run)
unfolding create_normal_run insert_run create_attempt_and_outbox insert_run_event claim_outbox
    mark_published claim_attempt
run_runs = refl

once_only : (the_run 1 claimed.0 no_run).execution_snapshot.idempotent ≡ false
unfolding create_normal_run insert_run create_attempt_and_outbox insert_run_event claim_outbox
    mark_published claim_attempt
once_only = refl

Steps-not_idempotent_example : attempt_key ≡ attempt_key
Steps-not_idempotent_example =
    Steps-not_idempotent (world claimed.0 taken.1) 10 10 running_attempt running_attempt
      (the_run 1 claimed.0 no_run) running-Steps attempt_runs attempt_runs refl run_runs once_only

Steps-unfinished_example : attempt_key ≡ attempt_key
Steps-unfinished_example =
    Steps-unfinished (world claimed.0 taken.1) 10 10 running_attempt running_attempt running-Steps
      attempt_runs attempt_runs refl refl refl

run_ended : completed.0.runs 1 ≡ some (the_run 1 completed.0 no_run)
unfolding create_normal_run insert_run create_attempt_and_outbox insert_run_event claim_outbox
    mark_published claim_attempt complete_attempt
run_ended = refl

run_succeeded : (the_run 1 completed.0 no_run).status ≡ RunStatus.succeeded
unfolding create_normal_run insert_run create_attempt_and_outbox insert_run_event claim_outbox
    mark_published claim_attempt complete_attempt
run_succeeded = refl

run_is_over : is_terminal (the_run 1 completed.0 no_run).status ≡ true
run_is_over = rw run_succeeded refl

Steps-terminal_example : completed.0.runs 1 ≡ some (the_run 1 completed.0 no_run)
Steps-terminal_example =
    Steps-terminal (world completed.0 taken.1) (world completed.0 taken.1) 1
      (the_run 1 completed.0 no_run) again run_ended run_is_over

Steps-forward_example :
    (a' : Attempt) × (completed.0.attempts 10 ≡ some a')
    × (2 ≤ stage a'.status)
    × (a'.run_id ≡ 1)
    × (0 ≤ a'.output_sequence)
    × ((true ≡ false) ⊎ (a'.worker_id ≡ some "w"))
    × ((false ≡ false) ⊎ (a' ≡ running_attempt))
Steps-forward_example =
    Steps-forward (world claimed.0 taken.1) (world completed.0 taken.1) 10 running_attempt end-Steps
      attempt_runs

abbrev waiting_row : Outbox
waiting_row = record {
  run_id = 1;
  attempt_id = 10;
  subject = 5;
  payload = record { dispatch_id = 100; run_id = 1; attempt_id = 10; queue_id = 5 };
  dispatch_deadline = none;
  attempt_count = 0;
  next_attempt_at = 0;
  claimed_by = none;
  claim_expires_at = none;
  last_error = none;
  published_at = none;
  cancelled_at = none;
  nats_stream_sequence = none;
}

row_waits : created.outbox 100 ≡ some waiting_row
unfolding create_normal_run insert_run create_attempt_and_outbox insert_run_event
row_waits = refl

Steps-open_example :
    (a : Attempt) × (r : Run) × (created.attempts 10 ≡ some a)
    × (created.runs 1 ≡ some r)
    × (a.status ≡ AttemptStatus.pending_dispatch)
    × (r.status ≡ RunStatus.pending_dispatch)
    × (a.attempt ≡ r.attempt_count)
Steps-open_example =
    Steps-open (world created []) 100 waiting_row (Steps.next _ _ _ to_created (Steps.done _))
      row_waits refl refl

claim_attempt-ne-conflict_example :
    ((a : Attempt) × (r : Run) × (published.attempts 10 ≡ some a)
      × (is_claimable published claim_request a ≡ true)
      × (published.runs 1 ≡ some r)
      × (claim_attempt 3 claim_request published
          ≡ ok (
            insert_run_event 1 "running" (claim_rows 3 claim_request published),
            record {
              claimed = true;
              lease_seconds = lease_seconds;
              execution = some r.execution_snapshot;
            },
          )))
    ⊎ ((affects published.attempts 10 (is_claimable published claim_request) ≡ false)
        × (claim_attempt 3 claim_request published
            ≡ ok (
              published,
              record { claimed = false; lease_seconds = lease_seconds; execution = none },
            )))
claim_attempt-ne-conflict_example = claim_attempt-ne-conflict 3 claim_request published (
    Steps-IsConsistent (world published taken.1) (
      Steps.next _ _ _ to_created
        (Steps.next _ _ _ to_taken (Steps.next _ _ _ to_published (Steps.done _)))))

abbrev planned : PlannedOccurrence
planned = record {
  scheduled_at = 50;
  execute = true;
  lateness_seconds = 0;
  reason = none;
  dispatch_deadline = none;
}

abbrev execution : ExecutionRow
execution = record { job_id = 3; target_id = 4; queue_id = 5; max_attempts = 3 }

abbrev materialized : Store
materialized =
    stored
      (insert_scheduled_occurrence 0 1 fresh 6 planned execution (ok snapshot) none empty_store)

once_done :
    insert_scheduled_occurrence 0 1 fresh 6 planned execution (ok snapshot) none empty_store
    ≡ ok materialized
unfolding insert_scheduled_occurrence insert_occurrence insert_run create_attempt_and_outbox
    insert_run_event
once_done = refl

insert_scheduled_occurrence_idem_example :
    insert_scheduled_occurrence 9 2
      (record { attempt_id = 11; dispatch_id = 101 })
      6
      planned
      execution
      (err (codes "no template"))
      none
      materialized
    ≡ ok materialized
insert_scheduled_occurrence_idem_example =
    insert_scheduled_occurrence_idem 0 1 fresh 6 planned execution (ok snapshot) none 9 2
      (record { attempt_id = 11; dispatch_id = 101 }) planned execution (err (codes "no template"))
      none empty_store materialized once_done refl refl

parse_run_status_iff_example :
    (parse_run_status "queued" ≡ ok RunStatus.queued)
    ↔ ("queued" ≡ run_status_name RunStatus.queued)
parse_run_status_iff_example = parse_run_status_iff "queued" RunStatus.queued

bounded_tail-bounds_example :
    (front : Text) × (codes "done" ≡ front ++ bounded_tail (codes "done"))
    × (byte_len (bounded_tail (codes "done")) ≤ tail_limit)
    × (((byte_len (codes "done") ≤ tail_limit) × (bounded_tail (codes "done") ≡ codes "done"))
        ⊎ ((tail_limit < byte_len (codes "done"))
            × (tail_limit ≤ byte_len (bounded_tail (codes "done")) + 3)))
bounded_tail-bounds_example = bounded_tail-bounds (codes "done")

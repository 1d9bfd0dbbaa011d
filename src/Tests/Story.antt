-- ===== src/Tests/Story.antt =====
-- One Run from its creation to its end, in nanoseconds since its creation.
use crono.Prelude.{
  ℕ, refl, true, false, none, some, [], ◌∷◌, Bool, List, Result, ok, err, codes, Memᴰ,
}
use crono.Dispatch.Status.{RunStatus, AttemptStatus}
use crono.Dispatch.Tables.{StoreError, ExecutionSnapshot, Run, Attempt, Store}
use crono.Dispatch.Create.{
  Fresh, PreparedRun, create_normal_run, insert_run_event, insert_run, create_attempt_and_outbox,
}
use crono.Dispatch.Outbox.{OutboxRecord, claim_outbox, mark_published}
use crono.Dispatch.Attempt.{
  ClaimRequest, ClaimResponse, CompletionRequest, claim_attempt, complete_attempt,
}
use crono.Dispatch.Moves.History.{World, Step, Steps}
use crono.Dispatch.Guarantees.{empty_store, empty_world}

abbrev pub snapshot : ExecutionSnapshot
snapshot = record {
  idempotent = false;
  queue_id = 5;
  retry_initial_seconds = 1;
  retry_max_seconds = 60;
}

abbrev pub prepared : PreparedRun
prepared = record {
  id = 1;
  request_id = 2;
  job_id = 3;
  target_id = 4;
  queue_id = 5;
  max_attempts = 3;
  snapshot = snapshot;
}

abbrev pub fresh : Fresh
fresh = record { attempt_id = 10; dispatch_id = 100 }

abbrev pub attempt_key : ℕ
attempt_key = 10

abbrev pub stored : Result StoreError Store → Store
stored (ok s) = s
stored (err e) = empty_store

abbrev pub left {ℓ} : {A : Type ℓ} → A → Result StoreError A → A
left a (ok b) = b
left a (err e) = a

abbrev pub created : Store
created = stored (create_normal_run 0 fresh prepared empty_store)

abbrev pub taken : Store × List OutboxRecord
taken = left (empty_store, []) (claim_outbox 1 7 10 30 (100 ∷ []) created)

abbrev pub announcement : OutboxRecord
announcement = record {
  id = 100;
  run_id = 1;
  attempt_id = 10;
  subject = 5;
  payload = record { dispatch_id = 100; run_id = 1; attempt_id = 10; queue_id = 5 };
  attempt_count = 0;
}

abbrev pub published : Store
published = stored (mark_published 2 7 announcement 1 taken.0)

abbrev pub claim_request : ClaimRequest
claim_request = record { run_id = 1; attempt_id = 10; queue_id = 5; worker_id = "w" }

abbrev pub refused : ClaimResponse
refused = record { claimed = false; lease_seconds = 0; execution = none }

abbrev pub claimed : Store × ClaimResponse
claimed = left (empty_store, refused) (claim_attempt 3 claim_request published)

abbrev pub completion : CompletionRequest
completion = record {
  attempt_id = 10;
  worker_id = "w";
  succeeded = true;
  skipped = false;
  exit_code = some 0;
  stdout_tail = codes "done";
  stderr_tail = [];
  error = none;
}

abbrev pub completed : Store × Bool
completed = left (empty_store, false) (complete_attempt 4 9 completion claimed.0)

abbrev pub world : Store → List OutboxRecord → World
world s records = record { store = s; records = records }

pub to_created : Step empty_world (world created [])
unfolding create_normal_run insert_run create_attempt_and_outbox insert_run_event
to_created = Step.create 0 fresh prepared created refl

pub to_taken : Step (world created []) (world taken.0 taken.1)
unfolding create_normal_run insert_run create_attempt_and_outbox insert_run_event claim_outbox
to_taken = Step.take 1 7 10 30 (100 ∷ []) taken refl

pub to_published : Step (world taken.0 taken.1) (world published taken.1)
unfolding create_normal_run insert_run create_attempt_and_outbox insert_run_event claim_outbox
    mark_published
to_published = Step.publish 2 7 announcement 1 published (Memᴰ.head refl) refl

pub to_claimed : Step (world published taken.1) (world claimed.0 taken.1)
unfolding create_normal_run insert_run create_attempt_and_outbox insert_run_event claim_outbox
    mark_published claim_attempt
to_claimed = Step.claim 3 claim_request claimed refl

pub to_completed : Step (world claimed.0 taken.1) (world completed.0 taken.1)
unfolding create_normal_run insert_run create_attempt_and_outbox insert_run_event claim_outbox
    mark_published claim_attempt complete_attempt
to_completed = Step.complete 4 9 completion completed refl

pub running-Steps : Steps empty_world (world claimed.0 taken.1)
running-Steps = Steps.next _ _ _ to_created (
    Steps.next _ _ _ to_taken
      (Steps.next _ _ _ to_published (Steps.next _ _ _ to_claimed (Steps.done _))))

pub end-Steps : Steps (world claimed.0 taken.1) (world completed.0 taken.1)
end-Steps = Steps.next _ _ _ to_completed (Steps.done _)

-- a repeated message, whose claim is refused
pub again : Steps (world completed.0 taken.1) (world completed.0 taken.1)
unfolding create_normal_run insert_run create_attempt_and_outbox insert_run_event claim_outbox
    mark_published claim_attempt complete_attempt
again =
    Steps.next _ _ _
      (Step.claim 5 claim_request
        (left (empty_store, refused) (claim_attempt 5 claim_request completed.0)) refl)
      (Steps.done _)

abbrev pub running_attempt : Attempt
running_attempt = record {
  run_id = 1;
  attempt = 1;
  status = AttemptStatus.running;
  worker_id = some "w";
  started_at = some 3;
  heartbeat_at = some 3;
  lease_expires_at = some 60_000_000_003;
  completed_at = none;
  exit_code = none;
  stdout_tail = none;
  stderr_tail = none;
  output_sequence = 0;
  error = none;
}

abbrev pub the_run : ℕ → Store → Run → Run
the_run id s default = elim (s.runs id) [ none ↦ default | some r ↦ r ]

abbrev pub no_run : Run
no_run = record {
  id = 0;
  request_id = none;
  rerun_of_run_id = none;
  schedule_id = none;
  job_id = 0;
  target_id = 0;
  queue_id = 0;
  status = RunStatus.unknown;
  scheduled_at = 0;
  execution_snapshot = snapshot;
  queued_at = none;
  started_at = none;
  completed_at = none;
  attempt_count = 0;
  max_attempts = 0;
  next_retry_at = none;
  lateness_seconds = 0;
  terminal_reason = none;
}

-- ===== src/Dispatch/Attempt.antt =====
-- What a worker asks for: `claim_attempt`, `renew_lease`, `record_attempt_output` and
-- `complete_attempt`. `now` is `statement_timestamp()`, one instant for the statements of one call;
-- an `err`, and a refusal that the source rolls back, leave the store as it was.
use Prim.Native.String.{String}
use text.Mathlib.Text.{◌==◌ as str_eq}
use mathlib.Core.Option
use crono.Prelude.{
  ℕ, ◌+◌, ◌*◌, Bool, true, false, not, ◌&&◌, Option, none, some, ltb, leb, ◌==◌, if◌then◌else◌,
  Text, codes, Result, ok, err, ◌>>=◌, ok_or,
}
use crono.Dispatch.Status.{
  RunStatus, AttemptStatus, run_is_queued, run_is_running, run_is_retry_wait, attempt_is_queued,
  attempt_is_running, run_status_name,
}
use crono.Dispatch.Tables.{
  StoreError, ExecutionSnapshot, Run, Attempt, Store, second, update_where, affects, holds,
}
use crono.Dispatch.Create.{insert_run_event}
use crono.Dispatch.Tail.{bounded_tail, bounded_error}

pub record ClaimRequest : Type 0 where
  pub run_id : ℕ
  pub attempt_id : ℕ
  pub queue_id : ℕ
  pub worker_id : String

pub record ClaimResponse : Type 0 where
  pub claimed : Bool
  pub lease_seconds : ℕ
  pub execution : Option ExecutionSnapshot

abbrev pub lease_seconds : ℕ
lease_seconds = 60

-- the join with `crono.runs r` in the claim
abbrev pub run_in_queue : Store → ℕ → ℕ → Bool
run_in_queue s run_id queue_id = affects s.runs run_id (λ r. r.queue_id == queue_id)

abbrev pub is_claimable : Store → ClaimRequest → Attempt → Bool
is_claimable s request a =
    a.run_id == request.run_id
    && attempt_is_queued a.status
    && run_in_queue s a.run_id request.queue_id

abbrev pub claim_rows : ℕ → ClaimRequest → Store → Store
claim_rows now request s = record s {
  attempts = update_where s.attempts request.attempt_id (is_claimable s request) (λ a. record a {
    status = AttemptStatus.running;
    worker_id = some request.worker_id;
    started_at = some now;
    heartbeat_at = some now;
    lease_expires_at = some (now + lease_seconds * second);
  });
  runs =
      update_where s.runs request.run_id (λ r. run_is_queued r.status)
        (λ r. record r {
          status = RunStatus.running;
          started_at = some (Option.get_or r.started_at now);
        });
}

-- `RETURNING execution_snapshot`; that the stored value decodes is taken for granted
abbrev pub snapshot_of : Store → ℕ → Option ExecutionSnapshot
snapshot_of s run_id = Option.map (λ r. r.execution_snapshot) (s.runs run_id)

unfoldable pub claim_attempt : ℕ → ClaimRequest → Store → Result StoreError (Store × ClaimResponse)
claim_attempt now request s =
    if affects s.attempts request.attempt_id (is_claimable s request)
    then if affects s.runs request.run_id (λ r. run_is_queued r.status)
      then ok (
        insert_run_event request.run_id "running" (claim_rows now request s),
        record {
          claimed = true;
          lease_seconds = lease_seconds;
          execution = snapshot_of s request.run_id;
        },
      )
      else err StoreError.conflict
    else ok (s, record { claimed = false; lease_seconds = lease_seconds; execution = none })

-- `worker_id = $2 AND status = 'running' AND lease_expires_at > statement_timestamp()`
abbrev pub is_leased : ℕ → String → Attempt → Bool
is_leased now worker_id a =
    holds (λ w. str_eq w worker_id) a.worker_id
    && attempt_is_running a.status
    && holds (λ expires. ltb now expires) a.lease_expires_at

pub record LeaseRequest : Type 0 where
  pub attempt_id : ℕ
  pub worker_id : String

unfoldable pub renew_lease : ℕ → LeaseRequest → Store → Store × Bool
renew_lease now request s = (
  record s {
    attempts = update_where s.attempts request.attempt_id (is_leased now request.worker_id) (λ a.
        record a {
          heartbeat_at = some now;
          lease_expires_at = some (now + lease_seconds * second);
        });
  },
  affects s.attempts request.attempt_id (is_leased now request.worker_id),
)

pub record OutputSnapshotRequest : Type 0 where
  pub attempt_id : ℕ
  pub worker_id : String
  pub sequence : ℕ
  pub stdout_tail : Text
  pub stderr_tail : Text

abbrev pub is_newer : ℕ → OutputSnapshotRequest → Attempt → Bool
is_newer now request a = is_leased now request.worker_id a && ltb a.output_sequence request.sequence

abbrev pub max_sequence : ℕ
max_sequence = 9_223_372_036_854_775_807

unfoldable pub record_attempt_output :
    ℕ → OutputSnapshotRequest → Store → Result StoreError (Store × Bool)
record_attempt_output now request s =
    if leb request.sequence max_sequence
    then ok (
      record s {
        attempts = update_where s.attempts request.attempt_id (is_newer now request) (λ a.
            record a {
              stdout_tail = some request.stdout_tail;
              stderr_tail = some request.stderr_tail;
              output_sequence = request.sequence;
            });
      },
      affects s.attempts request.attempt_id (is_newer now request),
    )
    else err StoreError.internal

-- `exit_code` is the bit pattern of the `i32`.
pub record CompletionRequest : Type 0 where
  pub attempt_id : ℕ
  pub worker_id : String
  pub succeeded : Bool
  pub skipped : Bool
  pub exit_code : Option ℕ
  pub stdout_tail : Text
  pub stderr_tail : Text
  pub error : Option Text

abbrev pub attempt_outcome : CompletionRequest → AttemptStatus
attempt_outcome request =
    if request.skipped
    then AttemptStatus.skipped
    else if request.succeeded
    then AttemptStatus.succeeded
    else AttemptStatus.failed

abbrev pub should_retry : CompletionRequest → Run → Bool
should_retry request run =
    not request.succeeded
    && not request.skipped
    && run.execution_snapshot.idempotent
    && ltb run.attempt_count run.max_attempts

abbrev pub run_outcome : CompletionRequest → Run → RunStatus
run_outcome request run =
    if request.skipped
    then RunStatus.skipped
    else if request.succeeded
    then RunStatus.succeeded
    else if should_retry request run
    then RunStatus.retry_wait
    else RunStatus.failed

abbrev pub finish_attempt : ℕ → CompletionRequest → Attempt → Attempt
finish_attempt now request a = record a {
  status = attempt_outcome request;
  completed_at = some now;
  lease_expires_at = none;
  exit_code = request.exit_code;
  stdout_tail = some (bounded_tail request.stdout_tail);
  stderr_tail = some (bounded_tail request.stderr_tail);
  error = Option.map bounded_error request.error;
}

abbrev pub finish_run : ℕ → CompletionRequest → RunStatus → Option ℕ → Run → Run
finish_run now request status next_retry_at r = record r {
  status = status;
  completed_at = if run_is_retry_wait status then none else some now;
  next_retry_at = next_retry_at;
  terminal_reason =
      if request.skipped then some (codes "dry run") else Option.map bounded_error request.error;
}

-- the statements behind the update of the Attempt, given the Run's row
unfoldable pub settle_run : ℕ → ℕ → CompletionRequest → ℕ → Run → Store → Store
settle_run now retry_at request run_id run s =
    let status = run_outcome request run in
    let next_retry_at = if should_retry request run then some retry_at else none in
    insert_run_event run_id (run_status_name status) (record s {
      attempts =
          update_where s.attempts request.attempt_id (is_leased now request.worker_id)
            (finish_attempt now request);
      runs =
          update_where s.runs run_id (λ r. run_is_running r.status)
            (finish_run now request status next_retry_at);
    })

-- The Run of a leased Attempt is read by `fetch_one`, which fails where it is missing.
unfoldable pub complete_leased :
    ℕ → ℕ → CompletionRequest → Attempt → Store → Result StoreError (Store × Bool)
unfolding settle_run
complete_leased now retry_at request a s =
    if is_leased now request.worker_id a
    then (do
      run ← ok_or (s.runs a.run_id) StoreError.internal
      ok (settle_run now retry_at request a.run_id run s, true))
    else ok (s, false)

-- `retry_at` is the clock plus `retry_delay`, whose floating-point arithmetic is not modelled.
unfoldable pub complete_attempt :
    ℕ → ℕ → CompletionRequest → Store → Result StoreError (Store × Bool)
unfolding complete_leased
complete_attempt now retry_at request s =
    if request.skipped && not request.succeeded
    then err StoreError.internal
    else elim (s.attempts request.attempt_id) [
      | none ↦ ok (s, false)
      | some a ↦ complete_leased now retry_at request a s
    ]

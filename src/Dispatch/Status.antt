-- ===== src/Dispatch/Status.antt =====
-- The states of a Run (domain/run.rs) and of an Attempt (the status column that the statements of
-- infrastructure/postgres.rs write), with their stored names.
pub mod Names
use Prim.Native.String.{String}
use text.Mathlib.Text.{◌==◌ as str_eq}
use crono.Prelude.{Bool, true, false, not, ◌&&◌, if◌then◌else◌, Result, ok, err}

pub data RunStatus : Type 0 where
  pending_dispatch queued running retry_wait : RunStatus
  succeeded failed dead skipped cancelled unknown : RunStatus

abbrev pub is_terminal : RunStatus → Bool
is_terminal RunStatus.pending_dispatch = false
is_terminal RunStatus.queued = false
is_terminal RunStatus.running = false
is_terminal RunStatus.retry_wait = false
is_terminal _ = true

abbrev is_unknown : RunStatus → Bool
is_unknown RunStatus.unknown = true
is_unknown _ = false

-- only outcomes whose execution is no longer uncertain may be repeated
abbrev pub is_repeatable : RunStatus → Bool
is_repeatable status = is_terminal status && not (is_unknown status)

pub data AttemptStatus : Type 0 where
  pending_dispatch queued running : AttemptStatus
  succeeded skipped failed dead unknown : AttemptStatus

abbrev pub is_finished : AttemptStatus → Bool
is_finished AttemptStatus.pending_dispatch = false
is_finished AttemptStatus.queued = false
is_finished AttemptStatus.running = false
is_finished _ = true

-- the tests `status = '…'` of the statements
abbrev pub run_is_pending : RunStatus → Bool
run_is_pending RunStatus.pending_dispatch = true
run_is_pending _ = false

abbrev pub run_is_queued : RunStatus → Bool
run_is_queued RunStatus.queued = true
run_is_queued _ = false

abbrev pub run_is_running : RunStatus → Bool
run_is_running RunStatus.running = true
run_is_running _ = false

abbrev pub run_is_retry_wait : RunStatus → Bool
run_is_retry_wait RunStatus.retry_wait = true
run_is_retry_wait _ = false

abbrev pub attempt_is_pending : AttemptStatus → Bool
attempt_is_pending AttemptStatus.pending_dispatch = true
attempt_is_pending _ = false

abbrev pub attempt_is_queued : AttemptStatus → Bool
attempt_is_queued AttemptStatus.queued = true
attempt_is_queued _ = false

abbrev pub attempt_is_running : AttemptStatus → Bool
attempt_is_running AttemptStatus.running = true
attempt_is_running _ = false

unfoldable pub run_status_name : RunStatus → String
run_status_name RunStatus.pending_dispatch = "pending_dispatch"
run_status_name RunStatus.queued = "queued"
run_status_name RunStatus.running = "running"
run_status_name RunStatus.retry_wait = "retry_wait"
run_status_name RunStatus.succeeded = "succeeded"
run_status_name RunStatus.failed = "failed"
run_status_name RunStatus.dead = "dead"
run_status_name RunStatus.skipped = "skipped"
run_status_name RunStatus.cancelled = "cancelled"
run_status_name RunStatus.unknown = "unknown"

-- `err` stands for `StoreError::Internal`
unfoldable pub parse_run_status : String → Result (Unit {0}) RunStatus
parse_run_status value =
    if str_eq value "pending_dispatch"
    then ok RunStatus.pending_dispatch
    else if str_eq value "queued"
    then ok RunStatus.queued
    else if str_eq value "running"
    then ok RunStatus.running
    else if str_eq value "retry_wait"
    then ok RunStatus.retry_wait
    else if str_eq value "succeeded"
    then ok RunStatus.succeeded
    else if str_eq value "failed"
    then ok RunStatus.failed
    else if str_eq value "dead"
    then ok RunStatus.dead
    else if str_eq value "skipped"
    then ok RunStatus.skipped
    else if str_eq value "cancelled"
    then ok RunStatus.cancelled
    else if str_eq value "unknown"
    then ok RunStatus.unknown
    else err tt

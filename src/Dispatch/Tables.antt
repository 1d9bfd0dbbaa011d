-- ===== src/Dispatch/Tables.antt =====
-- The rows that the dispatch statements read and write. A table is a function from the primary key,
-- so a key has one row; an instant is a number of nanoseconds, as in Domain/Schedule;
-- that PostgreSQL keeps whole microseconds is not modelled.
use Prim.Native.String.{String}
use mathlib.Core.Option
use crono.Prelude.{
  ℕ, zero, suc, Bool, ◌&&◌, true, false, Option, none, some, List, [], ◌∷◌, ◌==◌, if◌then◌else◌,
  Text,
}
use crono.Dispatch.Status.{RunStatus, AttemptStatus}

pub data StoreError : Type 0 where
  not_found conflict in_use idempotency_conflict stale_revision : StoreError
  queue_disabled invalid_data workflow_launch_too_large unavailable internal : StoreError

-- what the statements read of `execution_snapshot`
pub record ExecutionSnapshot : Type 0 where
  pub idempotent : Bool
  pub queue_id : ℕ
  pub retry_initial_seconds : ℕ
  pub retry_max_seconds : ℕ

pub record Run : Type 0 where
  pub id : ℕ
  pub request_id : Option ℕ
  pub rerun_of_run_id : Option ℕ
  pub schedule_id : Option ℕ
  pub job_id : ℕ
  pub target_id : ℕ
  pub queue_id : ℕ
  pub status : RunStatus
  pub scheduled_at : ℕ
  pub execution_snapshot : ExecutionSnapshot
  pub queued_at : Option ℕ
  pub started_at : Option ℕ
  pub completed_at : Option ℕ
  pub attempt_count : ℕ
  pub max_attempts : ℕ
  pub next_retry_at : Option ℕ
  pub lateness_seconds : ℕ
  pub terminal_reason : Option Text

pub record Attempt : Type 0 where
  pub run_id : ℕ
  pub attempt : ℕ
  pub status : AttemptStatus
  pub worker_id : Option String
  pub started_at : Option ℕ
  pub heartbeat_at : Option ℕ
  pub lease_expires_at : Option ℕ
  pub completed_at : Option ℕ
  pub exit_code : Option ℕ
  pub stdout_tail : Option Text
  pub stderr_tail : Option Text
  pub output_sequence : ℕ
  pub error : Option Text

-- the payload of a dispatch message
pub record DispatchEnvelope : Type 0 where
  pub dispatch_id : ℕ
  pub run_id : ℕ
  pub attempt_id : ℕ
  pub queue_id : ℕ

pub record Outbox : Type 0 where
  pub run_id : ℕ
  pub attempt_id : ℕ
  -- the subject is `crono.dispatch.<this queue>`
  pub subject : ℕ
  pub payload : DispatchEnvelope
  pub dispatch_deadline : Option ℕ
  pub attempt_count : ℕ
  pub next_attempt_at : ℕ
  pub claimed_by : Option ℕ
  pub claim_expires_at : Option ℕ
  pub last_error : Option Text
  pub published_at : Option ℕ
  pub cancelled_at : Option ℕ
  pub nats_stream_sequence : Option ℕ

-- the columns of the unique index on planned occurrences
pub record OccurrenceKey : Type 0 where
  pub schedule_id : ℕ
  pub scheduled_at : ℕ
  pub target_id : ℕ

abbrev pub same_key : OccurrenceKey → OccurrenceKey → Bool
same_key a b =
    a.schedule_id == b.schedule_id && a.scheduled_at == b.scheduled_at && a.target_id == b.target_id

pub record ScheduleEvent : Type 0 where
  pub key : OccurrenceKey
  pub event_type : String
  pub run_id : ℕ

pub record RunEvent : Type 0 where
  pub run_id : ℕ
  pub event_type : String

abbrev pub Table : Type 0 → Type 0
Table A = ℕ → Option A

pub record Store : Type 0 where
  pub runs : Table Run
  pub attempts : Table Attempt
  pub outbox : Table Outbox
  -- `runs_schedule_occurrence_target_unique`
  pub occurrence_index : OccurrenceKey → Bool
  -- the newest first
  pub run_events : List RunEvent
  pub schedule_events : List ScheduleEvent

abbrev pub second : ℕ
second = 1_000_000_000

-- `UPDATE … SET set WHERE id = key AND test`
abbrev pub update_where : {A : Type 0} → Table A → ℕ → (A → Bool) → (A → A) → Table A
update_where table key test set j =
    if j == key then Option.map (λ row. if test row then set row else row) (table j) else table j

-- whether that statement changes a row
abbrev pub affects : {A : Type 0} → Table A → ℕ → (A → Bool) → Bool
affects table key test = elim (table key) [ none ↦ false | some row ↦ test row ]

-- `INSERT` of a row whose key is not there
abbrev pub insert_row : {A : Type 0} → Table A → ℕ → A → Table A
insert_row table key row j = if j == key then some row else table j

abbrev pub is_none : {A : Type 0} → Option A → Bool
is_none none = true
is_none (some a) = false

-- a comparison with a column that may be NULL is not true of NULL
abbrev pub holds : {A : Type 0} → (A → Bool) → Option A → Bool
holds test none = false
holds test (some a) = test a

-- The rows of a `SELECT … FOR UPDATE SKIP LOCKED LIMIT limit`: what `pick` makes of a scan, which
-- has the keys that no other transaction has locked, in the order of the query.
unfoldable pub select_rows : {A B : Type 0} → ℕ → (A → Option B) → List A → List B
select_rows zero pick scan = []
select_rows (suc limit) pick [] = []
select_rows (suc limit) pick (key ∷ scan) = elim (pick key) [
  | some row ↦ row ∷ select_rows limit pick scan
  | none ↦ select_rows (suc limit) pick scan
]

-- ===== src/Application/Program.antt =====
-- What a use case of application/service.rs does, one request of a port after the other:
-- `Authorizer` of application/auth.rs, the part of `ControlPlaneStore` that the use cases call
-- (application/store.rs), and the clock. A program says what it asks for and how it goes on with each answer, so
-- it runs against every authorizer and every store.
use crono.Prelude.{ℕ, Bool, Option, List, Text, Result, ok, err}
use crono.Domain.Json.{Value}
use crono.Domain.Schedule.{TargetSelection}
use crono.Domain.Entities.{Namespace, Queue}
use crono.Dispatch.Tables.{StoreError}
use crono.Authorization.Capabilities.{Capability, ResourceScope}
use crono.Authorization.Grants.{VisibilityScope}
use crono.Authorization.Policy.{AuthorizationError}
use crono.Application.Model.{
  JobDefinition, TargetDefinition, NewSchedule, RunListFilter, Page, JobRecord, TargetRecord,
  TargetSetRecord, RunRecord, RunEventRecord, RunAttemptRecord, WorkerRecord, ScheduleRecord,
  Overview, MonitorSnapshot,
}

-- The field of an invalid input is kept, its message is not.
pub data ApplicationError : Type 0 where
  invalid_input : Option Text → ApplicationError
  not_found conflict in_use idempotency_conflict : ApplicationError
  authorization : AuthorizationError → ApplicationError
  unavailable internal : ApplicationError

abbrev pub invalid : Text → ApplicationError
invalid field = ApplicationError.invalid_input (Option.some field)

abbrev pub invalid_request : ApplicationError
invalid_request = ApplicationError.invalid_input Option.none

-- `From<StoreError>`
abbrev pub from_store : StoreError → ApplicationError
from_store StoreError.not_found = ApplicationError.not_found
from_store StoreError.conflict = ApplicationError.conflict
from_store StoreError.stale_revision = ApplicationError.conflict
from_store StoreError.in_use = ApplicationError.in_use
from_store StoreError.idempotency_conflict = ApplicationError.idempotency_conflict
from_store StoreError.queue_disabled = invalid_request
from_store StoreError.invalid_data = invalid_request
from_store StoreError.workflow_launch_too_large = invalid_request
from_store StoreError.unavailable = ApplicationError.unavailable
from_store StoreError.internal = ApplicationError.internal

-- a call of the store, with its arguments
pub data Call : Type 0 where
  create_namespace : Text → Call
  list_namespaces : VisibilityScope → ℕ → Option Text → Call
  get_namespace delete_namespace : ℕ → Call
  create_queue : Text → Option Text → Call
  list_queues : ℕ → Option Text → Call
  get_queue delete_queue : ℕ → Call
  update_queue : ℕ → Text → Option Text → Bool → Call
  create_job : ℕ → Text → JobDefinition → Call
  list_jobs : ℕ → VisibilityScope → ℕ → Option Text → Call
  get_job : ℕ → Call
  update_job : ℕ → Text → JobDefinition → Call
  create_target : ℕ → Text → TargetDefinition → Call
  list_targets : ℕ → VisibilityScope → ℕ → Option Text → Call
  get_target delete_target : ℕ → Call
  update_target : ℕ → Text → TargetDefinition → Call
  create_target_set : ℕ → Text → List ℕ → Value → Call
  list_target_sets : ℕ → VisibilityScope → ℕ → Option Text → Call
  get_target_set : ℕ → Call
  update_target_set : ℕ → Text → List ℕ → Value → Call
  create_schedule : NewSchedule → Call
  list_schedules : ℕ → VisibilityScope → ℕ → Option Text → Call
  get_schedule : ℕ → Call
  set_schedule_enabled : ℕ → ℕ → Bool → Option ℕ → Call
  create_runs : ℕ → ℕ → TargetSelection → Value → Call
  list_runs : VisibilityScope → RunListFilter → ℕ → Option ℕ → Call
  rerun_run : ℕ → ℕ → Call
  get_run list_run_attempts list_run_events : ℕ → VisibilityScope → Call
  list_workers : ℕ → Option Text → Call
  get_worker : Text → Call
  overview : VisibilityScope → Call
  monitor_snapshot : Call

-- what a call returns when it succeeds
abbrev pub Answer : Call → Type 0
Answer (Call.create_namespace name) = Namespace
Answer (Call.list_namespaces visibility limit after) = Page Namespace
Answer (Call.get_namespace id) = Namespace
Answer (Call.delete_namespace id) = Unit {0}
Answer (Call.create_queue name description) = Queue
Answer (Call.list_queues limit after) = Page Queue
Answer (Call.get_queue id) = Queue
Answer (Call.delete_queue id) = Unit {0}
Answer (Call.update_queue id name description enabled) = Queue
Answer (Call.create_job namespace_id name definition) = JobRecord
Answer (Call.list_jobs namespace_id visibility limit after) = Page JobRecord
Answer (Call.get_job id) = JobRecord
Answer (Call.update_job id name definition) = JobRecord
Answer (Call.create_target namespace_id name definition) = TargetRecord
Answer (Call.list_targets namespace_id visibility limit after) = Page TargetRecord
Answer (Call.get_target id) = TargetRecord
Answer (Call.delete_target id) = Unit {0}
Answer (Call.update_target id name definition) = TargetRecord
Answer (Call.create_target_set namespace_id name target_ids inputs) = TargetSetRecord
Answer (Call.list_target_sets namespace_id visibility limit after) = Page TargetSetRecord
Answer (Call.get_target_set id) = TargetSetRecord
Answer (Call.update_target_set id name target_ids inputs) = TargetSetRecord
Answer (Call.create_schedule schedule) = ScheduleRecord
Answer (Call.list_schedules namespace_id visibility limit after) = Page ScheduleRecord
Answer (Call.get_schedule id) = ScheduleRecord
Answer (Call.set_schedule_enabled id revision enabled next_run_at) = ScheduleRecord
Answer (Call.create_runs request_id job_id selection inputs) = List RunRecord × Bool
Answer (Call.list_runs visibility filter limit before) = Page RunRecord
Answer (Call.rerun_run source_id request_id) = RunRecord × Bool
Answer (Call.get_run id visibility) = RunRecord
Answer (Call.list_run_attempts id visibility) = List RunAttemptRecord
Answer (Call.list_run_events id visibility) = List RunEventRecord
Answer (Call.list_workers limit after) = Page WorkerRecord
Answer (Call.get_worker worker_id) = WorkerRecord
Answer (Call.overview visibility) = Overview
Answer Call.monitor_snapshot = MonitorSnapshot

pub data Program (A : Type 0) : Type 1 where
  -- the result of the request
  done : Result ApplicationError A → Program A
  -- `?` behind a check that reaches no port
  check : {X : Type 0} → Result ApplicationError X → (X → Program A) → Program A
  -- `authorizer.authorize(context, capability, resource)`
  ask : Capability → ResourceScope → (Result AuthorizationError (Unit {0}) → Program A) → Program A
  -- `authorizer.visibility(context, capability)`
  see : Capability → (Result AuthorizationError VisibilityScope → Program A) → Program A
  -- a call of the store
  call : (c : Call) → (Result StoreError (Answer c) → Program A) → Program A
  -- `OffsetDateTime::now_utc()`
  now_utc : (ℕ → Program A) → Program A

-- `?`, in a chain of such steps
module _ {A B : Type 0} where
  infixl 5 ◌>>=◌
  abbrev pub ◌>>=◌ : Program A → (A → Program B) → Program B
  Program.done (ok value) >>= rest = rest value
  Program.done (err failure) >>= rest = Program.done (err failure)
  Program.check result next >>= rest = Program.check result (λ x. next x >>= rest)
  Program.ask capability resource answer >>= rest =
      Program.ask capability resource (λ r. answer r >>= rest)
  Program.see capability answer >>= rest = Program.see capability (λ r. answer r >>= rest)
  Program.call c answer >>= rest = Program.call c (λ r. answer r >>= rest)
  Program.now_utc answer >>= rest = Program.now_utc (λ t. answer t >>= rest)

-- the failures of the ports, as `From<AuthorizationError>` and a conversion of the store's make them
abbrev pub granted : {A : Type 0} → Result AuthorizationError A → Program A
granted (ok value) = Program.done (ok value)
granted (err failure) = Program.done (err (ApplicationError.authorization failure))

abbrev pub answered :
    {A : Type 0} → (StoreError → ApplicationError) → Result StoreError A → Program A
answered convert (ok value) = Program.done (ok value)
answered convert (err failure) = Program.done (err (convert failure))

abbrev pub authorized : Capability → ResourceScope → Program (Unit {0})
authorized capability resource = Program.ask capability resource granted

abbrev pub visible : Capability → Program VisibilityScope
visible capability = Program.see capability granted

-- a call whose failure is converted by `map_err`, and one whose failure is converted by `?`
abbrev pub store_or : (StoreError → ApplicationError) → (c : Call) → Program (Answer c)
store_or convert c = Program.call c (answered convert)

abbrev pub store : (c : Call) → Program (Answer c)
store c = store_or from_store c

abbrev pub checked : {A : Type 0} → Result ApplicationError A → Program A
checked result = Program.check result (λ value. Program.done (ok value))

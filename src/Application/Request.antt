-- ===== src/Application/Request.antt =====
-- application/service.rs: the requests that `Application` answers, each with its parameters.
use crono.Prelude.{ℕ, Bool, Option, List, Text}
use crono.Domain.Json.{Value}
use crono.Domain.Schedule.{TargetSelection}
use crono.Domain.Entities.{Namespace, Queue}
use crono.Scheduler.Recurrence.{Calendar}
use crono.Application.Model.{
  CreateQueueInput, UpdateQueueInput, CreateJobInput, CreateScheduleInput, RunListFilter, Page,
  JobRecord, TargetRecord, TargetSetRecord, RunRecord, RunEventRecord, RunAttemptRecord,
  WorkerRecord, ScheduleRecord, Overview, MonitorSnapshot, CreateRunOutcome,
}
use crono.Application.Program.{Program}
use crono.Application.Catalog
use crono.Application.Targets
use crono.Application.Schedules
use crono.Application.Runs

pub data Request : Type 0 where
  create_namespace : Text → Request
  list_namespaces : Option ℕ → Option Text → Request
  get_namespace delete_namespace : ℕ → Request
  create_queue : CreateQueueInput → Request
  list_queues : Option ℕ → Option Text → Request
  get_queue delete_queue : ℕ → Request
  update_queue : ℕ → UpdateQueueInput → Request
  create_job update_job : ℕ → CreateJobInput → Request
  list_jobs : ℕ → Option ℕ → Option Text → Request
  get_job : ℕ → Request
  create_target update_target : ℕ → Text → List Text → Value → Request
  list_targets : ℕ → Option ℕ → Option Text → Request
  get_target delete_target : ℕ → Request
  create_target_set update_target_set : ℕ → Text → List ℕ → Value → Request
  list_target_sets : ℕ → Option ℕ → Option Text → Request
  get_target_set : ℕ → Request
  create_schedule : ℕ → CreateScheduleInput → Request
  list_schedules : ℕ → Option ℕ → Option Text → Request
  get_schedule : ℕ → Request
  set_schedule_enabled : ℕ → ℕ → Bool → Request
  create_run : ℕ → ℕ → TargetSelection → Value → Request
  list_runs : RunListFilter → Option ℕ → Option ℕ → Request
  rerun_run : ℕ → ℕ → Request
  get_run list_run_attempts list_run_events : ℕ → Request
  list_workers : Option ℕ → Option Text → Request
  get_worker : Text → Request
  overview monitor_snapshot : Request

abbrev pub Reply : Request → Type 0
Reply (Request.create_namespace value) = Namespace
Reply (Request.list_namespaces limit after) = Page Namespace
Reply (Request.get_namespace id) = Namespace
Reply (Request.delete_namespace id) = Unit {0}
Reply (Request.create_queue input) = Queue
Reply (Request.list_queues limit after) = Page Queue
Reply (Request.get_queue id) = Queue
Reply (Request.delete_queue id) = Unit {0}
Reply (Request.update_queue id input) = Queue
Reply (Request.create_job namespace_id input) = JobRecord
Reply (Request.update_job id input) = JobRecord
Reply (Request.list_jobs namespace_id limit after) = Page JobRecord
Reply (Request.get_job id) = JobRecord
Reply (Request.create_target namespace_id name arguments inputs) = TargetRecord
Reply (Request.update_target id name arguments inputs) = TargetRecord
Reply (Request.list_targets namespace_id limit after) = Page TargetRecord
Reply (Request.get_target id) = TargetRecord
Reply (Request.delete_target id) = Unit {0}
Reply (Request.create_target_set namespace_id name target_ids inputs) = TargetSetRecord
Reply (Request.update_target_set id name target_ids inputs) = TargetSetRecord
Reply (Request.list_target_sets namespace_id limit after) = Page TargetSetRecord
Reply (Request.get_target_set id) = TargetSetRecord
Reply (Request.create_schedule namespace_id input) = ScheduleRecord
Reply (Request.list_schedules namespace_id limit after) = Page ScheduleRecord
Reply (Request.get_schedule id) = ScheduleRecord
Reply (Request.set_schedule_enabled id revision enabled) = ScheduleRecord
Reply (Request.create_run request_id job_id selection inputs) = CreateRunOutcome
Reply (Request.list_runs filter limit before) = Page RunRecord
Reply (Request.rerun_run source_id request_id) = CreateRunOutcome
Reply (Request.get_run id) = RunRecord
Reply (Request.list_run_attempts id) = List RunAttemptRecord
Reply (Request.list_run_events id) = List RunEventRecord
Reply (Request.list_workers limit after) = Page WorkerRecord
Reply (Request.get_worker worker_id) = WorkerRecord
Reply Request.overview = Overview
Reply Request.monitor_snapshot = Option MonitorSnapshot

-- the libraries under the schedules, and the size of an encoding in JSON
unfoldable pub serve : Calendar → (Value → Option ℕ) → (q : Request) → Program (Reply q)
serve c e (Request.create_namespace value) = Catalog.create_namespace value
serve c e (Request.list_namespaces limit after) = Catalog.list_namespaces limit after
serve c e (Request.get_namespace id) = Catalog.get_namespace id
serve c e (Request.delete_namespace id) = Catalog.delete_namespace id
serve c e (Request.create_queue input) = Catalog.create_queue input
serve c e (Request.list_queues limit after) = Catalog.list_queues limit after
serve c e (Request.get_queue id) = Catalog.get_queue id
serve c e (Request.delete_queue id) = Catalog.delete_queue id
serve c e (Request.update_queue id input) = Catalog.update_queue id input
serve c e (Request.create_job namespace_id input) = Catalog.create_job e namespace_id input
serve c e (Request.update_job id input) = Catalog.update_job e id input
serve c e (Request.list_jobs namespace_id limit after) = Catalog.list_jobs namespace_id limit after
serve c e (Request.get_job id) = Catalog.get_job id
serve c e (Request.create_target namespace_id name arguments inputs) =
    Targets.create_target e namespace_id name arguments inputs
serve c e (Request.update_target id name arguments inputs) =
    Targets.update_target e id name arguments inputs
serve c e (Request.list_targets namespace_id limit after) =
    Targets.list_targets namespace_id limit after
serve c e (Request.get_target id) = Targets.get_target id
serve c e (Request.delete_target id) = Targets.delete_target id
serve c e (Request.create_target_set namespace_id name target_ids inputs) =
    Targets.create_target_set e namespace_id name target_ids inputs
serve c e (Request.update_target_set id name target_ids inputs) =
    Targets.update_target_set e id name target_ids inputs
serve c e (Request.list_target_sets namespace_id limit after) =
    Targets.list_target_sets namespace_id limit after
serve c e (Request.get_target_set id) = Targets.get_target_set id
serve c e (Request.create_schedule namespace_id input) =
    Schedules.create_schedule c e namespace_id input
serve c e (Request.list_schedules namespace_id limit after) =
    Schedules.list_schedules namespace_id limit after
serve c e (Request.get_schedule id) = Schedules.get_schedule id
serve c e (Request.set_schedule_enabled id revision enabled) =
    Schedules.set_schedule_enabled c e id revision enabled
serve c e (Request.create_run request_id job_id selection inputs) =
    Runs.create_run e request_id job_id selection inputs
serve c e (Request.list_runs filter limit before) = Runs.list_runs filter limit before
serve c e (Request.rerun_run source_id request_id) = Runs.rerun_run source_id request_id
serve c e (Request.get_run id) = Runs.get_run id
serve c e (Request.list_run_attempts id) = Runs.list_run_attempts id
serve c e (Request.list_run_events id) = Runs.list_run_events id
serve c e (Request.list_workers limit after) = Runs.list_workers limit after
serve c e (Request.get_worker worker_id) = Runs.get_worker worker_id
serve c e Request.overview = Runs.overview
serve c e Request.monitor_snapshot = Runs.monitor_snapshot

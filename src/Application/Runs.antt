-- ===== src/Application/Runs.antt =====
-- application/service.rs: the use cases on Runs, workers and the totals.
use crono.Prelude.{ℕ, Option, none, some, List, [], ◌∷◌, ◌==◌, Text, Result, ok, err, guard}
use crono.Domain.Json.{Value}
use crono.Domain.Schedule.{TargetSelection}
use crono.Domain.Entities.{Target}
use crono.Dispatch.Status.{is_repeatable}
use crono.Dispatch.Tables.{StoreError}
use crono.Authorization.Capabilities.{Capability, ResourceScope}
use crono.Application.Model.{
  RunListFilter, Page, JobRecord, RunRecord, RunEventRecord, RunAttemptRecord, WorkerRecord,
  Overview, MonitorSnapshot, CreateRunOutcome,
}
use crono.Application.Program.{
  invalid_request, Call, Program, ◌>>=◌, authorized, visible, store, checked,
}
use crono.Application.Checks.{page_limit, page_cursor, stored_worker_id}
use crono.Application.JobChecks.{validate_input_object, validate_renderings}
use crono.Application.Targets.{execution_targets}

-- the size of an encoding in JSON
module _ (encoded_len : Value → Option ℕ) where
  -- `create_run` behind the Job and the selection
  unfoldable pub run_targets :
      ℕ
      → ℕ
      → TargetSelection
      → Value
      → JobRecord
      → ℕ × Option Value × List Target
      → Program CreateRunOutcome
  run_targets request_id job_id selection inputs job
        (selection_namespace, target_set_inputs, targets) =
      do
        _ ← checked (guard (job.job.namespace_id == selection_namespace) invalid_request)
        _ ← checked (validate_renderings encoded_len job.job target_set_inputs targets inputs)
        _ ← authorized Capability.run_create (ResourceScope.namespace job.job.namespace_id)
        (runs, created) ← store (Call.create_runs request_id job_id selection inputs)
        checked (ok (record { runs = runs; created = created }))

  unfoldable pub create_run : ℕ → ℕ → TargetSelection → Value → Program CreateRunOutcome
  unfolding run_targets execution_targets
  create_run request_id job_id selection inputs = do
    _ ← checked (validate_input_object encoded_len inputs)
    _ ← authorized Capability.job_execute (ResourceScope.job job_id)
    job ← store (Call.get_job job_id)
    selected ← execution_targets selection
    run_targets request_id job_id selection inputs job selected

unfoldable pub list_runs : RunListFilter → Option ℕ → Option ℕ → Program (Page RunRecord)
list_runs filter limit before = do
  visibility ← visible Capability.run_read
  size ← checked (page_limit limit)
  store (Call.list_runs visibility filter size before)

unfoldable pub get_run : ℕ → Program RunRecord
get_run id = do
  _ ← authorized Capability.run_read (ResourceScope.run id)
  visibility ← visible Capability.run_read
  store (Call.get_run id visibility)

unfoldable pub rerun_run : ℕ → ℕ → Program CreateRunOutcome
unfolding get_run
rerun_run source_id request_id = do
  source ← get_run source_id
  _ ← checked (guard (is_repeatable source.run.status) invalid_request)
  _ ← checked (guard source.has_execution_snapshot invalid_request)
  _ ← authorized Capability.job_execute (ResourceScope.job source.run.job_id)
  job ← store (Call.get_job source.run.job_id)
  _ ← authorized Capability.target_use (ResourceScope.target source.run.target_id)
  _ ← authorized Capability.run_create (ResourceScope.namespace job.job.namespace_id)
  (run, created) ← store (Call.rerun_run source.run.id request_id)
  checked (ok (record { runs = run ∷ []; created = created }))

unfoldable pub list_run_attempts : ℕ → Program (List RunAttemptRecord)
list_run_attempts id = do
  _ ← authorized Capability.run_read (ResourceScope.run id)
  visibility ← visible Capability.run_read
  store (Call.list_run_attempts id visibility)

unfoldable pub list_run_events : ℕ → Program (List RunEventRecord)
list_run_events id = do
  _ ← authorized Capability.run_read (ResourceScope.run id)
  visibility ← visible Capability.run_read
  store (Call.list_run_events id visibility)

unfoldable pub list_workers : Option ℕ → Option Text → Program (Page WorkerRecord)
list_workers limit after = do
  _ ← authorized Capability.worker_read ResourceScope.control_plane
  size ← checked (page_limit limit)
  cursor ← checked (page_cursor after)
  store (Call.list_workers size cursor)

unfoldable pub get_worker : Text → Program WorkerRecord
get_worker worker_id = do
  _ ← authorized Capability.worker_read ResourceScope.control_plane
  stored ← checked (stored_worker_id worker_id)
  store (Call.get_worker stored)

unfoldable pub overview : Program Overview
overview = do visibility ← visible Capability.overview_read; store (Call.overview visibility)

-- a failed sample is returned as absent
abbrev sampled : Result StoreError MonitorSnapshot → Program (Option MonitorSnapshot)
sampled (ok snapshot) = checked (ok (some snapshot))
sampled (err failure) = checked (ok none)

unfoldable pub monitor_snapshot : Program (Option MonitorSnapshot)
monitor_snapshot = do
  _ ← authorized Capability.monitor_read ResourceScope.control_plane
  Program.call Call.monitor_snapshot sampled

-- ===== src/Application/Served.antt =====
-- Every request of application/service.rs keeps to the table of Policy.
use crono.Prelude.{ℕ, Option, [], All}
use crono.Domain.Json.{Value}
use crono.Scheduler.Recurrence.{Calendar}
use crono.Application.Trace.{Backend, run, Lawful, Ends, Fitting}
use crono.Application.Guarded.{Guarded, Anything, run-Kept}
use crono.Application.Guarded.Catalog.{
  create_namespace-Guarded, list_namespaces-Guarded, get_namespace-Guarded,
  delete_namespace-Guarded, create_queue-Guarded, list_queues-Guarded, get_queue-Guarded,
  update_queue-Guarded, delete_queue-Guarded, create_job-Guarded, update_job-Guarded,
  list_jobs-Guarded, get_job-Guarded,
}
use crono.Application.Guarded.Targets.{
  create_target-Guarded, update_target-Guarded, list_targets-Guarded, get_target-Guarded,
  delete_target-Guarded, list_target_sets-Guarded, get_target_set-Guarded,
}
use crono.Application.Guarded.Reads.{
  list_runs-Guarded, get_run-Guarded, list_run_attempts-Guarded, list_run_events-Guarded,
  list_workers-Guarded, get_worker-Guarded, overview-Guarded, monitor_snapshot-Guarded,
  list_schedules-Guarded, get_schedule-Guarded,
}
use crono.Application.Guarded.Executions.{
  create_target_set-Guarded, update_target_set-Guarded, create_run-Guarded, create_schedule-Guarded,
  set_schedule_enabled-Guarded, rerun_run-Guarded,
}
use crono.Application.Request.{Request, serve}

serve-Guarded :
    (c : Calendar) (e : Value → Option ℕ) (q : Request) → Guarded Anything [] (serve c e q)
unfolding serve
serve-Guarded c e (Request.create_namespace value) = create_namespace-Guarded value
serve-Guarded c e (Request.list_namespaces limit after) = list_namespaces-Guarded limit after
serve-Guarded c e (Request.get_namespace id) = get_namespace-Guarded id
serve-Guarded c e (Request.delete_namespace id) = delete_namespace-Guarded id
serve-Guarded c e (Request.create_queue input) = create_queue-Guarded input
serve-Guarded c e (Request.list_queues limit after) = list_queues-Guarded limit after
serve-Guarded c e (Request.get_queue id) = get_queue-Guarded id
serve-Guarded c e (Request.delete_queue id) = delete_queue-Guarded id
serve-Guarded c e (Request.update_queue id input) = update_queue-Guarded id input
serve-Guarded c e (Request.create_job namespace_id input) = create_job-Guarded e namespace_id input
serve-Guarded c e (Request.update_job id input) = update_job-Guarded e id input
serve-Guarded c e (Request.list_jobs namespace_id limit after) =
    list_jobs-Guarded namespace_id limit after
serve-Guarded c e (Request.get_job id) = get_job-Guarded id
serve-Guarded c e (Request.create_target namespace_id name arguments inputs) =
    create_target-Guarded e namespace_id name arguments inputs
serve-Guarded c e (Request.update_target id name arguments inputs) =
    update_target-Guarded e id name arguments inputs
serve-Guarded c e (Request.list_targets namespace_id limit after) =
    list_targets-Guarded namespace_id limit after
serve-Guarded c e (Request.get_target id) = get_target-Guarded id
serve-Guarded c e (Request.delete_target id) = delete_target-Guarded id
serve-Guarded c e (Request.create_target_set namespace_id name target_ids inputs) =
    create_target_set-Guarded e namespace_id name target_ids inputs
serve-Guarded c e (Request.update_target_set id name target_ids inputs) =
    update_target_set-Guarded e id name target_ids inputs
serve-Guarded c e (Request.list_target_sets namespace_id limit after) =
    list_target_sets-Guarded namespace_id limit after
serve-Guarded c e (Request.get_target_set id) = get_target_set-Guarded id
serve-Guarded c e (Request.create_schedule namespace_id input) =
    create_schedule-Guarded e c namespace_id input
serve-Guarded c e (Request.list_schedules namespace_id limit after) =
    list_schedules-Guarded namespace_id limit after
serve-Guarded c e (Request.get_schedule id) = get_schedule-Guarded id
serve-Guarded c e (Request.set_schedule_enabled id revision enabled) =
    set_schedule_enabled-Guarded e c id revision enabled
serve-Guarded c e (Request.create_run request_id job_id selection inputs) =
    create_run-Guarded e request_id job_id selection inputs
serve-Guarded c e (Request.list_runs filter limit before) = list_runs-Guarded filter limit before
serve-Guarded c e (Request.rerun_run source_id request_id) = rerun_run-Guarded source_id request_id
serve-Guarded c e (Request.get_run id) = get_run-Guarded id
serve-Guarded c e (Request.list_run_attempts id) = list_run_attempts-Guarded id
serve-Guarded c e (Request.list_run_events id) = list_run_events-Guarded id
serve-Guarded c e (Request.list_workers limit after) = list_workers-Guarded limit after
serve-Guarded c e (Request.get_worker worker_id) = get_worker-Guarded worker_id
serve-Guarded c e Request.overview = overview-Guarded
serve-Guarded c e Request.monitor_snapshot = monitor_snapshot-Guarded

module _ (b : Backend) (c : Calendar) (e : Value → Option ℕ) (q : Request) where
  -- Whatever the authorizer, the store and the clock answer, every call of the store that a request
  -- makes is covered by permissions, visibilities and answers that it got before, as the table of
  -- Permissions asks for that call.
  pub serve-Lawful : Lawful (run b [] (serve c e q)).0
  serve-Lawful = (run-Kept Anything b [] (serve c e q) (serve-Guarded c e q) tt tt tt).0

  -- Whatever the ports answer, a request to which the authorizer refuses a permission or a
  -- visibility ends with that refusal as its result, and asks for nothing more.
  pub serve-Ends : Ends (run b [] (serve c e q)).0 (run b [] (serve c e q)).1
  serve-Ends = (run-Kept Anything b [] (serve c e q) (serve-Guarded c e q) tt tt tt).1

  -- Every permission is asked for on a kind of resource that it stands for, and every visibility for
  -- a capability that has one.
  pub serve-Fitting : All Fitting (run b [] (serve c e q)).0
  serve-Fitting = (run-Kept Anything b [] (serve c e q) (serve-Guarded c e q) tt tt tt).2

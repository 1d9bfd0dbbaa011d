-- ===== src/Application/Permissions.antt =====
-- What the requests of application/service.rs have to do before each call of the store: a table of
-- the permissions that a call takes. It is stated over what counts as granted, as a visibility of
-- the caller and as an answer of the store.
pub mod Map
use crono.Prelude.{ℕ, Bool, true, false, List, All, ◌≡◌}
use crono.Domain.Schedule.{TargetSelection}
use crono.Dispatch.Status.{is_repeatable}
use crono.Authorization.Capabilities.{Capability, ResourceScope}
use crono.Authorization.Grants.{VisibilityScope}
use crono.Application.Model.{JobRecord, RunRecord, ScheduleRecord, TargetSetRecord}
use crono.Application.Program.{Call, Answer}

module _ (Granted : Capability → ResourceScope → Type 0)
    (Saw : Capability → VisibilityScope → Type 0) (Answered : (c : Call) → Answer c → Type 0) where
  -- some permission on that very resource
  abbrev pub Known : ResourceScope → Type 0
  Known resource = (capability : Capability) × Granted capability resource

  -- A list of one Namespace: its read permission there, and the caller's visibility.
  abbrev pub Listed : Capability → ℕ → VisibilityScope → Type 0
  Listed capability namespace_id visibility =
      Granted capability (ResourceScope.namespace namespace_id) × Saw capability visibility

  -- The permission to use what an execution selects: the Target, or the Target Set with every
  -- Target that the store answered for it.
  abbrev pub Usable : TargetSelection → Type 0
  Usable (TargetSelection.target id) = Granted Capability.target_use (ResourceScope.target id)
  Usable (TargetSelection.target_set id) =
      Granted Capability.target_set_use (ResourceScope.target_set id)
      × (found : TargetSetRecord) × Answered (Call.get_target_set id) found
      × All (λ member. Granted Capability.target_use (ResourceScope.target member.id)) found.targets

  -- the permission to read every member of a Target Set
  abbrev pub Readable : List ℕ → Type 0
  Readable ids = All (λ id. Granted Capability.target_read (ResourceScope.target id)) ids

  -- the permissions that running a Job in a Namespace takes
  abbrev pub Runnable : ℕ → ℕ → Type 0
  Runnable job_id namespace_id =
      Granted Capability.job_execute (ResourceScope.job job_id)
      × Granted Capability.run_create (ResourceScope.namespace namespace_id)

  -- what enabling a Schedule takes; disabling takes nothing more than its update
  abbrev pub Enabling : Bool → ScheduleRecord → Type 0
  Enabling false found = Unit
  Enabling true found =
      Granted Capability.job_read (ResourceScope.job found.schedule.job_id)
      × Runnable found.schedule.job_id found.schedule.namespace_id
      × Usable found.schedule.target

  abbrev pub OneRun : ℕ → VisibilityScope → Type 0
  OneRun id visibility =
      Granted Capability.run_read (ResourceScope.run id) × Saw Capability.run_read visibility

  -- A Run that may be repeated: it was read, its outcome is certain, and its Job, its Target and the
  -- Namespace of its Job are granted.
  abbrev pub Repeating : ℕ → Type 0
  Repeating source_id =
      (id : ℕ) × (visibility : VisibilityScope) × (source : RunRecord) × (job : JobRecord) × OneRun
        id visibility
      × Answered (Call.get_run id visibility) source
      × (source.run.id ≡ source_id)
      × (is_repeatable source.run.status ≡ true)
      × (source.has_execution_snapshot ≡ true)
      × Answered (Call.get_job source.run.job_id) job
      × Runnable source.run.job_id job.job.namespace_id
      × Granted Capability.target_use (ResourceScope.target source.run.target_id)

  abbrev pub Allowed : Call → Type 0
  Allowed (Call.create_namespace name) =
      Granted Capability.namespace_create ResourceScope.control_plane
  Allowed (Call.list_namespaces visibility limit after) = Saw Capability.namespace_read visibility
  Allowed (Call.get_namespace id) = Known (ResourceScope.namespace id)
  Allowed (Call.delete_namespace id) =
      Granted Capability.namespace_delete (ResourceScope.namespace id)
  Allowed (Call.create_queue name description) =
      Granted Capability.queue_create ResourceScope.control_plane
  Allowed (Call.list_queues limit after) = Granted Capability.queue_read ResourceScope.control_plane
  Allowed (Call.get_queue id) = Known (ResourceScope.queue id)
  Allowed (Call.delete_queue id) = Granted Capability.queue_delete (ResourceScope.queue id)
  Allowed (Call.update_queue id name description enabled) =
      Granted Capability.queue_update (ResourceScope.queue id)
  Allowed (Call.create_job namespace_id name definition) =
      Granted Capability.job_create (ResourceScope.namespace namespace_id)
      × Granted Capability.queue_read (ResourceScope.queue definition.queue_id)
  Allowed (Call.list_jobs namespace_id visibility limit after) =
      Listed Capability.job_read namespace_id visibility
  Allowed (Call.get_job id) = Known (ResourceScope.job id)
  Allowed (Call.update_job id name definition) =
      Granted Capability.job_update (ResourceScope.job id)
      × Granted Capability.queue_read (ResourceScope.queue definition.queue_id)
  Allowed (Call.create_target namespace_id name definition) =
      Granted Capability.target_create (ResourceScope.namespace namespace_id)
  Allowed (Call.list_targets namespace_id visibility limit after) =
      Listed Capability.target_read namespace_id visibility
  Allowed (Call.get_target id) = Known (ResourceScope.target id)
  Allowed (Call.delete_target id) = Granted Capability.target_delete (ResourceScope.target id)
  Allowed (Call.update_target id name definition) =
      Granted Capability.target_update (ResourceScope.target id)
  Allowed (Call.create_target_set namespace_id name target_ids inputs) =
      Granted Capability.target_set_create (ResourceScope.namespace namespace_id)
      × Readable target_ids
  Allowed (Call.list_target_sets namespace_id visibility limit after) =
      Listed Capability.target_set_read namespace_id visibility
  Allowed (Call.get_target_set id) = Known (ResourceScope.target_set id)
  Allowed (Call.update_target_set id name target_ids inputs) =
      Granted Capability.target_set_update (ResourceScope.target_set id) × Readable target_ids
  Allowed (Call.create_schedule schedule) =
      Granted Capability.schedule_create (ResourceScope.namespace schedule.namespace_id)
      × Granted Capability.job_read (ResourceScope.job schedule.job_id)
      × Runnable schedule.job_id schedule.namespace_id
      × Usable schedule.target
  Allowed (Call.list_schedules namespace_id visibility limit after) =
      Listed Capability.schedule_read namespace_id visibility
  Allowed (Call.get_schedule id) = Granted Capability.schedule_read (ResourceScope.schedule id)
  Allowed (Call.set_schedule_enabled schedule_id revision enabled next_run_at) =
      (id : ℕ) × (found : ScheduleRecord) × Granted Capability.schedule_update
        (ResourceScope.schedule id)
      × Answered (Call.get_schedule id) found
      × (found.schedule.id ≡ schedule_id)
      × Enabling enabled found
  Allowed (Call.create_runs request_id job_id selection inputs) =
      (found : JobRecord) × Answered (Call.get_job job_id) found
      × Runnable job_id found.job.namespace_id
      × Usable selection
  Allowed (Call.list_runs visibility filter limit before) = Saw Capability.run_read visibility
  Allowed (Call.rerun_run source_id request_id) = Repeating source_id
  Allowed (Call.get_run id visibility) = OneRun id visibility
  Allowed (Call.list_run_attempts id visibility) = OneRun id visibility
  Allowed (Call.list_run_events id visibility) = OneRun id visibility
  Allowed (Call.list_workers limit after) =
      Granted Capability.worker_read ResourceScope.control_plane
  Allowed (Call.get_worker worker_id) = Granted Capability.worker_read ResourceScope.control_plane
  Allowed (Call.overview visibility) = Saw Capability.overview_read visibility
  Allowed Call.monitor_snapshot = Granted Capability.monitor_read ResourceScope.control_plane

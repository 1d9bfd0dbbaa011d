-- ===== src/Application/Permissions/Map.antt =====
-- The table of Permissions under weaker notions of what is granted, visible and answered.
use crono.Prelude.{Bool, true, false, All-imp}
use crono.Domain.Schedule.{TargetSelection}
use crono.Authorization.Capabilities.{Capability, ResourceScope}
use crono.Authorization.Grants.{VisibilityScope}
use crono.Application.Model.{ScheduleRecord}
use crono.Application.Program.{Call, Answer}
use crono.Application.Permissions.{Usable, Enabling, Allowed}

module _ (G G' : Capability → ResourceScope → Type 0) (S S' : Capability → VisibilityScope → Type 0)
    (A A' : (c : Call) → Answer c → Type 0)
    (g : (c : Capability) (r : ResourceScope) → G c r → G' c r)
    (s : (c : Capability) (v : VisibilityScope) → S c v → S' c v)
    (a : (c : Call) (x : Answer c) → A c x → A' c x) where
  Usable-map : (selection : TargetSelection) → Usable G S A selection → Usable G' S' A' selection
  Usable-map (TargetSelection.target id) p = g _ _ p
  Usable-map (TargetSelection.target_set id) p =
      (g _ _ p.0, p.1, a _ _ p.2, All-imp _ _ p.1.targets (λ member. g _ _) p.3)

  Enabling-map :
      (switch : Bool) (found : ScheduleRecord)
      → Enabling G S A switch found
      → Enabling G' S' A' switch found
  Enabling-map false found p = tt
  Enabling-map true found p =
      (g _ _ p.0, (g _ _ p.1.0, g _ _ p.1.1), Usable-map found.schedule.target p.2)

  pub Allowed-map : (c : Call) → Allowed G S A c → Allowed G' S' A' c
  Allowed-map (Call.create_namespace name) p = g _ _ p
  Allowed-map (Call.list_namespaces visibility limit after) p = s _ _ p
  Allowed-map (Call.get_namespace id) p = (p.0, g _ _ p.1)
  Allowed-map (Call.delete_namespace id) p = g _ _ p
  Allowed-map (Call.create_queue name description) p = g _ _ p
  Allowed-map (Call.list_queues limit after) p = g _ _ p
  Allowed-map (Call.get_queue id) p = (p.0, g _ _ p.1)
  Allowed-map (Call.delete_queue id) p = g _ _ p
  Allowed-map (Call.update_queue id name description enabled) p = g _ _ p
  Allowed-map (Call.create_job namespace_id name definition) p = (g _ _ p.0, g _ _ p.1)
  Allowed-map (Call.list_jobs namespace_id visibility limit after) p = (g _ _ p.0, s _ _ p.1)
  Allowed-map (Call.get_job id) p = (p.0, g _ _ p.1)
  Allowed-map (Call.update_job id name definition) p = (g _ _ p.0, g _ _ p.1)
  Allowed-map (Call.create_target namespace_id name definition) p = g _ _ p
  Allowed-map (Call.list_targets namespace_id visibility limit after) p = (g _ _ p.0, s _ _ p.1)
  Allowed-map (Call.get_target id) p = (p.0, g _ _ p.1)
  Allowed-map (Call.delete_target id) p = g _ _ p
  Allowed-map (Call.update_target id name definition) p = g _ _ p
  Allowed-map (Call.create_target_set namespace_id name target_ids inputs) p =
      (g _ _ p.0, All-imp _ _ target_ids (λ id. g _ _) p.1)
  Allowed-map (Call.list_target_sets namespace_id visibility limit after) p = (g _ _ p.0, s _ _ p.1)
  Allowed-map (Call.get_target_set id) p = (p.0, g _ _ p.1)
  Allowed-map (Call.update_target_set id name target_ids inputs) p =
      (g _ _ p.0, All-imp _ _ target_ids (λ id. g _ _) p.1)
  Allowed-map (Call.create_schedule schedule) p =
      (g _ _ p.0, g _ _ p.1, (g _ _ p.2.0, g _ _ p.2.1), Usable-map schedule.target p.3)
  Allowed-map (Call.list_schedules namespace_id visibility limit after) p = (g _ _ p.0, s _ _ p.1)
  Allowed-map (Call.get_schedule id) p = g _ _ p
  Allowed-map (Call.set_schedule_enabled schedule_id revision enabled next_run_at) p =
      (p.0, p.1, g _ _ p.2, a _ _ p.3, p.4, Enabling-map enabled p.1 p.5)
  Allowed-map (Call.create_runs request_id job_id selection inputs) p =
      (p.0, a _ _ p.1, (g _ _ p.2.0, g _ _ p.2.1), Usable-map selection p.3)
  Allowed-map (Call.list_runs visibility filter limit before) p = s _ _ p
  Allowed-map (Call.rerun_run source_id request_id) p = (
    p.0,
    p.1,
    p.2,
    p.3,
    (g _ _ p.4.0, s _ _ p.4.1),
    a _ _ p.5,
    p.6,
    p.7,
    p.8,
    a _ _ p.9,
    (g _ _ p.10.0, g _ _ p.10.1),
    g _ _ p.11,
  )
  Allowed-map (Call.get_run id visibility) p = (g _ _ p.0, s _ _ p.1)
  Allowed-map (Call.list_run_attempts id visibility) p = (g _ _ p.0, s _ _ p.1)
  Allowed-map (Call.list_run_events id visibility) p = (g _ _ p.0, s _ _ p.1)
  Allowed-map (Call.list_workers limit after) p = g _ _ p
  Allowed-map (Call.get_worker worker_id) p = g _ _ p
  Allowed-map (Call.overview visibility) p = s _ _ p
  Allowed-map Call.monitor_snapshot p = g _ _ p

-- ===== src/Application/Model.antt =====
-- application/model.rs, and the data of application/store.rs: what use cases take, hand to the store
-- and get from it.
use crono.Prelude.{ℕ, Bool, Option, List, Text}
use crono.Domain.Json.{Value}
use crono.Domain.Numbers.{F64, ℤ}
use crono.Domain.Schedule.{TargetSelection, ScheduleTiming, MisfirePolicy, CatchupPolicy, Schedule}
use crono.Domain.Entities.{ExecutorKind, Job, Target, TargetSet, Run}
use crono.Dispatch.Status.{RunStatus}

pub record CreateQueueInput : Type 0 where
  pub name : Text
  pub description : Option Text

pub record UpdateQueueInput : Type 0 where
  pub name : Text
  pub description : Option Text
  pub enabled : Bool

pub record CreateJobInput : Type 0 where
  pub name : Text
  pub queue_id : ℕ
  pub executor : ExecutorKind
  pub executable : Option Text
  pub shell_command : Option Text
  pub arguments : List Text
  pub inputs : Value
  pub idempotent : Bool
  pub dry_run : Bool
  pub max_attempts : ℕ
  pub retry_initial_seconds : ℕ
  pub retry_max_seconds : ℕ
  pub retry_multiplier : F64
  pub retry_jitter : F64

pub record JobDefinition : Type 0 where
  pub executor : ExecutorKind
  pub queue_id : ℕ
  pub executable : Option Text
  pub shell_command : Option Text
  pub arguments : List Text
  pub inputs : Value
  pub idempotent : Bool
  pub dry_run : Bool
  pub max_attempts : ℕ
  pub retry_initial_seconds : ℕ
  pub retry_max_seconds : ℕ
  pub retry_multiplier : F64
  pub retry_jitter : F64

pub record TargetDefinition : Type 0 where
  pub arguments : List Text
  pub inputs : Value

pub record CreateScheduleInput : Type 0 where
  pub name : Text
  pub job_id : ℕ
  pub target : TargetSelection
  pub inputs : Value
  pub timing : ScheduleTiming
  pub misfire_policy : MisfirePolicy
  pub misfire_grace_seconds : Option ℕ
  pub catchup_policy : CatchupPolicy
  pub max_catchup_runs : ℕ
  pub max_catchup_age_seconds : ℕ

pub record NewSchedule : Type 0 where
  pub namespace_id : ℕ
  pub name : Text
  pub job_id : ℕ
  pub target : TargetSelection
  pub inputs : Value
  pub cron_expression : Option Text
  pub execute_at : Option ℕ
  pub timezone : Text
  pub next_run_at : ℕ
  pub misfire_policy : MisfirePolicy
  pub misfire_grace_seconds : Option ℕ
  pub catchup_policy : CatchupPolicy
  pub max_catchup_runs : ℕ
  pub max_catchup_age_seconds : ℕ

pub record RunListFilter : Type 0 where
  pub namespace_id : Option ℕ
  pub status : Option RunStatus
  pub job_id : Option ℕ
  pub target_id : Option ℕ
  pub target_set_id : Option ℕ

pub record Page (T : Type 0) : Type 0 where
  pub items : List T
  pub next_cursor : Option Text

pub record JobRecord : Type 0 where
  pub namespace : Text
  pub queue_name : Text
  pub job : Job

pub record TargetRecord : Type 0 where
  pub namespace : Text
  pub target : Target

pub record TargetSetRecord : Type 0 where
  pub namespace : Text
  pub target_set : TargetSet
  pub targets : List Target

pub record RunRecord : Type 0 where
  pub run : Run
  pub has_execution_snapshot : Bool
  pub job_namespace : Text
  pub job_name : Text
  pub target_namespace : Text
  pub target_name : Text
  pub target_set_name : Option Text
  pub queue_name : Text

pub record RunEventRecord : Type 0 where
  pub event_type : Text
  pub created_at : ℕ

pub record RunAttemptRecord : Type 0 where
  pub id : ℕ
  pub worker_id : Option Text
  pub attempt : ℕ
  pub status : Text
  pub started_at : Option ℕ
  pub completed_at : Option ℕ
  pub exit_code : Option ℤ
  pub stdout_tail : Option Text
  pub stderr_tail : Option Text
  pub error : Option Text

pub record WorkerDiagnostics : Type 0 where
  pub hostname : Text
  pub os : Text
  pub architecture : Text
  pub default_shell_path : Text
  pub default_shell_present : Bool
  pub dry_run : Bool
  pub lang : Option Text
  pub lc_all : Option Text
  pub tz : Option Text

pub record WorkerRecord : Type 0 where
  pub worker_id : Text
  pub queue_id : ℕ
  pub queue : Text
  pub concurrency : ℕ
  pub version : Text
  pub started_at : ℕ
  pub last_seen_at : ℕ
  pub active_executions : ℕ
  pub diagnostics : Option WorkerDiagnostics

pub record ScheduleRecord : Type 0 where
  pub schedule : Schedule
  pub namespace : Text
  pub job_name : Text
  pub target_name : Text

pub record Overview : Type 0 where
  pub namespaces : ℕ
  pub jobs : ℕ
  pub targets : ℕ
  pub target_sets : ℕ
  pub schedules : ℕ
  pub runs : ℕ

pub record MetricsSnapshot : Type 0 where
  pub outbox_pending : ℤ
  pub outbox_oldest_seconds : ℤ
  pub execution_queued : ℤ
  pub execution_running : ℤ
  pub worker_active : ℤ

pub record MonitorSnapshot : Type 0 where
  pub database_size_bytes : ℤ
  pub database_connections : ℤ
  pub pool_connections : ℕ
  pub pool_idle_connections : ℕ
  pub pool_max_connections : ℕ
  pub enabled_schedules : ℤ
  pub due_schedules : ℤ
  pub earliest_next_run_at : Option ℕ
  pub online_workers : ℤ
  pub metrics : MetricsSnapshot

pub record CreateRunOutcome : Type 0 where
  pub runs : List RunRecord
  pub created : Bool

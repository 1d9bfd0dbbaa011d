-- ===== src/Domain/Entities.antt =====
-- domain/namespace.rs, queue.rs, job.rs, target.rs, target_set.rs and run.rs: the entities that the
-- application passes on. A UUID is a number, and an instant a number as in Domain/Schedule.
use crono.Prelude.{ℕ, Bool, Option, List, Text}
use crono.Domain.Json.{Value}
use crono.Domain.Numbers.{F64}
use crono.Dispatch.Status.{RunStatus}

pub record Namespace : Type 0 where
  pub id : ℕ
  pub name : Text
  pub created_at : ℕ

pub record Queue : Type 0 where
  pub id : ℕ
  pub name : Text
  pub description : Option Text
  pub enabled : Bool
  pub system : Bool
  pub created_at : ℕ
  pub updated_at : ℕ

pub data ExecutorKind : Type 0 where
  noop process shell : ExecutorKind

pub record Job : Type 0 where
  pub id : ℕ
  pub namespace_id : ℕ
  pub name : Text
  pub executor : ExecutorKind
  pub queue_id : ℕ
  pub executable : Option Text
  pub shell_command : Option Text
  pub arguments : List Text
  pub inputs : Value
  pub idempotent : Bool
  pub dry_run : Bool
  pub max_attempts : ℕ
  pub retry_initial_seconds : ℕ
  pub retry_max_seconds : ℕ
  pub retry_multiplier : F64
  pub retry_jitter : F64
  pub created_at : ℕ
  pub updated_at : ℕ

pub record Target : Type 0 where
  pub id : ℕ
  pub namespace_id : ℕ
  pub name : Text
  pub arguments : List Text
  pub inputs : Value
  pub created_at : ℕ
  pub updated_at : ℕ

pub record TargetSet : Type 0 where
  pub id : ℕ
  pub namespace_id : ℕ
  pub name : Text
  pub members : List ℕ
  pub inputs : Value
  pub created_at : ℕ
  pub updated_at : ℕ

pub record Run : Type 0 where
  pub id : ℕ
  pub request_id : Option ℕ
  pub rerun_of_run_id : Option ℕ
  pub schedule_id : Option ℕ
  pub job_id : ℕ
  pub target_id : ℕ
  pub queue_id : ℕ
  pub status : RunStatus
  pub scheduled_at : ℕ
  pub created_at : ℕ
  pub queued_at : Option ℕ
  pub started_at : Option ℕ
  pub completed_at : Option ℕ
  pub attempt_count : ℕ
  pub max_attempts : ℕ
  pub lateness_seconds : ℕ
  pub terminal_reason : Option Text

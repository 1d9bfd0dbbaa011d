-- ===== src/Domain/Schedule.antt =====
-- services/server/src/domain/schedule.rs, and the plan of application/store.rs. A UUID is the
-- number that its 128 bits stand for. An instant is a number of nanoseconds since the first instant
-- that the calendar can represent, which is a whole minute; arithmetic that leaves the calendar,
-- where the `time` crate panics, is not modelled.
use Prim.Native.String.{String}
use crono.Prelude.{ℕ, Bool, Option, List, Text}
use crono.Domain.Json.{Value}

pub data MisfirePolicy : Type 0 where
  run_late skip grace_period : MisfirePolicy

pub data CatchupPolicy : Type 0 where
  skip run_once catch_up : CatchupPolicy

pub data ScheduleTiming : Type 0 where
  cron : Text → Text → ScheduleTiming
  once : ℕ → ScheduleTiming

-- explicit single-Target or Target Set selection
pub data TargetSelection : Type 0 where
  target : ℕ → TargetSelection
  target_set : ℕ → TargetSelection

pub record Schedule : Type 0 where
  pub id : ℕ
  pub namespace_id : ℕ
  pub name : Text
  pub job_id : ℕ
  pub target : TargetSelection
  pub inputs : Value
  pub timing : ScheduleTiming
  pub enabled : Bool
  pub next_run_at : Option ℕ
  pub last_run_at : Option ℕ
  pub misfire_policy : MisfirePolicy
  pub misfire_grace_seconds : Option ℕ
  pub catchup_policy : CatchupPolicy
  pub max_catchup_runs : ℕ
  pub max_catchup_age_seconds : ℕ
  pub revision : ℕ
  pub created_at : ℕ
  pub updated_at : ℕ

pub record PlannedOccurrence : Type 0 where
  pub scheduled_at : ℕ
  pub execute : Bool
  pub lateness_seconds : ℕ
  pub reason : Option String
  pub dispatch_deadline : Option ℕ

pub record SchedulePlan : Type 0 where
  pub schedule_id : ℕ
  pub owner : ℕ
  pub occurrences : List PlannedOccurrence
  pub next_run_at : Option ℕ
  pub disable : Bool

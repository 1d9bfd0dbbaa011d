-- ===== src/Scheduler/Misfire.antt =====
-- services/server/src/scheduler/misfire.rs. Instants are numbers, so that `-`, which stops at 0,
-- is the clamp `.max(0)` of the source.
use crono.Prelude.{ℕ, ◌-◌, ◌/◌, Bool, true, false, Option, none, some, leb, if◌then◌else◌}
use crono.Domain.Schedule.{MisfirePolicy}

pub data MisfireDecision : Type 0 where
  execute : ℕ → MisfireDecision
  skip : ℕ → MisfireDecision

abbrev pub nanos_per_second : ℕ
nanos_per_second = 1_000_000_000

-- `(now - scheduled_at).whole_seconds().max(0)`
abbrev pub lateness : ℕ → ℕ → ℕ
lateness scheduled_at now = (now - scheduled_at) / nanos_per_second

-- the `match policy` of `decide_misfire`
abbrev pub eligible : MisfirePolicy → Option ℕ → ℕ → Bool
eligible MisfirePolicy.run_late grace_seconds late = true
eligible MisfirePolicy.skip grace_seconds late = leb late 30
eligible MisfirePolicy.grace_period none late = false
eligible MisfirePolicy.grace_period (some grace) late = leb late grace

unfoldable pub decide_misfire : MisfirePolicy → Option ℕ → ℕ → ℕ → MisfireDecision
decide_misfire policy grace_seconds scheduled_at now =
    let late = lateness scheduled_at now in
    if eligible policy grace_seconds late
    then MisfireDecision.execute late
    else MisfireDecision.skip late

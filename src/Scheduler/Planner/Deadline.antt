-- ===== src/Scheduler/Planner/Deadline.antt =====
-- Which occurrences are to be executed, and until when they may be dispatched.
use Prim.Native.String.{String}
use crono.Prelude.{
  ℕ, ◌+◌, ◌*◌, ◌<◌, ◌≡◌, refl, ◌∙◌, ◌↔◌, ◌⊎◌, inl, inr, true, false, Bool-cases, Option, none, some,
  arith,
}
use crono.Domain.Schedule.{MisfirePolicy, Schedule}
use crono.Scheduler.Misfire.{MisfireDecision, nanos_per_second, decide_misfire}
use crono.Scheduler.Planner.{occurrence, decided, dispatch_deadline}

-- The misfire policies by instants: how long after `scheduled_at` an occurrence still runs.
abbrev pub Tolerated : MisfirePolicy → Option ℕ → ℕ → ℕ → Type 0
Tolerated MisfirePolicy.run_late grace scheduled_at now = Unit
Tolerated MisfirePolicy.skip grace scheduled_at now = now < scheduled_at + 31 * nanos_per_second
Tolerated MisfirePolicy.grace_period none scheduled_at now = ⊥
Tolerated MisfirePolicy.grace_period (some g) scheduled_at now =
    now < scheduled_at + (g + 1) * nanos_per_second

decided_execute_iff :
    (s : Schedule) (policy : MisfirePolicy) (grace : Option ℕ) (t now : ℕ) (reason : Option String)
    → (decided s t reason (decide_misfire policy grace t now)).execute ≡ true
      ↔ Tolerated policy grace t now
unfolding decided decide_misfire
decided_execute_iff s MisfirePolicy.run_late grace t now reason = ground arith
decided_execute_iff s MisfirePolicy.skip grace t now reason = ground arith
decided_execute_iff s MisfirePolicy.grace_period none t now reason = ground arith
decided_execute_iff s MisfirePolicy.grace_period (some g) t now reason = ground arith

-- An occurrence is marked for execution exactly if its policy tolerates its lateness: `run_late`
-- always, `skip` for less than 31 seconds, `grace_period` for less than a second more than the
-- grace, and never where `grace_period` has no grace.
pub occurrence_execute_iff :
    (s : Schedule) (t now : ℕ) (reason : Option String)
    → (occurrence s t now reason).execute ≡ true
      ↔ Tolerated s.misfire_policy s.misfire_grace_seconds t now
unfolding occurrence
occurrence_execute_iff s t now reason =
    decided_execute_iff s s.misfire_policy s.misfire_grace_seconds t now reason

decided_deadline :
    (s : Schedule) (policy : MisfirePolicy) (grace : Option ℕ) (t now d : ℕ)
    (reason : Option String)
    → dispatch_deadline policy grace t ≡ some d
    → (decided s t reason (decide_misfire policy grace t now)).execute ≡ true
      ↔ (now < d + nanos_per_second)
unfolding decided decide_misfire dispatch_deadline
decided_deadline s MisfirePolicy.run_late grace t now d reason e = cc
decided_deadline s MisfirePolicy.skip grace t now d reason e = ground arith
decided_deadline s MisfirePolicy.grace_period none t now d reason e = cc
decided_deadline s MisfirePolicy.grace_period (some g) t now d reason e = ground arith

decided_carries :
    (s : Schedule) (t : ℕ) (reason : Option String) (decision : MisfireDecision)
    → (decided s t reason decision).execute ≡ true
    → (decided s t reason decision).dispatch_deadline
      ≡ dispatch_deadline s.misfire_policy s.misfire_grace_seconds t
unfolding decided
decided_carries s t reason (MisfireDecision.execute late) h = refl
decided_carries s t reason (MisfireDecision.skip late) h = cc

-- The planner's test and the dispatch deadline differ by up to a second: where the policy has a
-- deadline `d`, the occurrence is marked for execution exactly while `now < d + 1 s`, and then it
-- carries `d` itself. So an occurrence planned between `d` and `d + 1 s` is marked for execution
-- with a deadline that has passed.
pub occurrence_deadline :
    (s : Schedule) (t now d : ℕ) (reason : Option String)
    → dispatch_deadline s.misfire_policy s.misfire_grace_seconds t ≡ some d
    → ((occurrence s t now reason).execute ≡ true ↔ (now < d + nanos_per_second))
      × (((occurrence s t now reason).execute ≡ false)
          ⊎ ((occurrence s t now reason).dispatch_deadline ≡ some d))
unfolding occurrence
occurrence_deadline s t now d reason e = (
  decided_deadline s s.misfire_policy s.misfire_grace_seconds t now d reason e,
  elim (Bool-cases (occurrence s t now reason).execute) [
    | inl runs ↦ inr (
        decided_carries s t reason (decide_misfire s.misfire_policy s.misfire_grace_seconds t now)
          runs
        ∙ e)
    | inr skips ↦ inl skips
  ],
)

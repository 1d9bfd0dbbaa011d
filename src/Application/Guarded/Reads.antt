-- ===== src/Application/Guarded/Reads.antt =====
-- The use cases of application/service.rs that read Runs, Schedules, workers and totals keep to the table.
use crono.Prelude.{ℕ, Option, [], at0, at1, at2, refl, Text, same_text}
use crono.Authorization.Capabilities.{Capability, identifier, accepts_resource}
use crono.Authorization.Policy.{last_part}
use crono.Application.Model.{RunListFilter}
use crono.Application.Guarded.{Guarded, Anything}
use crono.Application.Schedules.{list_schedules, get_schedule}
use crono.Application.Runs.{
  list_runs, get_run, list_run_attempts, list_run_events, list_workers, get_worker, overview,
  monitor_snapshot,
}

pub list_runs-Guarded :
    (filter : RunListFilter) (limit : Option ℕ) (before : Option ℕ)
    → Guarded Anything [] (list_runs filter limit before)
unfolding list_runs accepts_resource last_part same_text identifier
list_runs-Guarded filter limit before =
    (refl, refl, λ v. λ size _. (at0, λ a. tt, λ e. tt), λ e. refl)

pub get_run-Guarded : (id : ℕ) → Guarded Anything [] (get_run id)
unfolding get_run accepts_resource last_part same_text identifier
get_run-Guarded id = (refl, (refl, refl, λ v. ((at1, at0), λ a. tt, λ e. tt), λ e. refl), λ e. refl)

pub list_run_attempts-Guarded : (id : ℕ) → Guarded Anything [] (list_run_attempts id)
unfolding list_run_attempts accepts_resource last_part same_text identifier
list_run_attempts-Guarded id =
    (refl, (refl, refl, λ v. ((at1, at0), λ a. tt, λ e. tt), λ e. refl), λ e. refl)

pub list_run_events-Guarded : (id : ℕ) → Guarded Anything [] (list_run_events id)
unfolding list_run_events accepts_resource last_part same_text identifier
list_run_events-Guarded id =
    (refl, (refl, refl, λ v. ((at1, at0), λ a. tt, λ e. tt), λ e. refl), λ e. refl)

pub list_workers-Guarded :
    (limit : Option ℕ) (after : Option Text) → Guarded Anything [] (list_workers limit after)
unfolding list_workers accepts_resource
list_workers-Guarded limit after = (refl, λ size _ cursor _. (at0, λ a. tt, λ e. tt), λ e. refl)

pub get_worker-Guarded : (worker_id : Text) → Guarded Anything [] (get_worker worker_id)
unfolding get_worker accepts_resource
get_worker-Guarded worker_id = (refl, λ stored _. (at0, λ a. tt, λ e. tt), λ e. refl)

pub overview-Guarded : Guarded Anything [] overview
unfolding overview last_part same_text identifier
overview-Guarded = (refl, refl, λ v. (at0, λ a. tt, λ e. tt), λ e. refl)

pub monitor_snapshot-Guarded : Guarded Anything [] monitor_snapshot
unfolding monitor_snapshot accepts_resource
monitor_snapshot-Guarded = (refl, (at0, λ a x _. tt, λ e x _. tt), λ e. refl)

pub list_schedules-Guarded :
    (namespace_id : ℕ) (limit : Option ℕ) (after : Option Text)
    → Guarded Anything [] (list_schedules namespace_id limit after)
unfolding list_schedules accepts_resource last_part same_text identifier
list_schedules-Guarded namespace_id limit after = (
  refl,
  (
    refl,
    refl,
    λ v. λ size _ cursor _.
        ((Capability.schedule_read, at1), λ a. ((at2, at1), λ a. tt, λ e. tt), λ e. tt),
    λ e. refl,
  ),
  λ e. refl,
)

pub get_schedule-Guarded : (id : ℕ) → Guarded Anything [] (get_schedule id)
unfolding get_schedule accepts_resource
get_schedule-Guarded id = (refl, (at0, λ a. tt, λ e. tt), λ e. refl)

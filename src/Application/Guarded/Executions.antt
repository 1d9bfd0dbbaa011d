-- ===== src/Application/Guarded/Executions.antt =====
-- The use cases of application/service.rs that check the members of a Target Set, or what an
-- execution selects, keep to the table.
use crono.Prelude.{
  ℕ, Bool, true, false, Option, List, [], at0, at1, at2, at3, at4, at5, at6, refl, Text, same_text,
  Memᴰ,
}
use crono.Domain.Json.{Value}
use crono.Domain.Schedule.{TargetSelection, ScheduleTiming}
use crono.Dispatch.Status.{is_repeatable}
use crono.Authorization.Capabilities.{Capability, ResourceScope, identifier, accepts_resource}
use crono.Authorization.Policy.{last_part}
use crono.Scheduler.Recurrence.{Calendar}
use crono.Application.Model.{CreateScheduleInput, ScheduleRecord}
use crono.Application.Program.{Call, store}
use crono.Application.Policy.{History, Granted, Readable, Enabling}
use crono.Application.Guarded.{Guarded, Anything, guard-ok, >>=-Guarded}
use crono.Application.Targets.{
  validate_target_members, execution_targets, create_target_set, update_target_set,
}
use crono.Application.Schedules.{
  schedule_targets, create_schedule, enabled_next, enable_targets, next_when, get_schedule,
  set_schedule_enabled,
}
use crono.Application.Runs.{run_targets, create_run, get_run, rerun_run}
use crono.Application.Guarded.Selections.{
  Later, Usable-Later, members-Guarded, Selected, execution_targets-Guarded,
}

module _ (encoded_len : Value → Option ℕ) where
  pub create_target_set-Guarded :
      (namespace_id : ℕ) (value : Text) (ids : List ℕ) (inputs : Value)
      → Guarded Anything [] (create_target_set encoded_len namespace_id value ids inputs)
  unfolding create_target_set accepts_resource
  create_target_set-Guarded namespace_id value ids inputs = λ name _ u _ w _. (
    refl,
    >>=-Guarded
        (λ later u.
          Granted later Capability.target_set_create (ResourceScope.namespace namespace_id)
          × Readable later ids)
        Anything _ (validate_target_members namespace_id ids)
        (λ u. store (Call.create_target_set namespace_id name ids inputs))
        (members-Guarded _ namespace_id ids _ (λ later l readable. (l _ at0, readable)))
        (λ later u ready. (ready, λ a. tt, λ e. tt)),
    λ e. refl,
  )

  pub update_target_set-Guarded :
      (id : ℕ) (value : Text) (ids : List ℕ) (inputs : Value)
      → Guarded Anything [] (update_target_set encoded_len id value ids inputs)
  unfolding update_target_set accepts_resource
  update_target_set-Guarded id value ids inputs = λ name _ u _ w _. (
    refl,
    (
      (Capability.target_set_update, at0),
      λ existing.
          >>=-Guarded
            (λ later u.
              Granted later Capability.target_set_update (ResourceScope.target_set id)
              × Readable later ids)
            Anything _ (validate_target_members existing.target_set.namespace_id ids)
            (λ u. store (Call.update_target_set id name ids inputs))
            (members-Guarded _ existing.target_set.namespace_id ids _
              (λ later l readable. (l _ at1, readable)))
            (λ later u ready. (ready, λ a. tt, λ e. tt)),
      λ e. tt,
    ),
    λ e. refl,
  )

  pub create_run-Guarded :
      (request_id job_id : ℕ) (selection : TargetSelection) (inputs : Value)
      → Guarded Anything [] (create_run encoded_len request_id job_id selection inputs)
  unfolding create_run run_targets accepts_resource
  create_run-Guarded request_id job_id selection inputs = λ u _. (
    refl,
    (
      (Capability.job_execute, at0),
      λ job.
          >>=-Guarded (Selected _ selection) Anything _ (execution_targets selection)
            (run_targets encoded_len request_id job_id selection inputs job)
            (execution_targets-Guarded selection _)
            (λ later found ready u _ w _. (
              refl,
              (
                (
                  job,
                  Memᴰ.tail (ready.0 _ at0),
                  (Memᴰ.tail (ready.0 _ at1), at0),
                  Usable-Later later _ selection (λ e m. Memᴰ.tail m) ready.1,
                ),
                λ a x _. tt,
                λ e. tt,
              ),
              λ e. refl,
            )),
      λ e. tt,
    ),
    λ e. refl,
  )

  module _ (calendar : Calendar) where
    pub create_schedule-Guarded :
        (namespace_id : ℕ) (input : CreateScheduleInput)
        → Guarded Anything [] (create_schedule calendar encoded_len namespace_id input)
    unfolding create_schedule schedule_targets accepts_resource
    create_schedule-Guarded namespace_id input = λ name _ u _. (
      refl,
      (
        refl,
        (
          refl,
          (
            refl,
            (
              (Capability.job_read, at2),
              λ job.
                  >>=-Guarded (Selected _ input.target) Anything _ (execution_targets input.target)
                    (schedule_targets calendar encoded_len namespace_id name input job)
                    (execution_targets-Guarded input.target _)
                    (λ later found ready u _ w _ z _ now x _ timing _. (
                      (ready.0 _ at4, ready.0 _ at3, (ready.0 _ at2, ready.0 _ at1), ready.1),
                      λ a. tt,
                      λ e. tt,
                    )),
              λ e. tt,
            ),
            λ e. refl,
          ),
          λ e. refl,
        ),
        λ e. refl,
      ),
      λ e. refl,
    )

    enabled_next-Guarded :
        (Q : History → Option ℕ → Type 0) (timing : ScheduleTiming) (h : History)
        → ((next : Option ℕ) → Q h next)
        → Guarded Q h (enabled_next calendar encoded_len timing)
    unfolding enabled_next
    enabled_next-Guarded Q (ScheduleTiming.cron expression timezone) h k = λ t x _ next _ y _. k y
    enabled_next-Guarded Q (ScheduleTiming.once execute_at) h k = λ x _. k x

    next_when-Guarded :
        (switch : Bool) (found : ScheduleRecord) (h : History)
        → Guarded
            (λ later next. Later h later × Enabling later switch found)
            h
            (next_when calendar encoded_len switch found)
    unfolding next_when enable_targets enabled_next accepts_resource
    next_when-Guarded false found h = λ x _. ((λ e m. m), tt)
    next_when-Guarded true found h = (
      refl,
      (
        refl,
        (
          refl,
          >>=-Guarded (Selected _ found.schedule.target)
              (λ later next. Later h later × Enabling later true found) _
              (execution_targets found.schedule.target) (enable_targets calendar encoded_len found)
              (execution_targets-Guarded found.schedule.target _)
              (λ later selected ready u _.
                enabled_next-Guarded _ found.schedule.timing later (λ next. (
                  (λ e m. ready.0 e (Memᴰ.tail (Memᴰ.tail (Memᴰ.tail m)))),
                  (ready.0 _ at2, (ready.0 _ at1, ready.0 _ at0), ready.1),
                ))),
          λ e. refl,
        ),
        λ e. refl,
      ),
      λ e. refl,
    )

    pub set_schedule_enabled-Guarded :
        (id revision : ℕ) (switch : Bool)
        → Guarded Anything [] (set_schedule_enabled calendar encoded_len id revision switch)
    unfolding set_schedule_enabled get_schedule accepts_resource
    set_schedule_enabled-Guarded id revision switch = (
      refl,
      (
        at0,
        λ found. (
          refl,
          >>=-Guarded _ Anything _ (next_when calendar encoded_len switch found)
              (λ next. store (Call.set_schedule_enabled found.schedule.id revision switch next))
              (next_when-Guarded switch found _)
              (λ later next ready.
                ((id, found, ready.0 _ at0, ready.0 _ at1, refl, ready.1), λ a. tt, λ e. tt)),
          λ e. refl,
        ),
        λ e. tt,
      ),
      λ e. refl,
    )

pub rerun_run-Guarded :
    (source_id request_id : ℕ) → Guarded Anything [] (rerun_run source_id request_id)
unfolding rerun_run get_run accepts_resource last_part same_text identifier
rerun_run-Guarded source_id request_id = (
  refl,
  (
    refl,
    refl,
    λ v. (
      (at1, at0),
      λ source u repeatable w prepared. (
        refl,
        (
          (Capability.job_execute, at0),
          λ job. (
            refl,
            (
              refl,
              (
                (
                  source_id,
                  v,
                  source,
                  job,
                  (at6, at5),
                  at4,
                  refl,
                  guard-ok (is_repeatable source.run.status) _ repeatable,
                  guard-ok source.has_execution_snapshot _ prepared,
                  at2,
                  (at3, at0),
                  at1,
                ),
                λ a x _. tt,
                λ e. tt,
              ),
              λ e. refl,
            ),
            λ e. refl,
          ),
          λ e. tt,
        ),
        λ e. refl,
      ),
      λ e. tt,
    ),
    λ e. refl,
  ),
  λ e. refl,
)

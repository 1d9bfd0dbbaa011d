-- ===== src/Dispatch/Moves/Creation.antt =====
-- What the creation of Runs may do to the rows: `create_attempt_and_outbox`, `create_normal_run`
-- and `insert_scheduled_occurrence`.
use crono.Prelude.{
  min, ℕ, ◌≡◌, Option, none, Bool-cases, inl, inr, Result, ok, >>=-ok, ok-inj, Text,
}
use crono.Domain.Schedule.{PlannedOccurrence}
use crono.Dispatch.Status.{RunStatus, run_is_pending}
use crono.Dispatch.Tables.{Run, Store, OccurrenceKey, ExecutionSnapshot}
use crono.Dispatch.Create.{
  Fresh, new_attempt, new_outbox, create_attempt_and_outbox, insert_run, insert_run_event,
  PreparedRun, normal_run, create_normal_run, ExecutionRow, occurrence_status, scheduled_run,
  mark_index, insert_occurrence, insert_scheduled_occurrence, max_lateness,
}
use crono.Dispatch.Soundness.Creation.{created-inv, inserted-inv}
use crono.Dispatch.Moves.{
  RunMoves, AttemptMoves, OutboxMoves, Moves, run_stays, attempt_stays, outbox_stays,
  insert_row-Kept, Moves-refl, Moves-trans,
}
use crono.Dispatch.Moves.Each.{same_attempts, same_runs, same_outbox}

pub create_attempt_and_outbox-Moves :
    (now : ℕ) (fresh : Fresh) (run_id attempt queue_id : ℕ) (deadline : Option ℕ) (s t : Store)
    → create_attempt_and_outbox now fresh run_id attempt queue_id deadline s ≡ ok t
    → Moves s t
create_attempt_and_outbox-Moves now fresh run_id attempt queue_id deadline s t h =
    let (no_attempt, no_row, same) = created-inv now fresh run_id attempt queue_id deadline s t h in
    rw (← same) (record {
      runs = same_runs s.runs;
      attempts =
          insert_row-Kept AttemptMoves attempt_stays s.attempts fresh.attempt_id
            (new_attempt run_id attempt) no_attempt;
      outbox =
          insert_row-Kept OutboxMoves outbox_stays s.outbox fresh.dispatch_id
            (new_outbox now fresh run_id queue_id deadline) no_row;
    })

insert_run-Moves : (run : Run) (s t : Store) → insert_run run s ≡ ok t → Moves s t
insert_run-Moves run s t h =
    let (fits, absent, same) = inserted-inv run s t h in
    rw (← same) (record {
      runs = insert_row-Kept RunMoves run_stays s.runs run.id run absent;
      attempts = same_attempts s.attempts;
      outbox = same_outbox s.outbox;
    })

pub create_normal_run-Moves :
    (now : ℕ) (fresh : Fresh) (prepared : PreparedRun) (s t : Store)
    → create_normal_run now fresh prepared s ≡ ok t
    → Moves s t
unfolding create_normal_run insert_run_event
create_normal_run-Moves now fresh prepared s t h =
    let (m, inserted, rest) = >>=-ok (insert_run (normal_run now prepared) s) _ h in
    let (u, created, last) =
      >>=-ok (create_attempt_and_outbox now fresh prepared.id 1 prepared.queue_id none m) _ rest in
    let both = Moves-trans s m u (insert_run-Moves (normal_run now prepared) s m inserted) (
      create_attempt_and_outbox-Moves now fresh prepared.id 1 prepared.queue_id none m u created) in
    rw (← ok-inj last) (record { runs = both.runs; attempts = both.attempts; outbox = both.outbox })

insert_occurrence-Moves :
    (now run_id : ℕ) (fresh : Fresh) (key : OccurrenceKey) (execution : ExecutionRow) (lateness : ℕ)
    (deadline : Option ℕ) (snapshot : ExecutionSnapshot) (status : RunStatus) (reason : Option Text)
    (s t : Store)
    → insert_occurrence now run_id fresh key execution lateness deadline snapshot status reason s
      ≡ ok t
    → Moves s t
unfolding insert_occurrence insert_run_event
insert_occurrence-Moves now run_id fresh key execution lateness deadline snapshot status reason s t
      h =
    let run = scheduled_run now run_id key execution lateness snapshot status reason in
    let (m, inserted, rest) = >>=-ok (insert_run run s) _ h in
    let first = insert_run-Moves run s m inserted in
    elim (Bool-cases (run_is_pending status)) [
      | inl pending ↦
          let (u, created, last) =
            >>=-ok
              (create_attempt_and_outbox now fresh run_id 1 execution.queue_id deadline
                (mark_index key m))
              _ (rw pending at rest) in
          let next =
            create_attempt_and_outbox-Moves now fresh run_id 1 execution.queue_id deadline
              (mark_index key m) u created in
          let both =
            Moves-trans s m u first
              (record { runs = next.runs; attempts = next.attempts; outbox = next.outbox }) in
          rw (← ok-inj last)
            (record { runs = both.runs; attempts = both.attempts; outbox = both.outbox })
      | inr closed ↦
          rw (← ok-inj (rw closed at rest))
            (record { runs = first.runs; attempts = first.attempts; outbox = first.outbox })
    ]

pub insert_scheduled_occurrence-Moves :
    (now run_id : ℕ) (fresh : Fresh) (schedule_id : ℕ) (planned : PlannedOccurrence)
    (execution : ExecutionRow) (rendered : Result Text ExecutionSnapshot) (reason : Option Text)
    (s t : Store)
    → insert_scheduled_occurrence now run_id fresh schedule_id planned execution rendered reason s
      ≡ ok t
    → Moves s t
unfolding insert_scheduled_occurrence
insert_scheduled_occurrence-Moves now run_id fresh schedule_id planned execution rendered reason s t
      h =
    let key : OccurrenceKey = record {
      schedule_id = schedule_id;
      scheduled_at = planned.scheduled_at;
      target_id = execution.target_id;
    } in
    let (snapshot, status) = occurrence_status planned.execute rendered in
    elim (Bool-cases (s.occurrence_index key)) [
      | inl there ↦ rw (← ok-inj (rw there at h)) (Moves-refl s)
      | inr fresh_key ↦
          insert_occurrence-Moves now run_id fresh key execution
            (min planned.lateness_seconds max_lateness) planned.dispatch_deadline snapshot status
            reason s t (rw fresh_key at h)
    ]

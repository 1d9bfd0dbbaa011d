-- ===== src/Dispatch/Soundness/Occurrence.antt =====
-- `insert_scheduled_occurrence` keeps the invariant.
use crono.Prelude.{
  min, ℕ, ◌≡◌, refl, ap, sym, inl, inr, Bool, true, false, Option, arith, Bool-cases, Result, ok,
  err, Text, ok-inj, >>=-ok,
}
use crono.Dispatch.Status.{RunStatus, run_is_retry_wait, run_is_pending}
use crono.Dispatch.Tables.{Store, OccurrenceKey, ExecutionSnapshot}
use crono.Dispatch.Create.{
  Fresh, create_attempt_and_outbox, insert_run, insert_run_event, ExecutionRow, occurrence_status,
  scheduled_run, mark_index, insert_occurrence, insert_scheduled_occurrence, max_lateness,
}
use crono.Domain.Schedule.{PlannedOccurrence}
use crono.Dispatch.Soundness.{IsConsistent}
use crono.Dispatch.Soundness.Creation.{
  inserted-inv, final_run-IsConsistent, first_attempt-IsConsistent,
}

never_waits :
    (execute : Bool) (rendered : Result Text ExecutionSnapshot)
    → run_is_retry_wait (occurrence_status execute rendered).1 ≡ false
never_waits true (ok snapshot) = refl
never_waits false (ok snapshot) = refl
never_waits execute (err message) = refl

-- Materializing an occurrence keeps the tables consistent.
insert_occurrence-IsConsistent :
    (now run_id : ℕ) (fresh : Fresh) (key : OccurrenceKey) (execution : ExecutionRow) (lateness : ℕ)
    (deadline : Option ℕ) (snapshot : ExecutionSnapshot) (status : RunStatus) (reason : Option Text)
    (s t : Store)
    → IsConsistent s
    → run_is_retry_wait status ≡ false
    → insert_occurrence now run_id fresh key execution lateness deadline snapshot status reason s
      ≡ ok t
    → IsConsistent t
unfolding insert_occurrence insert_run_event
insert_occurrence-IsConsistent now run_id fresh key execution lateness deadline snapshot status
      reason s t inv fine h =
    let run = scheduled_run now run_id key execution lateness snapshot status reason in
    let (m, inserted, rest) = >>=-ok (insert_run run s) _ h in
    elim (Bool-cases (run_is_pending status)) [
      | inl pending ↦
          let (u, created, last) =
            >>=-ok
              (create_attempt_and_outbox now fresh run_id 1 execution.queue_id deadline
                (mark_index key m))
              _ (rw pending at rest) in
          let (fits, absent, same) = inserted-inv run s m inserted in
          let done =
            first_attempt-IsConsistent now fresh execution.queue_id deadline run s
              (mark_index key m) u inv (rw pending refl) (ground arith)
              (λ j. ap (λ (x : Store). x.runs j) (sym same))
              (ap (λ (x : Store). x.attempts) (sym same)) (ap (λ (x : Store). x.outbox) (sym same))
              fits absent created in
          rw (← ok-inj last) (record { sound = done.sound; posted = done.posted })
      | inr closed ↦
          let done = final_run-IsConsistent run s m inv (rw closed refl) fine inserted in
          rw (← ok-inj (rw closed at rest)) (record { sound = done.sound; posted = done.posted })
    ]

-- Materializing a planned occurrence keeps the tables consistent, whether its Run is dispatched,
-- skipped, failed or there already.
pub insert_scheduled_occurrence-IsConsistent :
    (now run_id : ℕ) (fresh : Fresh) (schedule_id : ℕ) (planned : PlannedOccurrence)
    (execution : ExecutionRow) (rendered : Result Text ExecutionSnapshot) (reason : Option Text)
    (s t : Store)
    → IsConsistent s
    → insert_scheduled_occurrence now run_id fresh schedule_id planned execution rendered reason s
      ≡ ok t
    → IsConsistent t
unfolding insert_scheduled_occurrence
insert_scheduled_occurrence-IsConsistent now run_id fresh schedule_id planned execution rendered
      reason s t inv h =
    let key : OccurrenceKey = record {
      schedule_id = schedule_id;
      scheduled_at = planned.scheduled_at;
      target_id = execution.target_id;
    } in
    let (snapshot, status) = occurrence_status planned.execute rendered in
    elim (Bool-cases (s.occurrence_index key)) [
      | inl there ↦ rw (← ok-inj (rw there at h)) inv
      | inr fresh_key ↦
          insert_occurrence-IsConsistent now run_id fresh key execution
            (min planned.lateness_seconds max_lateness) planned.dispatch_deadline snapshot status
            reason s t inv (never_waits planned.execute rendered) (rw fresh_key at h)
    ]

-- ===== src/Dispatch/Soundness/Completion.antt =====
-- `complete_attempt` keeps the invariant.
use crono.Prelude.{
  ℕ, ◌≡◌, refl, ◌∙◌, ap, inl, inr, Bool, true, not, ◌&&◌, none, some, arith, Bool-cases,
  Option-cases, if◌then◌else◌, ok, ok-inj, ◌<◌,
}
use crono.Dispatch.Status.{run_is_running, run_is_retry_wait}
use crono.Dispatch.Tables.{Run, Attempt, Store}
use crono.Dispatch.Create.{insert_run_event}
use crono.Dispatch.Attempt.{
  CompletionRequest, is_leased, attempt_outcome, should_retry, run_outcome, finish_attempt,
  finish_run, settle_run, complete_leased, complete_attempt,
}
use crono.Dispatch.Soundness.{matched, IsConsistent}
use crono.Dispatch.Soundness.Rows.{update_where_hit}
use crono.Dispatch.Soundness.Core.{unfinished_run, moved-IsSound}
use crono.Dispatch.Soundness.Posted.{moved-IsPosted}

-- The states that a completion gives to the Run and to the Attempt match.
outcomes_match :
    (request : CompletionRequest) (run : Run)
    → matched (run_outcome request run) (attempt_outcome request) ≡ true
outcomes_match request run = ground arith

-- A Run is left waiting only if its Job is idempotent and it has an Attempt left.
waits_only :
    (request : CompletionRequest) (run : Run)
    → run_is_retry_wait (run_outcome request run) ≡ true
    → (run.attempt_count < run.max_attempts) × (run.execution_snapshot.idempotent ≡ true)
waits_only request run h = ground arith

settle_run-IsConsistent :
    (now retry_at : ℕ) (request : CompletionRequest) (a : Attempt) (run : Run) (s : Store)
    → IsConsistent s
    → s.attempts request.attempt_id ≡ some a
    → is_leased now request.worker_id a ≡ true
    → s.runs a.run_id ≡ some run
    → IsConsistent (settle_run now retry_at request a.run_id run s)
unfolding settle_run insert_run_event
settle_run-IsConsistent now retry_at request a run s inv at held row =
    let (r, r_row, last, together) =
      unfinished_run request.attempt_id a inv.sound at (ground arith) in
    let same : r ≡ run = cc in
    let last' : a.attempt ≡ run.attempt_count = last ∙ ap (λ (q : Run). q.attempt_count) same in
    let running : run_is_running run.status ≡ true = ground arith in
    let runs_after =
      update_where_hit s.runs a.run_id (λ q. run_is_running q.status)
        (finish_run now request (run_outcome request run)
          (if should_retry request run then some retry_at else none))
        run row running in
    let attempts_after =
      update_where_hit s.attempts request.attempt_id (is_leased now request.worker_id)
        (finish_attempt now request) a at held in
    record {
      sound =
          moved-IsSound inv.sound request.attempt_id row at runs_after attempts_after
            (record { count = refl; most = refl; snapshot = refl })
            (record { run = refl; number = refl }) last' (outcomes_match request run)
            (waits_only request run);
      posted =
          moved-IsPosted inv.posted request.attempt_id a _ at attempts_after refl
            (λ pending. absurd (ground arith));
    }

complete_leased-IsConsistent :
    (now retry_at : ℕ) (request : CompletionRequest) (a : Attempt) (s : Store) (t : Store × Bool)
    → IsConsistent s
    → s.attempts request.attempt_id ≡ some a
    → complete_leased now retry_at request a s ≡ ok t
    → IsConsistent t.0
unfolding complete_leased
complete_leased-IsConsistent now retry_at request a s t inv at h =
    elim (Bool-cases (is_leased now request.worker_id a)) [
      | inl held ↦ elim (Option-cases (s.runs a.run_id)) [
        | inl none_there ↦ absurd (cc (rw (held, none_there) at h))
        | inr (run, row) ↦
            rw (← ap (λ x. x.0) (ok-inj (rw (held, row) at h)))
              (settle_run-IsConsistent now retry_at request a run s inv at held row)
      ]
      | inr lost ↦ rw (← ap (λ x. x.0) (ok-inj (rw lost at h))) inv
    ]

-- The completion of an Attempt keeps the tables consistent.
pub complete_attempt-IsConsistent :
    (now retry_at : ℕ) (request : CompletionRequest) (s : Store) (t : Store × Bool)
    → IsConsistent s
    → complete_attempt now retry_at request s ≡ ok t
    → IsConsistent t.0
unfolding complete_attempt
complete_attempt-IsConsistent now retry_at request s t inv h =
    elim (Bool-cases (request.skipped && not request.succeeded)) [
      | inl bad ↦ absurd (cc (rw bad at h))
      | inr fine ↦ elim (Option-cases (s.attempts request.attempt_id)) [
        | inl absent ↦ rw (← ap (λ x. x.0) (ok-inj (rw (fine, absent) at h))) inv
        | inr (a, at) ↦
            complete_leased-IsConsistent now retry_at request a s t inv at (rw (fine, at) at h)
      ]
    ]

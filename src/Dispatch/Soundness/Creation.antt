-- ===== src/Dispatch/Soundness/Creation.antt =====
-- `create_attempt_and_outbox` and its callers keep the invariant.
use crono.Prelude.{
  ℕ, ◌+◌, ◌≤◌, ◌<◌, ◌≡◌, refl, ap, sym, inl, inr, true, false, ◌&&◌, Option, none, some, arith, leb,
  Bool-cases, ok, ok-inj, >>=-ok,
}
use crono.Dispatch.Status.{RunStatus, is_finished, run_is_retry_wait}
use crono.Dispatch.Tables.{Run, Attempt, Store, Table, insert_row, is_none}
use crono.Dispatch.Create.{
  Fresh, new_attempt, new_outbox, create_attempt_and_outbox, insert_run, insert_run_event,
  PreparedRun, normal_run, create_normal_run,
}
use crono.Dispatch.Soundness.{IsSound, IsPosted, IsConsistent, Replaced}
use crono.Dispatch.Soundness.Added.{added-IsSound, replaced-IsSound}
use crono.Dispatch.Soundness.Posted.{added-IsPosted}

-- What a creation that succeeds has done.
pub created-inv :
    (now : ℕ) (fresh : Fresh) (run_id attempt queue_id : ℕ) (deadline : Option ℕ) (s t : Store)
    → create_attempt_and_outbox now fresh run_id attempt queue_id deadline s ≡ ok t
    → (s.attempts fresh.attempt_id ≡ none)
      × (s.outbox fresh.dispatch_id ≡ none)
      × (record s {
        attempts = insert_row s.attempts fresh.attempt_id (new_attempt run_id attempt);
        outbox =
            insert_row s.outbox fresh.dispatch_id (new_outbox now fresh run_id queue_id deadline);
      }
          ≡ t)
unfolding create_attempt_and_outbox
created-inv now fresh run_id attempt queue_id deadline s t h =
    elim (Bool-cases
      (is_none (s.attempts fresh.attempt_id) && is_none (s.outbox fresh.dispatch_id))) [
        | inl free ↦ (ground arith, ground arith, ok-inj (rw free at h))
        | inr taken ↦ absurd (cc (rw taken at h))
      ]

-- The Attempts of a Run that waits are behind it.
waiting_settled :
    (runs : Table Run) (attempts : Table Attempt) (id : ℕ) (r : Run)
    → IsSound runs attempts
    → runs id ≡ some r
    → run_is_retry_wait r.status ≡ true
    → (k : ℕ) (b : Attempt) → attempts k ≡ some b
    → b.run_id ≡ id
    → (b.attempt < r.attempt_count + 1) × (is_finished b.status ≡ true)
waiting_settled runs attempts id r inv row waits k b e its =
    let (q, at, agrees) = inv.joined k b e in
    let same : q ≡ r = cc in ground (arith, agrees.counted, agrees.older, agrees.current)

-- A Run that waits gets its next Attempt, with the outbox row that announces it.
pub next_attempt-IsConsistent :
    (now : ℕ) (fresh : Fresh) (queue_id : ℕ) {runs : Table Run} (run_id : ℕ) (r r' : Run)
    (s t : Store)
    → IsSound runs s.attempts
    → IsPosted s.attempts s.outbox
    → runs run_id ≡ some r
    → run_is_retry_wait r.status ≡ true
    → Replaced runs s.runs run_id r'
    → r'.status ≡ RunStatus.pending_dispatch
    → r'.attempt_count ≡ r.attempt_count + 1
    → r'.max_attempts ≡ r.max_attempts
    → r'.execution_snapshot ≡ r.execution_snapshot
    → create_attempt_and_outbox now fresh run_id (r.attempt_count + 1) queue_id none s ≡ ok t
    → IsConsistent t
next_attempt-IsConsistent now fresh queue_id {runs = runs} run_id r r' s t sound posted row waits
      runs_after pending count most snapshot h =
    let (no_attempt, no_row, same) =
      created-inv now fresh run_id (r.attempt_count + 1) queue_id none s t h in
    let (left, idempotent) = sound.waiting run_id r row waits in
    let settled = waiting_settled runs s.attempts run_id r sound row waits in
    rw (← same) (record {
      sound =
          added-IsSound sound run_id {r = r'}
            (record {
              bounded = omega arith;
              cautious = λ e. absurd (cc);
              waiting = λ e. absurd (ground arith);
            })
            runs_after (λ k b e its. ground (arith, settled k b e its)) fresh.attempt_id
            (new_attempt run_id (r.attempt_count + 1)) (λ j. refl) no_attempt refl (sym count)
            (omega arith) (ground arith);
      posted =
          added-IsPosted posted fresh.attempt_id fresh.dispatch_id
            (new_attempt run_id (r.attempt_count + 1)) (new_outbox now fresh run_id queue_id none)
            (λ j. refl) (λ j. refl) no_attempt refl refl refl refl;
    })

-- What the INSERT of a Run that succeeds has done.
pub inserted-inv :
    (run : Run) (s t : Store)
    → insert_run run s ≡ ok t
    → (run.attempt_count ≤ run.max_attempts)
      × (s.runs run.id ≡ none)
      × (record s { runs = insert_row s.runs run.id run } ≡ t)
unfolding insert_run
inserted-inv run s t h = elim (Bool-cases (leb run.attempt_count run.max_attempts)) [
  | inl fits ↦ elim (Bool-cases (is_none (s.runs run.id))) [
    | inl free ↦ (ground arith, ground arith, ok-inj (rw (fits, free) at h))
    | inr taken ↦ absurd (cc (rw (fits, taken) at h))
  ]
  | inr more ↦ absurd (cc (rw more at h))
]

-- no Attempt belongs to a Run that is not there
nothing_settled :
    (runs : Table Run) (attempts : Table Attempt) (id : ℕ)
    → IsSound runs attempts
    → runs id ≡ none
    → (k : ℕ) (b : Attempt) → attempts k ≡ some b
    → b.run_id ≡ id
    → ⊥
nothing_settled runs attempts id inv absent k b e its =
    let (q, at, agrees) = inv.joined k b e in cc (ap runs its)

-- A new Run without an Attempt, in a final state.
pub final_run-IsConsistent :
    (run : Run) (s t : Store)
    → IsConsistent s
    → run.attempt_count ≡ 0
    → run_is_retry_wait run.status ≡ false
    → insert_run run s ≡ ok t
    → IsConsistent t
final_run-IsConsistent run s t inv none_yet final h =
    let (fits, absent, same) = inserted-inv run s t h in
    rw (← same) (record {
      sound =
          replaced-IsSound inv.sound run.id {r = run}
            (record { bounded = fits; cautious = λ e. omega arith; waiting = λ e. absurd (cc) })
            (λ j. refl)
            (λ k b e its.
              absurd (nothing_settled s.runs s.attempts run.id inv.sound absent k b e its));
      posted = inv.posted;
    })

-- A new Run with its first Attempt and the outbox row.
pub first_attempt-IsConsistent :
    (now : ℕ) (fresh : Fresh) (queue_id : ℕ) (deadline : Option ℕ) (run : Run) (s m t : Store)
    → IsConsistent s
    → run.attempt_count ≡ 1
    → run.status ≡ RunStatus.pending_dispatch
    → Replaced s.runs m.runs run.id run
    → m.attempts ≡ s.attempts
    → m.outbox ≡ s.outbox
    → run.attempt_count ≤ run.max_attempts
    → s.runs run.id ≡ none
    → create_attempt_and_outbox now fresh run.id 1 queue_id deadline m ≡ ok t
    → IsConsistent t
first_attempt-IsConsistent now fresh queue_id deadline run s m t inv one pending runs_after
      same_attempts same_outbox fits absent h =
    let (no_attempt, no_row, same) = created-inv now fresh run.id 1 queue_id deadline m t h in
    let sound = rw (← same_attempts) at inv.sound in
    let posted = rw (← same_attempts, ← same_outbox) at inv.posted in
    rw (← same) (record {
      sound =
          added-IsSound sound run.id {r = run}
            (record {
              bounded = fits;
              cautious = λ e. omega arith;
              waiting = λ e. absurd (ground arith);
            })
            runs_after
            (λ k b e its. absurd (nothing_settled s.runs m.attempts run.id sound absent k b e its))
            fresh.attempt_id (new_attempt run.id 1) (λ j. refl) no_attempt refl (sym one)
            (omega arith) (ground arith);
      posted =
          added-IsPosted posted fresh.attempt_id fresh.dispatch_id (new_attempt run.id 1)
            (new_outbox now fresh run.id queue_id deadline) (λ j. refl) (λ j. refl) no_attempt refl
            refl refl refl;
    })

-- A normal Run that is created leaves the tables consistent.
pub create_normal_run-IsConsistent :
    (now : ℕ) (fresh : Fresh) (prepared : PreparedRun) (s t : Store)
    → IsConsistent s
    → create_normal_run now fresh prepared s ≡ ok t
    → IsConsistent t
unfolding create_normal_run insert_run_event
create_normal_run-IsConsistent now fresh prepared s t inv h =
    let (m, inserted, rest) = >>=-ok (insert_run (normal_run now prepared) s) _ h in
    let (u, created, last) =
      >>=-ok (create_attempt_and_outbox now fresh prepared.id 1 prepared.queue_id none m) _ rest in
    let (fits, absent, same) = inserted-inv (normal_run now prepared) s m inserted in
    let done =
      first_attempt-IsConsistent now fresh prepared.queue_id none (normal_run now prepared) s m u
        inv refl refl (λ j. ap (λ (x : Store). x.runs j) (sym same))
        (ap (λ (x : Store). x.attempts) (sym same)) (ap (λ (x : Store). x.outbox) (sym same)) fits
        absent created in
    rw (← ok-inj last) (record { sound = done.sound; posted = done.posted })

-- ===== src/Dispatch/Soundness/Leases.antt =====
-- The pass over the leases that have run out keeps the invariant.
use crono.Prelude.{
  ℕ, ◌+◌, ◌<◌, ◌≡◌, refl, ap, sym, ◌∙◌, inl, inr, true, ◌&&◌, none, some, arith, ◌==◌, ltb,
  Bool-cases, if◌then◌else◌, ok, ok-inj, codes,
}
use crono.Dispatch.Status.{RunStatus, AttemptStatus, run_is_running, attempt_is_running}
use crono.Dispatch.Tables.{Run, Attempt, Store, Table, update_where}
use crono.Dispatch.Create.{create_attempt_and_outbox}
use crono.Dispatch.Reconcile.{LeaseRow, reopen, end_attempt, end_unknown, expire_lease}
use crono.Dispatch.Soundness.{IsSound, IsPosted, IsConsistent, Replaced}
use crono.Dispatch.Soundness.Rows.{update_where_hit}
use crono.Dispatch.Soundness.Core.{unfinished_run, moved-IsSound}
use crono.Dispatch.Soundness.Posted.{moved-IsPosted}
use crono.Dispatch.Soundness.Creation.{created-inv, next_attempt-IsConsistent}

-- The rows of a lease that is held, as `lease_row` reads them.
pub record IsHeld (s : Store) (row : LeaseRow) (a : Attempt) (r : Run) : Type 0 where
  pub at : s.attempts row.attempt_id ≡ some a
  pub its : a.run_id ≡ row.retry.run_id
  pub busy : a.status ≡ AttemptStatus.running
  pub run_row : s.runs row.retry.run_id ≡ some r
  pub count : r.attempt_count ≡ row.retry.attempt_count
  pub repeatable : row.idempotent ≡ r.execution_snapshot.idempotent
  pub most : row.max_attempts ≡ r.max_attempts

abbrev pub IsLeaseRow : Store → LeaseRow → Type 0
IsLeaseRow s row = (a : Attempt) × (r : Run) × IsHeld s row a r

abbrev pub OtherLease : LeaseRow → LeaseRow → Type 0
OtherLease row other =
    (row.attempt_id ≡ other.attempt_id → ⊥) × (row.retry.run_id ≡ other.retry.run_id → ⊥)

abbrev ended : ℕ → AttemptStatus → Attempt → Attempt
ended now status a = record a {
  status = status;
  completed_at = some now;
  lease_expires_at = none;
  error = some (codes "worker lease expired");
}

module _ (now : ℕ) (row : LeaseRow) (s : Store) (inv : IsConsistent s) (a : Attempt) (r : Run)
    (held : IsHeld s row a r) where
  found : s.runs a.run_id ≡ some r
  found = ap s.runs held.its ∙ held.run_row

  alive : (a.attempt ≡ r.attempt_count) × (r.status ≡ RunStatus.running)
  alive =
      let (q, at, last, together) =
        unfinished_run row.attempt_id a inv.sound held.at (ground (arith, held.busy)) in
      let same : q ≡ r = cc (found) in
      (last ∙ ap (λ (x : Run). x.attempt_count) same, ground (arith, held.busy))

  attempts_after :
      (status : AttemptStatus)
      → Replaced s.attempts
          (end_attempt now row.attempt_id status s).attempts
          row.attempt_id
          (ended now status a)
  attempts_after status =
      update_where_hit s.attempts row.attempt_id (λ b. attempt_is_running b.status)
        (ended now status) a held.at (ground (arith, held.busy))

  IsPosted-after :
      (status : AttemptStatus)
      → IsPosted (end_attempt now row.attempt_id status s).attempts s.outbox
  IsPosted-after status =
      moved-IsPosted inv.posted row.attempt_id a (ended now status a) held.at
        (attempts_after status) refl (λ pending. cc (held.busy))

  -- The outcome of the execution is not known: the Run ends.
  end_unknown-IsConsistent :
      IsConsistent
        (end_unknown now row.retry.run_id (end_attempt now row.attempt_id AttemptStatus.unknown s))
  end_unknown-IsConsistent =
      let (last, running) = alive in
      let set = λ (q : Run). record q {
        status = RunStatus.unknown;
        terminal_reason = some (codes "worker lease expired after an ambiguous execution");
        completed_at = some now;
      } in
      let hit =
        update_where_hit s.runs row.retry.run_id (λ q. run_is_running q.status) set r held.run_row
          (ground arith) in
      let runs_after : Replaced s.runs
          (update_where s.runs row.retry.run_id (λ q. run_is_running q.status) set) a.run_id
          (set r) =
        λ j. ground (arith, hit j, held.its) in
      record {
        sound =
            moved-IsSound inv.sound row.attempt_id {r = r} {r' = set r} found held.at runs_after
              (attempts_after AttemptStatus.unknown)
              (record { count = refl; most = refl; snapshot = refl })
              (record { run = refl; number = refl }) last refl (λ e. cc);
        posted = IsPosted-after AttemptStatus.unknown;
      }

  -- The Run as if it waited for a retry, which the next statement ends.
  abbrev waiting_run : Run
  waiting_run = record r { status = RunStatus.retry_wait }

  abbrev waiting_runs : Table Run
  waiting_runs j = if j == a.run_id then some waiting_run else s.runs j

  waiting-IsSound :
      row.idempotent && ltb row.retry.attempt_count row.max_attempts ≡ true
      → IsSound waiting_runs (end_attempt now row.attempt_id AttemptStatus.failed s).attempts
  waiting-IsSound again =
      let (last, running) = alive in
      let left : (r.attempt_count < r.max_attempts) × (r.execution_snapshot.idempotent ≡ true) =
        ground (arith, held.count, held.repeatable, held.most) in
      moved-IsSound inv.sound row.attempt_id {r = r} {r' = waiting_run} found held.at (λ j. refl)
        (attempts_after AttemptStatus.failed)
        (record { count = refl; most = refl; snapshot = refl })
        (record { run = refl; number = refl }) last refl (λ e. left)

  abbrev reopened_run : Run
  reopened_run = record r {
    status = RunStatus.pending_dispatch;
    attempt_count = row.retry.attempt_count + 1;
    next_retry_at = none;
    started_at = none;
  }

  abbrev reopened : Store
  reopened =
      reopen (end_attempt now row.attempt_id AttemptStatus.failed s) row.retry
        (λ q. run_is_running q.status)

  reopened_runs : Replaced s.runs reopened.runs row.retry.run_id reopened_run
  reopened_runs =
      update_where_hit s.runs row.retry.run_id (λ q. run_is_running q.status)
        (λ q. record q {
          status = RunStatus.pending_dispatch;
          attempt_count = row.retry.attempt_count + 1;
          next_retry_at = none;
          started_at = none;
        })
        r held.run_row (ground (arith, alive.1))

  retried-IsConsistent :
      (t : Store)
      → row.idempotent && ltb row.retry.attempt_count row.max_attempts ≡ true
      → create_attempt_and_outbox now row.retry.fresh row.retry.run_id
          (row.retry.attempt_count + 1)
          row.retry.queue_id
          none
          reopened
        ≡ ok t
      → IsConsistent t
  retried-IsConsistent t again h =
      next_attempt-IsConsistent now row.retry.fresh row.retry.queue_id {runs = waiting_runs}
        row.retry.run_id waiting_run reopened_run reopened t (waiting-IsSound again)
        (IsPosted-after AttemptStatus.failed) (ground (arith, held.its)) refl
        (λ j. ground (arith, reopened_runs j, held.its)) refl (ap (λ n. n + 1) (sym held.count))
        refl refl
        (ap
            (λ n.
              create_attempt_and_outbox now row.retry.fresh row.retry.run_id (n + 1)
                row.retry.queue_id none reopened)
            held.count
          ∙ h)

  -- Another lease is not touched.
  other_lease :
      (status : AttemptStatus) (t : Store) (other : LeaseRow)
      → ((j : ℕ) → (row.retry.run_id ≡ j → ⊥) → t.runs j ≡ s.runs j)
      → ((j : ℕ) (b : Attempt)
          → (row.attempt_id ≡ j → ⊥)
          → s.attempts j ≡ some b
          → t.attempts j ≡ some b)
      → OtherLease row other
      → IsLeaseRow s other
      → IsLeaseRow t other
  other_lease status t other runs_kept attempts_kept (apart, apart_run) (b, q, it) = (
    b,
    q,
    record {
      at = attempts_kept other.attempt_id b apart it.at;
      its = it.its;
      busy = it.busy;
      run_row = runs_kept other.retry.run_id apart_run ∙ it.run_row;
      count = it.count;
      repeatable = it.repeatable;
      most = it.most;
    },
  )

pub expire_lease-IsConsistent :
    (now : ℕ) (row : LeaseRow) (s t : Store)
    → IsConsistent s
    → IsLeaseRow s row
    → expire_lease now row s ≡ ok t
    → IsConsistent t
      × ((other : LeaseRow) → OtherLease row other → IsLeaseRow s other → IsLeaseRow t other)
unfolding expire_lease
expire_lease-IsConsistent now row s t inv (a, r, held) h =
    elim (Bool-cases (row.idempotent && ltb row.retry.attempt_count row.max_attempts)) [
      | inl again ↦
          let h' = rw again at h in
          let (no_attempt, no_row, same) =
            created-inv now row.retry.fresh row.retry.run_id (row.retry.attempt_count + 1)
              row.retry.queue_id none (reopened now row s inv a r held) t h' in
          (
            retried-IsConsistent now row s inv a r held t again h',
            λ other.
                other_lease now row s inv a r held AttemptStatus.failed t other
                  (λ j apart.
                    ap (λ (x : Store). x.runs j) (sym same)
                    ∙ ground (arith, reopened_runs now row s inv a r held j))
                  (λ j b apart e.
                    ap (λ (x : Store). x.attempts j) (sym same)
                    ∙ ground (arith, attempts_after now row s inv a r held AttemptStatus.failed j)),
          )
      | inr never ↦
          let same = ok-inj (rw never at h) in
          (
            rw (← same) (end_unknown-IsConsistent now row s inv a r held),
            λ other.
                other_lease now row s inv a r held AttemptStatus.unknown t other
                  (λ j apart. ap (λ (x : Store). x.runs j) (sym same) ∙ ground arith)
                  (λ j b apart e.
                    ap (λ (x : Store). x.attempts j) (sym same)
                    ∙ ground
                        (arith, attempts_after now row s inv a r held AttemptStatus.unknown j)),
          )
    ]

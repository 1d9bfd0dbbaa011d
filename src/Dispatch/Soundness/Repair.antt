-- ===== src/Dispatch/Soundness/Repair.antt =====
-- `reconcile` keeps the invariant.
use crono.Prelude.{
  ℕ, ◌+◌, ◌≡◌, refl, ap, sym, ◌∙◌, inl, inr, true, ◌&&◌, none, some, arith, leb, Bool-cases,
  Option-cases, ok, List, Pairwise,
}
use crono.Dispatch.Status.{RunStatus, run_is_retry_wait}
use crono.Dispatch.Tables.{Run, Store, holds, select_rows}
use crono.Dispatch.Create.{Fresh, create_attempt_and_outbox}
use crono.Dispatch.Reconcile.{RetryRow, reopen, retry_run, pick_due, reconcile_due_retries}
use crono.Dispatch.Soundness.{IsConsistent}
use crono.Dispatch.Soundness.Rows.{update_where_hit}
use crono.Dispatch.Soundness.Creation.{created-inv, next_attempt-IsConsistent}
use crono.Dispatch.Soundness.Passes.{select_rows-All, select_rows-Pairwise, for_each-keeps}

-- The Run of the row is as it was when the row was selected.
abbrev IsDueRow : Store → RetryRow → Type 0
IsDueRow s row =
    (r : Run) × (s.runs row.run_id ≡ some r)
    × (run_is_retry_wait r.status ≡ true)
    × (r.attempt_count ≡ row.attempt_count)

abbrev OtherRun : RetryRow → RetryRow → Type 0
OtherRun row other = row.run_id ≡ other.run_id → ⊥

retry_run-IsConsistent :
    (now : ℕ) (row : RetryRow) (s t : Store)
    → IsConsistent s
    → IsDueRow s row
    → retry_run now row s ≡ ok t
    → IsConsistent t
      × ((other : RetryRow) → OtherRun row other → IsDueRow s other → IsDueRow t other)
unfolding retry_run
retry_run-IsConsistent now row s t inv (r, at, waits, count) h =
    let m = reopen s row (λ q. run_is_retry_wait q.status) in
    let runs_after =
      update_where_hit s.runs row.run_id (λ q. run_is_retry_wait q.status)
        (λ q. record q {
          status = RunStatus.pending_dispatch;
          attempt_count = row.attempt_count + 1;
          next_retry_at = none;
          started_at = none;
        })
        r at waits in
    let h' = rw (← count) at h in
    let (no_attempt, no_row, same) =
      created-inv now row.fresh row.run_id (row.attempt_count + 1) row.queue_id none m t h in
    let runs_same : t.runs ≡ m.runs = ap (λ (x : Store). x.runs) (sym same) in
    (
      next_attempt-IsConsistent now row.fresh row.queue_id row.run_id r _ m t inv.sound inv.posted
          at waits runs_after refl (ap (λ n. n + 1) (sym count)) refl refl
          (ap (λ n. create_attempt_and_outbox now row.fresh row.run_id (n + 1) row.queue_id none m)
              count
            ∙ h),
      λ other apart (q, e, w, c). (q, rw runs_same (ground (arith, runs_after other.run_id)), w, c),
    )

pick_due-IsDueRow :
    (now : ℕ) (s : Store) (key : ℕ × Fresh) (row : RetryRow)
    → pick_due now s key ≡ some row
    → IsDueRow s row × (row.run_id ≡ key.0)
unfolding pick_due
pick_due-IsDueRow now s (key, fresh) row h = elim (Option-cases (s.runs key)) [
  | inl absent ↦ absurd (cc (rw (absent, pick_due) at h))
  | inr (r, at) ↦
      elim (Bool-cases (run_is_retry_wait r.status && holds (λ due. leb due now) r.next_retry_at)) [
        | inl ready ↦
            let same = rw (at, ready, pick_due) at h in
            let id : row.run_id ≡ key = cc in ((r, ap s.runs id ∙ at, ground arith, cc), id)
        | inr early ↦ absurd (cc (rw (at, early, pick_due) at h))
      ]
]

abbrev pub OtherKey : ℕ × Fresh → ℕ × Fresh → Type 0
OtherKey j k = j.0 ≡ k.0 → ⊥

-- The pass over the Runs whose retry is due keeps the tables consistent. The scan has a Run once.
pub reconcile_due_retries-IsConsistent :
    (now limit : ℕ) (scan : List (ℕ × Fresh)) (s t : Store)
    → Pairwise OtherKey scan
    → IsConsistent s
    → reconcile_due_retries now limit scan s ≡ ok t
    → IsConsistent t
unfolding reconcile_due_retries
reconcile_due_retries-IsConsistent now limit scan s t once inv h =
    for_each-keeps (retry_run now) IsConsistent IsDueRow OtherRun (retry_run-IsConsistent now)
      (select_rows limit (pick_due now s) scan) s t inv
      (select_rows-All (pick_due now s) (IsDueRow s)
        (λ key row e. (pick_due-IsDueRow now s key row e).0) limit scan)
      (select_rows-Pairwise (pick_due now s) OtherKey OtherRun
        (λ j k x y apart ex ey same.
          apart
            (sym (pick_due-IsDueRow now s j x ex).1 ∙ same ∙ (pick_due-IsDueRow now s k y ey).1))
        limit scan once)
      h

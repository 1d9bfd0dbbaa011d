-- ===== src/Dispatch/Moves/Repair.antt =====
-- The repairs of `reconcile` move the rows as `Moves` says.
use crono.Prelude.{
  ℕ, ◌+◌, ◌≡◌, refl, Bool, true, false, ◌&&◌, none, arith, ltb, Bool-cases, inl, inr, ok, >>=-ok,
  ok-inj,
}
use crono.Dispatch.Status.{
  RunStatus, AttemptStatus, is_terminal, run_is_pending, run_is_running, run_is_retry_wait,
}
use crono.Dispatch.Tables.{Store, is_none, holds, select_rows}
use crono.Dispatch.Create.{insert_run_event}
use crono.Dispatch.Reconcile.{
  DispatchRow, RetryRow, LeaseRow, expire_dispatch, reopen, retry_run, expire_lease, end_attempt,
  release_claims, Scans, reconcile, reconcile_expired_dispatches, reconcile_due_retries,
  reconcile_expired_leases, pick_overdue, pick_due, pick_expired,
}
use crono.Dispatch.Moves.{
  AttemptMoves, OutboxMoves, Moves, attempt_stays, outbox_stays, update_where-Kept, Moves-trans,
  for_each-Moves,
}
use crono.Dispatch.Moves.Each.{
  run_update, same_attempts, same_runs, same_outbox, pending_is_live, running_is_live,
}
use crono.Dispatch.Moves.Creation.{create_attempt_and_outbox-Moves}

expire_dispatch-Moves :
    (now : ℕ) (row : DispatchRow) (s : Store) → Moves s (expire_dispatch now row s)
unfolding expire_dispatch insert_run_event
expire_dispatch-Moves now row s = record {
  runs = run_update s.runs row.run_id run_is_pending _ pending_is_live (λ q. refl);
  attempts = update_where-Kept AttemptMoves attempt_stays s.attempts row.attempt_id _ _ λ a e.
      record {
        final = ground arith;
        forward = ground arith;
        granted = λ _. refl;
        run = refl;
        number = refl;
        output = omega arith;
      };
  outbox =
      update_where-Kept OutboxMoves outbox_stays s.outbox row.outbox_id _ _
        λ o e. record { attempt = refl; run = refl; published = ground arith };
}

waiting_is_live :
    (status : RunStatus) → run_is_retry_wait status ≡ true → is_terminal status ≡ false
waiting_is_live status h = ground arith

reopen-Moves :
    (s : Store) (row : RetryRow) (test : RunStatus → Bool)
    → ((status : RunStatus) → test status ≡ true → is_terminal status ≡ false)
    → Moves s (reopen s row (λ r. test r.status))
reopen-Moves s row test live = record {
  runs = run_update s.runs row.run_id test _ live (λ q. refl);
  attempts = same_attempts s.attempts;
  outbox = same_outbox s.outbox;
}

retry_run-Moves : (now : ℕ) (row : RetryRow) (s t : Store) → retry_run now row s ≡ ok t → Moves s t
unfolding retry_run
retry_run-Moves now row s t h =
    Moves-trans s (reopen s row (λ r. run_is_retry_wait r.status)) t
      (reopen-Moves s row run_is_retry_wait waiting_is_live)
      (create_attempt_and_outbox-Moves now row.fresh row.run_id (row.attempt_count + 1) row.queue_id
        none (reopen s row (λ r. run_is_retry_wait r.status)) t h)

abbrev ends : AttemptStatus → Bool
ends AttemptStatus.failed = true
ends AttemptStatus.unknown = true
ends _ = false

end_attempt-Moves :
    (now attempt_id : ℕ) (status : AttemptStatus) (s : Store)
    → ends status ≡ true
    → Moves s (end_attempt now attempt_id status s)
end_attempt-Moves now attempt_id status s final = record {
  runs = same_runs s.runs;
  attempts = update_where-Kept AttemptMoves attempt_stays s.attempts attempt_id _ _ λ a e. record {
    final = ground arith;
    forward = ground arith;
    granted = λ _. refl;
    run = refl;
    number = refl;
    output = omega arith;
  };
  outbox = same_outbox s.outbox;
}

expire_lease-Moves :
    (now : ℕ) (row : LeaseRow) (s t : Store) → expire_lease now row s ≡ ok t → Moves s t
unfolding expire_lease
expire_lease-Moves now row s t h =
    elim (Bool-cases (row.idempotent && ltb row.retry.attempt_count row.max_attempts)) [
      | inl again ↦
          let m = end_attempt now row.attempt_id AttemptStatus.failed s in
          let n = reopen m row.retry (λ r. run_is_running r.status) in
          Moves-trans s m t (end_attempt-Moves now row.attempt_id AttemptStatus.failed s refl) (
            Moves-trans m n t (reopen-Moves m row.retry run_is_running running_is_live) (
              create_attempt_and_outbox-Moves now row.retry.fresh row.retry.run_id
                (row.retry.attempt_count + 1) row.retry.queue_id none n t (rw again at h)))
      | inr never ↦
          let m = end_attempt now row.attempt_id AttemptStatus.unknown s in
          rw (← ok-inj (rw never at h)) (
            Moves-trans s m _ (end_attempt-Moves now row.attempt_id AttemptStatus.unknown s refl)
              (record {
                runs =
                    run_update m.runs row.retry.run_id run_is_running _ running_is_live (λ q. refl);
                attempts = same_attempts m.attempts;
                outbox = same_outbox m.outbox;
              }))
    ]

release_claims-Moves : (now : ℕ) (s : Store) → Moves s (release_claims now s)
unfolding release_claims
release_claims-Moves now s = record {
  runs = same_runs s.runs;
  attempts = same_attempts s.attempts;
  outbox = λ k o e.
      elim (Bool-cases (
        is_none o.published_at
        && is_none o.cancelled_at
        && holds (λ expires. ltb expires now) o.claim_expires_at)) [
          | inl over ↦ (
            record o { claimed_by = none; claim_expires_at = none },
            ground arith,
            record { attempt = refl; run = refl; published = ground arith },
          )
          | inr kept ↦ (o, ground arith, outbox_stays o)
        ];
}

pub reconcile-Moves :
    (now limit : ℕ) (scans : Scans) (s t : Store) → reconcile now limit scans s ≡ ok t → Moves s t
unfolding reconcile reconcile_expired_dispatches reconcile_due_retries reconcile_expired_leases
reconcile-Moves now limit scans s t h =
    let (s₁, first, h₁) = >>=-ok (reconcile_expired_dispatches now limit scans.dispatches s) _ h in
    let (s₂, then', h₂) = >>=-ok (reconcile_due_retries now limit scans.retries s₁) _ h₁ in
    let (s₃, last, h₃) = >>=-ok (reconcile_expired_leases now limit scans.leases s₂) _ h₂ in
    let moves₁ =
      for_each-Moves (λ row m. ok (expire_dispatch now row m))
        (λ row m n e. rw (← ok-inj e) (expire_dispatch-Moves now row m))
        (select_rows limit (pick_overdue now s) scans.dispatches) s s₁ first in
    let moves₂ =
      for_each-Moves (retry_run now) (retry_run-Moves now)
        (select_rows limit (pick_due now s₁) scans.retries) s₁ s₂ then' in
    let moves₃ =
      for_each-Moves (expire_lease now) (expire_lease-Moves now)
        (select_rows limit (pick_expired now s₂) scans.leases) s₂ s₃ last in
    rw (← ok-inj h₃) (
      Moves-trans s s₁ _ moves₁
        (Moves-trans s₁ s₂ _ moves₂ (Moves-trans s₂ s₃ _ moves₃ (release_claims-Moves now s₃))))

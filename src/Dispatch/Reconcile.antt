-- ===== src/Dispatch/Reconcile.antt =====
-- Repair of expired state: `reconcile` without the worker presence and the Workflows. Each pass
-- selects its rows first and then treats them one by one; `scan` has the keys that no other
-- transaction has locked, in the order of the query, each with the UUIDs that its row would draw.
use mathlib.Core.Option
use crono.Prelude.{
  ℕ, ◌+◌, Bool, ◌&&◌, Option, none, some, List, [], ◌∷◌, ltb, leb, if◌then◌else◌, Text, codes,
  Result, ok, ◌>>=◌,
}
use crono.Dispatch.Status.{
  RunStatus, AttemptStatus, run_is_pending, run_is_running, run_is_retry_wait, attempt_is_pending,
  attempt_is_running,
}
use crono.Dispatch.Tables.{
  StoreError, Run, Attempt, Outbox, Store, update_where, is_none, holds, select_rows,
}
use crono.Dispatch.Create.{Fresh, create_attempt_and_outbox, insert_run_event}

-- `for row in &rows { … }`
unfoldable pub for_each :
    {B : Type 0} → (B → Store → Result StoreError Store) → List B → Store → Result StoreError Store
for_each body [] s = ok s
for_each body (row ∷ rows) s = body row s >>= for_each body rows

abbrev pub deadline_expired : Text
deadline_expired = codes "misfire dispatch deadline expired"

abbrev pub is_overdue : ℕ → Outbox → Bool
is_overdue now row =
    is_none row.published_at
    && is_none row.cancelled_at
    && holds (λ deadline. ltb deadline now) row.dispatch_deadline

-- an outbox row, its Run and its Attempt
pub record DispatchRow : Type 0 where
  pub outbox_id : ℕ
  pub run_id : ℕ
  pub attempt_id : ℕ

unfoldable pub pick_overdue : ℕ → Store → ℕ → Option DispatchRow
pick_overdue now s key = elim (s.outbox key) [
  | none ↦ none
  | some o ↦
      if is_overdue now o
      then some (record { outbox_id = key; run_id = o.run_id; attempt_id = o.attempt_id })
      else none
]

unfoldable pub expire_dispatch : ℕ → DispatchRow → Store → Store
expire_dispatch now row s = insert_run_event row.run_id "skipped" (record s {
  outbox =
      update_where s.outbox row.outbox_id (λ o. is_none o.published_at && is_none o.cancelled_at)
        (λ o. record o {
          cancelled_at = some now;
          claimed_by = none;
          claim_expires_at = none;
          last_error = some deadline_expired;
        });
  attempts =
      update_where s.attempts row.attempt_id (λ a. attempt_is_pending a.status)
        (λ a. record a {
          status = AttemptStatus.dead;
          completed_at = some now;
          error = some deadline_expired;
        });
  runs =
      update_where s.runs row.run_id (λ r. run_is_pending r.status)
        (λ r. record r {
          status = RunStatus.skipped;
          completed_at = some now;
          terminal_reason = some deadline_expired;
        });
})

unfoldable pub reconcile_expired_dispatches : ℕ → ℕ → List ℕ → Store → Result StoreError Store
unfolding select_rows pick_overdue for_each expire_dispatch
reconcile_expired_dispatches now limit scan s =
    for_each (λ row t. ok (expire_dispatch now row t)) (select_rows limit (pick_overdue now s) scan)
      s

-- a Run to be dispatched again
pub record RetryRow : Type 0 where
  pub run_id : ℕ
  pub fresh : Fresh
  pub attempt_count : ℕ
  pub queue_id : ℕ

unfoldable pub pick_due : ℕ → Store → ℕ × Fresh → Option RetryRow
pick_due now s (key, fresh) = elim (s.runs key) [
  | none ↦ none
  | some r ↦
      if run_is_retry_wait r.status && holds (λ at. leb at now) r.next_retry_at
      then some (record {
        run_id = key;
        fresh = fresh;
        attempt_count = r.attempt_count;
        queue_id = r.execution_snapshot.queue_id;
      })
      else none
]

-- the update of the Run that begins its next Attempt
abbrev pub reopen : Store → RetryRow → (Run → Bool) → Store
reopen s row test = record s {
  runs = update_where s.runs row.run_id test (λ r. record r {
    status = RunStatus.pending_dispatch;
    attempt_count = row.attempt_count + 1;
    next_retry_at = none;
    started_at = none;
  });
}

unfoldable pub retry_run : ℕ → RetryRow → Store → Result StoreError Store
retry_run now row s =
    create_attempt_and_outbox now row.fresh row.run_id (row.attempt_count + 1) row.queue_id none
      (reopen s row (λ r. run_is_retry_wait r.status))

unfoldable pub reconcile_due_retries : ℕ → ℕ → List (ℕ × Fresh) → Store → Result StoreError Store
unfolding select_rows pick_due for_each retry_run
reconcile_due_retries now limit scan s =
    for_each (retry_run now) (select_rows limit (pick_due now s) scan) s

pub record LeaseRow : Type 0 where
  pub attempt_id : ℕ
  pub retry : RetryRow
  pub idempotent : Bool
  pub max_attempts : ℕ

abbrev pub lease_row : ℕ → Fresh → Attempt → Run → LeaseRow
lease_row attempt_id fresh a r = record {
  attempt_id = attempt_id;
  retry = record {
    run_id = a.run_id;
    fresh = fresh;
    attempt_count = r.attempt_count;
    queue_id = r.execution_snapshot.queue_id;
  };
  idempotent = r.execution_snapshot.idempotent;
  max_attempts = r.max_attempts;
}

abbrev pub lease_is_over : ℕ → Attempt → Bool
lease_is_over now a =
    attempt_is_running a.status && holds (λ expires. ltb expires now) a.lease_expires_at

-- the Attempt with the Run that it is joined to
unfoldable pub pick_joined : ℕ → ℕ → Fresh → Attempt → Option Run → Option LeaseRow
pick_joined now key fresh a none = none
pick_joined now key fresh a (some r) =
    if lease_is_over now a then some (lease_row key fresh a r) else none

unfoldable pub pick_expired : ℕ → Store → ℕ × Fresh → Option LeaseRow
unfolding pick_joined
pick_expired now s (key, fresh) = elim (s.attempts key) [
  | none ↦ none
  | some a ↦ pick_joined now key fresh a (s.runs a.run_id)
]

abbrev pub end_attempt : ℕ → ℕ → AttemptStatus → Store → Store
end_attempt now attempt_id status s = record s {
  attempts =
      update_where s.attempts attempt_id (λ a. attempt_is_running a.status)
        (λ a. record a {
          status = status;
          completed_at = some now;
          lease_expires_at = none;
          error = some (codes "worker lease expired");
        });
}

abbrev pub end_unknown : ℕ → ℕ → Store → Store
end_unknown now run_id s = record s {
  runs =
      update_where s.runs run_id (λ r. run_is_running r.status)
        (λ r. record r {
          status = RunStatus.unknown;
          terminal_reason = some (codes "worker lease expired after an ambiguous execution");
          completed_at = some now;
        });
}

unfoldable pub expire_lease : ℕ → LeaseRow → Store → Result StoreError Store
expire_lease now row s =
    if row.idempotent && ltb row.retry.attempt_count row.max_attempts
    then create_attempt_and_outbox now row.retry.fresh row.retry.run_id
        (row.retry.attempt_count + 1) row.retry.queue_id none
        (reopen (end_attempt now row.attempt_id AttemptStatus.failed s) row.retry
          (λ r. run_is_running r.status))
    else ok
        (end_unknown now row.retry.run_id (end_attempt now row.attempt_id AttemptStatus.unknown s))

unfoldable pub reconcile_expired_leases : ℕ → ℕ → List (ℕ × Fresh) → Store → Result StoreError Store
unfolding select_rows pick_expired for_each expire_lease
reconcile_expired_leases now limit scan s =
    for_each (expire_lease now) (select_rows limit (pick_expired now s) scan) s

-- `UPDATE crono.outbox SET claimed_by = NULL …` over all rows
unfoldable pub release_claims : ℕ → Store → Store
release_claims now s = record s {
  outbox = λ key.
      Option.map
        (λ o.
          if is_none o.published_at
            && is_none o.cancelled_at
            && holds (λ expires. ltb expires now) o.claim_expires_at
          then record o { claimed_by = none; claim_expires_at = none }
          else o)
        (s.outbox key);
}

-- the scans of the three passes
pub record Scans : Type 0 where
  pub dispatches : List ℕ
  pub retries : List (ℕ × Fresh)
  pub leases : List (ℕ × Fresh)

unfoldable pub reconcile : ℕ → ℕ → Scans → Store → Result StoreError Store
unfolding reconcile_expired_dispatches reconcile_due_retries reconcile_expired_leases release_claims
reconcile now limit scans s = do
  s₁ ← reconcile_expired_dispatches now limit scans.dispatches s
  s₂ ← reconcile_due_retries now limit scans.retries s₁
  s₃ ← reconcile_expired_leases now limit scans.leases s₂
  ok (release_claims now s₃)

-- ===== src/Dispatch/Soundness/Work.antt =====
-- `claim_attempt`, `renew_lease` and `record_attempt_output` keep the invariant.
use mathlib.Core.Option
use crono.Prelude.{
  ℕ, ◌+◌, ◌*◌, ◌≡◌, refl, ◌∙◌, sym, ap, ◌⊎◌, inl, inr, Bool, true, false, none, some, arith, leb,
  Bool-cases, ok, ok-inj,
}
use crono.Dispatch.Status.{RunStatus, AttemptStatus, run_is_queued}
use crono.Dispatch.Tables.{Run, Attempt, Store, Table, update_where, affects, second}
use crono.Dispatch.Create.{insert_run_event}
use crono.Dispatch.Attempt.{
  ClaimRequest, ClaimResponse, LeaseRequest, OutputSnapshotRequest, lease_seconds, is_claimable,
  claim_rows, claim_attempt, is_leased, renew_lease, is_newer, max_sequence, record_attempt_output,
}
use crono.Dispatch.Soundness.{Replaced, matched, IsSound, IsPosted, IsConsistent}
use crono.Dispatch.Soundness.Rows.{affects-inv, update_where_hit, update_where_miss}
use crono.Dispatch.Soundness.Core.{unfinished_run, moved-IsSound}
use crono.Dispatch.Soundness.Posted.{moved-IsPosted}

-- The rows behind a claim that a worker may make.
claimable_rows :
    (s : Store) (request : ClaimRequest)
    → IsConsistent s
    → affects s.attempts request.attempt_id (is_claimable s request) ≡ true
    → (a : Attempt) × (r : Run) × (s.attempts request.attempt_id ≡ some a)
      × (is_claimable s request a ≡ true)
      × (a.run_id ≡ request.run_id)
      × (a.status ≡ AttemptStatus.queued)
      × (s.runs a.run_id ≡ some r)
      × (r.status ≡ RunStatus.queued)
      × (a.attempt ≡ r.attempt_count)
claimable_rows s request inv hit =
    let (a, at, free) = affects-inv s.attempts request.attempt_id (is_claimable s request) hit in
    let queued : a.status ≡ AttemptStatus.queued = ground arith in
    let (r, row, last, together) =
      unfinished_run request.attempt_id a inv.sound at (ground arith) in
    (a, r, at, free, ground arith, queued, row, ground arith, last)

-- On consistent tables a claim never fails with a conflict or otherwise: it is granted if the
-- Attempt belongs to the named Run, is queued and its Run is in the requested queue, and is refused
-- with the store as it was if not. A granted claim hands out the snapshot of the Run.
pub claim_attempt-ne-conflict :
    (now : ℕ) (request : ClaimRequest) (s : Store)
    → IsConsistent s
    → ((a : Attempt) × (r : Run) × (s.attempts request.attempt_id ≡ some a)
        × (is_claimable s request a ≡ true)
        × (s.runs request.run_id ≡ some r)
        × (claim_attempt now request s
            ≡ ok (
              insert_run_event request.run_id "running" (claim_rows now request s),
              record {
                claimed = true;
                lease_seconds = lease_seconds;
                execution = some r.execution_snapshot;
              },
            )))
      ⊎ ((affects s.attempts request.attempt_id (is_claimable s request) ≡ false)
          × (claim_attempt now request s
              ≡ ok
                  (s, record { claimed = false; lease_seconds = lease_seconds; execution = none })))
unfolding claim_attempt
claim_attempt-ne-conflict now request s inv =
    elim (Bool-cases (affects s.attempts request.attempt_id (is_claimable s request))) [
      | inl hit ↦
          let (a, r, at, free, its, queued, row, ready, last) = claimable_rows s request inv hit in
          let found : s.runs request.run_id ≡ some r = ap s.runs (sym its) ∙ row in
          let run_hit : affects s.runs request.run_id (λ q. run_is_queued q.status) ≡ true =
            ground arith in
          inl (a, r, at, free, found, rw (hit, run_hit, found) refl)
      | inr miss ↦ inr (miss, rw miss refl)
    ]

claim_rows-IsConsistent :
    (now : ℕ) (request : ClaimRequest) (s : Store)
    → IsConsistent s
    → affects s.attempts request.attempt_id (is_claimable s request) ≡ true
    → IsConsistent (claim_rows now request s)
claim_rows-IsConsistent now request s inv hit =
    let (a, r, at, free, its, queued, row, ready, last) = claimable_rows s request inv hit in
    let runs_after =
      update_where_hit s.runs a.run_id (λ q. run_is_queued q.status)
        (λ q. record q {
          status = RunStatus.running;
          started_at = some (Option.get_or q.started_at now);
        })
        r row (ground arith) in
    let attempts_after =
      update_where_hit s.attempts request.attempt_id (is_claimable s request)
        (λ b. record b {
          status = AttemptStatus.running;
          worker_id = some request.worker_id;
          started_at = some now;
          heartbeat_at = some now;
          lease_expires_at = some (now + lease_seconds * second);
        })
        a at free in
    record {
      sound = simp (← its) (
          moved-IsSound inv.sound request.attempt_id row at runs_after attempts_after
            (record { count = refl; most = refl; snapshot = refl })
            (record { run = refl; number = refl }) last refl (λ e. cc));
      posted =
          moved-IsPosted inv.posted request.attempt_id a _ at attempts_after refl (λ pending. cc);
    }

-- A claim keeps the tables consistent.
pub claim_attempt-IsConsistent :
    (now : ℕ) (request : ClaimRequest) (s : Store) (t : Store × ClaimResponse)
    → IsConsistent s
    → claim_attempt now request s ≡ ok t
    → IsConsistent t.0
unfolding claim_attempt insert_run_event
claim_attempt-IsConsistent now request s t inv h =
    elim (Bool-cases (affects s.attempts request.attempt_id (is_claimable s request))) [
      | inl hit ↦ elim (Bool-cases (affects s.runs request.run_id (λ q. run_is_queued q.status))) [
        | inl run_hit ↦
            let done = claim_rows-IsConsistent now request s inv hit in
            let same : insert_run_event request.run_id "running" (claim_rows now request s) ≡ t.0 =
              cc (rw (hit, run_hit) at h) in
            rw (← same) (record { sound = done.sound; posted = done.posted })
        | inr busy ↦ absurd (cc (rw (hit, busy) at h))
      ]
      | inr miss ↦ let same : s ≡ t.0 = cc (rw miss at h) in rw (← same) inv
    ]

-- An update of a running Attempt that leaves its status, Run and number alone.
running_update-IsConsistent :
    (s : Store) (id : ℕ) (a a' : Attempt) {attempts' : Table Attempt}
    → IsConsistent s
    → s.attempts id ≡ some a
    → a'.run_id ≡ a.run_id
    → a'.attempt ≡ a.attempt
    → a'.status ≡ a.status
    → a.status ≡ AttemptStatus.running
    → Replaced s.attempts attempts' id a'
    → IsSound s.runs attempts' × IsPosted attempts' s.outbox
running_update-IsConsistent s id a a' inv at same_run same_number same_status busy after =
    let (r, row, last, together) = unfinished_run id a inv.sound at (ground arith) in
    let runs_after : Replaced s.runs s.runs a.run_id r = λ j. ground arith in
    let together' : matched r.status a'.status ≡ true =
      ap (matched r.status) same_status ∙ together in
    (
      moved-IsSound inv.sound id row at runs_after after
          (record { count = refl; most = refl; snapshot = refl })
          (record { run = same_run; number = same_number }) last together'
          (inv.sound.waiting a.run_id r row),
      moved-IsPosted inv.posted id a a' at after same_run (λ pending. cc),
    )

-- The same for an UPDATE of running Attempts, whether it finds a row or not.
running_updates-IsConsistent :
    (s : Store) (id : ℕ) (test : Attempt → Bool) (set : Attempt → Attempt)
    → IsConsistent s
    → ((a : Attempt) → test a ≡ true → a.status ≡ AttemptStatus.running)
    → ((a : Attempt)
        → ((set a).run_id ≡ a.run_id) × ((set a).attempt ≡ a.attempt) × ((set a).status ≡ a.status))
    → IsConsistent (record s { attempts = update_where s.attempts id test set })
running_updates-IsConsistent s id test set inv busy keeps =
    elim (Bool-cases (affects s.attempts id test)) [
      | inl hit ↦
          let (a, at, held) = affects-inv s.attempts id test hit in
          let (run, number, status) = keeps a in
          let (sound, posted) =
            running_update-IsConsistent s id a (set a) inv at run number status (busy a held)
              (update_where_hit s.attempts id test set a at held) in
          record { sound = sound; posted = posted }
      | inr miss ↦
          let same = update_where_miss s.attempts id test set miss in
          record { sound = rw same inv.sound; posted = rw same inv.posted }
    ]

-- Renewing a lease keeps the tables consistent.
pub renew_lease-IsConsistent :
    (now : ℕ) (request : LeaseRequest) (s : Store)
    → IsConsistent s
    → IsConsistent (renew_lease now request s).0
unfolding renew_lease
renew_lease-IsConsistent now request s inv =
    running_updates-IsConsistent s request.attempt_id (is_leased now request.worker_id) _ inv
      (λ a held. ground arith) (λ a. (refl, refl, refl))

-- Recording a snapshot of an Attempt's output keeps the tables consistent.
pub record_attempt_output-IsConsistent :
    (now : ℕ) (request : OutputSnapshotRequest) (s : Store) (t : Store × Bool)
    → IsConsistent s
    → record_attempt_output now request s ≡ ok t
    → IsConsistent t.0
unfolding record_attempt_output
record_attempt_output-IsConsistent now request s t inv h =
    elim (Bool-cases (leb request.sequence max_sequence)) [
      | inl fits ↦
          let done =
            running_updates-IsConsistent s request.attempt_id (is_newer now request)
              (λ a. record a {
                stdout_tail = some request.stdout_tail;
                stderr_tail = some request.stderr_tail;
                output_sequence = request.sequence;
              })
              inv (λ a held. ground arith) (λ a. (refl, refl, refl)) in
          rw (← ap (λ x. x.0) (ok-inj (rw fits at h))) done
      | inr large ↦ absurd (cc (rw large at h))
    ]

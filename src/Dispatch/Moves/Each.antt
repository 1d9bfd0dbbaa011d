-- ===== src/Dispatch/Moves/Each.antt =====
-- Publication and the worker's requests move the rows as `Moves` says.
use crono.Prelude.{
  ℕ, ◌≡◌, refl, ap, Bool, true, false, not, ◌&&◌, none, some, arith, Bool-cases, Option-cases, inl,
  inr, if◌then◌else◌, ok, List, [], ◌∷◌, ok-inj, leb, Text,
}
use crono.Dispatch.Status.{RunStatus, is_terminal, run_is_pending, run_is_queued, run_is_running}
use crono.Dispatch.Tables.{Run, Attempt, Outbox, Store, Table, update_where, affects, select_rows}
use crono.Dispatch.Create.{insert_run_event}
use crono.Dispatch.Outbox.{
  OutboxRecord, claim_row, claim_rows, claim_outbox, is_owned, publish_rows, mark_published,
  record_publish_failure, duration_limit,
}
use crono.Dispatch.Outbox
use crono.Dispatch.Attempt.{
  ClaimRequest, ClaimResponse, LeaseRequest, OutputSnapshotRequest, CompletionRequest,
  claim_attempt, is_leased, renew_lease, is_newer, record_attempt_output, should_retry, run_outcome,
  finish_attempt, finish_run, settle_run, complete_leased, complete_attempt, lease_seconds,
}
use crono.Dispatch.Attempt
use crono.Dispatch.Moves.{
  RunMoves, AttemptMoves, OutboxMoves, Moves, Kept, run_stays, attempt_stays, outbox_stays,
  update_where-Kept, Moves-refl, Moves-trans,
}

-- the UPDATE of a Run that has not ended, and keeps its snapshot
pub run_update :
    (runs : Table Run) (key : ℕ) (test : RunStatus → Bool) (set : Run → Run)
    → ((status : RunStatus) → test status ≡ true → is_terminal status ≡ false)
    → ((r : Run) → (set r).execution_snapshot ≡ r.execution_snapshot)
    → Kept RunMoves runs (update_where runs key (λ r. test r.status) set)
run_update runs key test set live keeps =
    update_where-Kept RunMoves run_stays runs key (λ r. test r.status) set
      λ r hit. record { final = λ over. absurd (cc (live r.status hit)); snapshot = keeps r }

pub pending_is_live :
    (status : RunStatus) → run_is_pending status ≡ true → is_terminal status ≡ false
pending_is_live status h = ground arith

pub queued_is_live : (status : RunStatus) → run_is_queued status ≡ true → is_terminal status ≡ false
queued_is_live status h = ground arith

pub running_is_live :
    (status : RunStatus) → run_is_running status ≡ true → is_terminal status ≡ false
running_is_live status h = ground arith

pub same_attempts : (table : Table Attempt) → Kept AttemptMoves table table
same_attempts table k x e = (x, e, attempt_stays x)

pub same_runs : (table : Table Run) → Kept RunMoves table table
same_runs table k x e = (x, e, run_stays x)

pub same_outbox : (table : Table Outbox) → Kept OutboxMoves table table
same_outbox table k x e = (x, e, outbox_stays x)

pub mark_published-Moves :
    (now owner : ℕ) (r : OutboxRecord) (sequence : ℕ) (s t : Store)
    → mark_published now owner r sequence s ≡ ok t
    → Moves s t
unfolding mark_published insert_run_event
mark_published-Moves now owner r sequence s t h =
    elim (Bool-cases (leb sequence Outbox.max_sequence)) [
      | inl fits ↦ elim (Bool-cases (affects s.outbox r.id (is_owned r.run_id owner))) [
        | inl hit ↦ rw (← ok-inj (rw (fits, hit) at h)) (record {
          runs = run_update s.runs r.run_id run_is_pending _ pending_is_live (λ q. refl);
          attempts = update_where-Kept AttemptMoves attempt_stays s.attempts r.attempt_id _ _ λ a e.
              record {
                final = ground arith;
                forward = ground arith;
                granted = λ _. refl;
                run = refl;
                number = refl;
                output = omega arith;
              };
          outbox =
              update_where-Kept OutboxMoves outbox_stays s.outbox r.id _ _
                λ o e. record { attempt = refl; run = refl; published = ground arith };
        })
        | inr miss ↦ absurd (cc (rw (fits, miss) at h))
      ]
      | inr large ↦ absurd (cc (rw large at h))
    ]

pub claim_rows-Moves :
    (now owner lease : ℕ) (keys : List ℕ) (s : Store)
    → Moves s (claim_rows now owner lease keys s).0
unfolding claim_rows
claim_rows-Moves now owner lease [] s = Moves-refl s
claim_rows-Moves now owner lease (key ∷ keys) s =
    Moves-trans s (claim_row now owner lease key s) _
      (record {
        runs = same_runs s.runs;
        attempts = same_attempts s.attempts;
        outbox =
            update_where-Kept OutboxMoves outbox_stays s.outbox key _ _
              λ o e. record { attempt = refl; run = refl; published = ground arith };
      })
      (claim_rows-Moves now owner lease keys (claim_row now owner lease key s))

pub claim_outbox-Moves :
    (now owner limit lease : ℕ) (scan : List ℕ) (s : Store) (t : Store × List OutboxRecord)
    → claim_outbox now owner limit lease scan s ≡ ok t
    → Moves s t.0
unfolding claim_outbox
claim_outbox-Moves now owner limit lease scan s t h = elim (Bool-cases (leb lease duration_limit)) [
  | inl short ↦ rw (← ap (λ x. x.0) (ok-inj (rw short at h))) (
      claim_rows-Moves now owner lease
        (select_rows limit
          (λ key. if affects s.outbox key (Outbox.is_claimable now) then some key else none) scan)
        s)
  | inr long ↦ absurd (cc (rw long at h))
]

pub record_publish_failure-Moves :
    (owner dispatch_id : ℕ) (message : Text) (next_attempt_at : ℕ) (s : Store)
    → Moves s (record_publish_failure owner dispatch_id message next_attempt_at s)
unfolding record_publish_failure
record_publish_failure-Moves owner dispatch_id message next_attempt_at s = record {
  runs = same_runs s.runs;
  attempts = same_attempts s.attempts;
  outbox =
      update_where-Kept OutboxMoves outbox_stays s.outbox dispatch_id _ _
        λ o e. record { attempt = refl; run = refl; published = ground arith };
}

pub claim_attempt-Moves :
    (now : ℕ) (request : ClaimRequest) (s : Store) (t : Store × ClaimResponse)
    → claim_attempt now request s ≡ ok t
    → Moves s t.0
unfolding claim_attempt insert_run_event
claim_attempt-Moves now request s t h =
    elim (Bool-cases (affects s.attempts request.attempt_id (Attempt.is_claimable s request))) [
      | inl hit ↦ elim (Bool-cases (affects s.runs request.run_id (λ q. run_is_queued q.status))) [
        | inl run_hit ↦ rw (← ap (λ x. x.0) (ok-inj (rw (hit, run_hit) at h))) (record {
          runs = run_update s.runs request.run_id run_is_queued _ queued_is_live (λ q. refl);
          attempts =
              update_where-Kept AttemptMoves attempt_stays s.attempts request.attempt_id _ _ λ a e.
                record {
                  final = ground arith;
                  forward = ground arith;
                  granted = ground arith;
                  run = refl;
                  number = refl;
                  output = omega arith;
                };
          outbox = same_outbox s.outbox;
        })
        | inr busy ↦ absurd (cc (rw (hit, busy) at h))
      ]
      | inr miss ↦ rw (← ap (λ x. x.0) (ok-inj (rw miss at h))) (Moves-refl s)
    ]

pub renew_lease-Moves :
    (now : ℕ) (request : LeaseRequest) (s : Store) → Moves s (renew_lease now request s).0
unfolding renew_lease
renew_lease-Moves now request s = record {
  runs = same_runs s.runs;
  attempts = update_where-Kept AttemptMoves attempt_stays s.attempts request.attempt_id _ _ λ a e.
      record {
        final = ground arith;
        forward = omega arith;
        granted = λ _. refl;
        run = refl;
        number = refl;
        output = omega arith;
      };
  outbox = same_outbox s.outbox;
}

pub record_attempt_output-Moves :
    (now : ℕ) (request : OutputSnapshotRequest) (s : Store) (t : Store × Bool)
    → record_attempt_output now request s ≡ ok t
    → Moves s t.0
unfolding record_attempt_output
record_attempt_output-Moves now request s t h =
    elim (Bool-cases (leb request.sequence Attempt.max_sequence)) [
      | inl fits ↦ rw (← ap (λ x. x.0) (ok-inj (rw fits at h))) (record {
        runs = same_runs s.runs;
        attempts =
            update_where-Kept AttemptMoves attempt_stays s.attempts request.attempt_id _ _ λ a e.
              record {
                final = ground arith;
                forward = omega arith;
                granted = λ _. refl;
                run = refl;
                number = refl;
                output = ground arith;
              };
        outbox = same_outbox s.outbox;
      })
      | inr large ↦ absurd (cc (rw large at h))
    ]

pub settle_run-Moves :
    (now retry_at : ℕ) (request : CompletionRequest) (run_id : ℕ) (run : Run) (s : Store)
    → Moves s (settle_run now retry_at request run_id run s)
unfolding settle_run insert_run_event
settle_run-Moves now retry_at request run_id run s = record {
  runs = run_update s.runs run_id run_is_running _ running_is_live (λ q. refl);
  attempts = update_where-Kept AttemptMoves attempt_stays s.attempts request.attempt_id _ _ λ a e.
      record {
        final = ground arith;
        forward = ground arith;
        granted = λ _. refl;
        run = refl;
        number = refl;
        output = omega arith;
      };
  outbox = same_outbox s.outbox;
}

pub complete_attempt-Moves :
    (now retry_at : ℕ) (request : CompletionRequest) (s : Store) (t : Store × Bool)
    → complete_attempt now retry_at request s ≡ ok t
    → Moves s t.0
unfolding complete_attempt complete_leased
complete_attempt-Moves now retry_at request s t h =
    elim (Bool-cases (request.skipped && not request.succeeded)) [
      | inl bad ↦ absurd (cc (rw bad at h))
      | inr fine ↦ elim (Option-cases (s.attempts request.attempt_id)) [
        | inl absent ↦ rw (← ap (λ x. x.0) (ok-inj (rw (fine, absent) at h))) (Moves-refl s)
        | inr (a, at) ↦ elim (Bool-cases (is_leased now request.worker_id a)) [
          | inl held ↦ elim (Option-cases (s.runs a.run_id)) [
            | inl nothing ↦ absurd (cc (rw (fine, at, held, nothing) at h))
            | inr (run, row) ↦
                rw (← ap (λ x. x.0) (ok-inj (rw (fine, at, held, row) at h)))
                  (settle_run-Moves now retry_at request a.run_id run s)
          ]
          | inr lost ↦ rw (← ap (λ x. x.0) (ok-inj (rw (fine, at, lost) at h))) (Moves-refl s)
        ]
      ]
    ]

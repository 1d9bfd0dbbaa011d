-- ===== src/Dispatch/Delivery.antt =====
-- The way of one dispatch through infrastructure/postgres.rs: `claim_outbox`, `mark_published` and
-- `claim_attempt`, one behind the other.
use Prim.Native.String.{String}
use mathlib.Core.Option
use crono.Prelude.{
  ℕ, zero, suc, Option, ◌+◌, ◌*◌, ◌≤◌, ◌≡◌, refl, sym, ap, ◌∙◌, Bool, true, none, some, [], ◌∷◌,
  arith, leb, ◌==◌, if◌then◌else◌, ok,
}
use crono.Dispatch.Status.{
  RunStatus, AttemptStatus, run_is_pending, run_is_queued, attempt_is_pending,
}
use crono.Dispatch.Tables.{
  Run, Attempt, Outbox, Store, Table, second, update_where, affects, select_rows,
}
use crono.Dispatch.Create.{insert_run_event}
use crono.Dispatch.Outbox.{
  is_claimable, record_of, collect, claim_row, claim_rows, claim_outbox, duration_limit,
  max_sequence, is_owned, publish_rows, mark_published,
}
use crono.Dispatch.Attempt.{
  ClaimRequest, lease_seconds, is_claimable as attempt_is_claimable, claim_rows as start_rows,
  claim_attempt,
}
use crono.Dispatch.Soundness.{IsConsistent}
use crono.Dispatch.Soundness.Core.{unfinished_run}

module _ {A : Type 0} (table : Table A) (key : ℕ) where
  affects-here :
      (test : A → Bool) (row : A)
      → table key ≡ some row
      → test row ≡ true
      → affects table key test ≡ true
  affects-here test row at hit = ground arith

  update_where-here :
      (test : A → Bool) (set : A → A) (row : A)
      → table key ≡ some row
      → test row ≡ true
      → update_where table key test set key ≡ some (set row)
  update_where-here test set row at hit = ground arith

-- A worker gets a queued Attempt of a queued Run when it asks for the Queue of the Run.
claim_attempt-queued :
    (t : Store) (id run_id : ℕ) (a : Attempt) (r : Run) (now : ℕ) (worker : String)
    → t.attempts id ≡ some a
    → a.run_id ≡ run_id
    → a.status ≡ AttemptStatus.queued
    → t.runs run_id ≡ some r
    → r.status ≡ RunStatus.queued
    → (started : Store) × (last : Run) × (claim_attempt now
          (record { run_id = run_id; attempt_id = id; queue_id = r.queue_id; worker_id = worker })
          t
        ≡ ok (
          started,
          record {
            claimed = true;
            lease_seconds = lease_seconds;
            execution = some r.execution_snapshot;
          },
        ))
      × (started.runs run_id ≡ some last)
      × (last.status ≡ RunStatus.running)
unfolding claim_attempt insert_run_event
claim_attempt-queued t id run_id a r now worker at its queued row waits =
    let request : ClaimRequest = record {
      run_id = run_id;
      attempt_id = id;
      queue_id = r.queue_id;
      worker_id = worker;
    } in
    let in_queue =
      affects-here t.runs a.run_id (λ q. q.queue_id == r.queue_id) r (ap t.runs its ∙ row)
        (ground arith) in
    let hit = affects-here t.attempts id (attempt_is_claimable t request) a at (ground arith) in
    let run_hit = affects-here t.runs run_id (λ q. run_is_queued q.status) r row (ground arith) in
    (
      insert_run_event run_id "running" (start_rows now request t),
      _,
      rw (hit, run_hit, row) refl,
      update_where-here t.runs run_id (λ q. run_is_queued q.status)
          (λ q. record q {
            status = RunStatus.running;
            started_at = some (Option.get_or q.started_at now);
          })
          r row (ground arith),
      refl,
    )

select_rows_empty :
    {A B : Type 0} (limit : ℕ) (pick : A → Option B) → select_rows limit pick [] ≡ []
unfolding select_rows
select_rows_empty zero pick = refl
select_rows_empty (suc limit) pick = refl

module _ (s : Store) (key : ℕ) (row : Outbox) (owner now : ℕ) (at : s.outbox key ≡ some row)
    (due : is_claimable now row ≡ true) where
  claim_outbox-due :
      (limit lease : ℕ)
      → lease ≤ duration_limit
      → claim_outbox now owner (suc limit) lease (key ∷ []) s
        ≡ ok (claim_row now owner lease key s, record_of key row ∷ [])
  unfolding claim_outbox claim_rows select_rows
  claim_outbox-due limit lease fits =
      let bounded : leb lease duration_limit ≡ true = ground arith in
      let picked = affects-here s.outbox key (is_claimable now) row at due in
      let none_left =
        select_rows_empty limit
          (λ k. if affects s.outbox k (is_claimable now) then some k else none) in
      rw (bounded, select_rows, picked, collect, at, none_left) refl

  mark_published-claimed :
      (later lease sequence : ℕ)
      → sequence ≤ max_sequence
      → mark_published later owner (record_of key row) sequence (claim_row now owner lease key s)
        ≡ ok (
            insert_run_event row.run_id "queued" (
              publish_rows later owner
                (record_of key row)
                sequence
                (claim_row now owner lease key s)))
  unfolding mark_published
  mark_published-claimed later lease sequence fits =
      let bounded : leb sequence max_sequence ≡ true = ground arith in
      let claimed =
        update_where-here s.outbox key (is_claimable now)
          (λ o. record o {
            claimed_by = some owner;
            claim_expires_at = some (now + lease * second);
          })
          row at due in
      let owned =
        affects-here (claim_row now owner lease key s).outbox key (is_owned row.run_id owner) _
          claimed (ground arith) in
      rw (bounded, owned) refl

  -- what the tables hold of the row that is due
  announced_rows :
      IsConsistent s
      → (a : Attempt) × (run : Run) × (s.attempts row.attempt_id ≡ some a)
        × (a.run_id ≡ row.run_id)
        × (a.status ≡ AttemptStatus.pending_dispatch)
        × (s.runs row.run_id ≡ some run)
        × (run.status ≡ RunStatus.pending_dispatch)
  announced_rows inv =
      let (a, found, its, waits) = inv.posted.announced key row at in
      let pending = waits (ground arith) (ground arith) in
      let (run, run_row, last, together) =
        unfinished_run row.attempt_id a inv.sound found (ground arith) in
      (a, run, found, its, pending, ap s.runs (sym its) ∙ run_row, ground arith)

-- The three calls on the tables `s`, one behind the other, and what they leave of the Run.
abbrev pub Delivers : Store → ℕ → Outbox → ℕ → String → ℕ → ℕ → ℕ → ℕ → ℕ → ℕ → Type 0
Delivers s key row owner worker now later latest limit lease sequence =
    (claimed : Store) × (published : Store) × (started : Store) × (run : Run) × (last : Run)
    × (claim_outbox now owner (suc limit) lease (key ∷ []) s ≡ ok (claimed, record_of key row ∷ []))
    × (mark_published later owner (record_of key row) sequence claimed ≡ ok published)
    × (s.runs row.run_id ≡ some run)
    × (claim_attempt latest
          (record {
            run_id = row.run_id;
            attempt_id = row.attempt_id;
            queue_id = run.queue_id;
            worker_id = worker;
          })
          published
        ≡ ok (
          started,
          record {
            claimed = true;
            lease_seconds = lease_seconds;
            execution = some run.execution_snapshot;
          },
        ))
    × (started.runs row.run_id ≡ some last)
    × (last.status ≡ RunStatus.running)

-- On consistent tables an outbox row that is due comes through to a worker: a publisher that scans
-- it gets its record and no other, a mark of that record as published succeeds, and a worker that then
-- asks for the announced Attempt in the Queue of its Run gets the snapshot of the Run, which is
-- running afterwards.
pub dispatch_delivered :
    (s : Store) (key : ℕ) (row : Outbox) (owner : ℕ) (worker : String)
    (now later latest limit lease sequence : ℕ)
    → IsConsistent s
    → s.outbox key ≡ some row
    → is_claimable now row ≡ true
    → lease ≤ duration_limit
    → sequence ≤ max_sequence
    → Delivers s key row owner worker now later latest limit lease sequence
unfolding insert_run_event
dispatch_delivered s key row owner worker now later latest limit lease sequence inv at due short
      small =
    let (a, run, found, its, pending, run_row, waits) =
      announced_rows s key row owner now at due inv in
    let published : Store =
      insert_run_event row.run_id "queued"
        (publish_rows later owner (record_of key row) sequence (claim_row now owner lease key s)) in
    let queued_attempt =
      update_where-here s.attempts row.attempt_id (λ b. attempt_is_pending b.status)
        (λ b. record b { status = AttemptStatus.queued }) a found (ground arith) in
    let queued_run =
      update_where-here s.runs row.run_id (λ q. run_is_pending q.status)
        (λ q. record q { status = RunStatus.queued; queued_at = some later }) run run_row
        (ground arith) in
    let (started, last, granted, its_row, running) =
      claim_attempt-queued published row.attempt_id row.run_id
        (record a { status = AttemptStatus.queued })
        (record run { status = RunStatus.queued; queued_at = some later }) latest worker
        queued_attempt its refl queued_run refl in
    (
      claim_row now owner lease key s,
      published,
      started,
      run,
      last,
      claim_outbox-due s key row owner now at due limit lease short,
      mark_published-claimed s key row owner now at due later lease sequence small,
      run_row,
      granted,
      its_row,
      running,
    )

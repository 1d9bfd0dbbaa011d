-- ===== src/Dispatch/Moves/History.antt =====
-- Every sequence of operations: what the server's callers can do to the tables, in any order, with
-- the records that publishers hold between `claim_outbox` and `mark_published`.
use crono.Prelude.{
  ℕ, ◌≡◌, refl, ◌∙◌, inl, inr, Bool, Option, none, some, Bool-cases, Option-cases, if◌then◌else◌,
  Result, ok, List, [], ◌∷◌, ◌++◌, Text, All, All-append, All-imp, All-at, Memᴰ, leb, ok-inj,
}
use crono.Domain.Schedule.{PlannedOccurrence}
use crono.Dispatch.Tables.{Store, ExecutionSnapshot, affects, select_rows}
use crono.Dispatch.Create.{
  Fresh, PreparedRun, ExecutionRow, create_normal_run, insert_scheduled_occurrence,
}
use crono.Dispatch.Outbox.{
  OutboxRecord, record_of, collect, claim_row, claim_rows, is_claimable, duration_limit,
  claim_outbox, mark_published, record_publish_failure,
}
use crono.Dispatch.Attempt.{
  ClaimRequest, ClaimResponse, LeaseRequest, OutputSnapshotRequest, CompletionRequest,
  claim_attempt, renew_lease, record_attempt_output, complete_attempt,
}
use crono.Dispatch.Reconcile.{Scans, reconcile}
use crono.Dispatch.Soundness.{IsConsistent}
use crono.Dispatch.Soundness.Publication.{
  IsRecordOf, mark_published-IsConsistent, claim_outbox-IsConsistent,
  record_publish_failure-IsConsistent,
}
use crono.Dispatch.Soundness.Work.{
  claim_attempt-IsConsistent, renew_lease-IsConsistent, record_attempt_output-IsConsistent,
}
use crono.Dispatch.Soundness.Completion.{complete_attempt-IsConsistent}
use crono.Dispatch.Soundness.Creation.{create_normal_run-IsConsistent}
use crono.Dispatch.Soundness.Occurrence.{insert_scheduled_occurrence-IsConsistent}
use crono.Dispatch.Soundness.Deadlines.{IsScan, reconcile-IsConsistent}
use crono.Dispatch.Moves.{Moves, Moves-refl, Moves-trans}
use crono.Dispatch.Moves.Each.{
  mark_published-Moves, claim_rows-Moves, claim_outbox-Moves, record_publish_failure-Moves,
  claim_attempt-Moves, renew_lease-Moves, record_attempt_output-Moves, complete_attempt-Moves,
}
use crono.Dispatch.Moves.Creation.{create_normal_run-Moves, insert_scheduled_occurrence-Moves}
use crono.Dispatch.Moves.Repair.{reconcile-Moves}

-- the tables, and the records that publishers have got
pub record World : Type 0 where
  pub store : Store
  pub records : List OutboxRecord

pub data Step (w : World) : World → Type 0 where
  create :
      (now : ℕ) (fresh : Fresh) (prepared : PreparedRun) (t : Store)
      → create_normal_run now fresh prepared w.store ≡ ok t
      → Step w (record w { store = t })
  schedule :
      (now run_id : ℕ) (fresh : Fresh) (schedule_id : ℕ) (planned : PlannedOccurrence)
      (execution : ExecutionRow) (rendered : Result Text ExecutionSnapshot) (reason : Option Text)
      (t : Store)
      → insert_scheduled_occurrence now run_id fresh schedule_id planned execution rendered reason
          w.store
        ≡ ok t
      → Step w (record w { store = t })
  take :
      (now owner limit lease : ℕ) (scan : List ℕ) (t : Store × List OutboxRecord)
      → claim_outbox now owner limit lease scan w.store ≡ ok t
      → Step w (record { store = t.0; records = t.1 ++ w.records })
  publish :
      (now owner : ℕ) (r : OutboxRecord) (sequence : ℕ) (t : Store)
      → Memᴰ r w.records
      → mark_published now owner r sequence w.store ≡ ok t
      → Step w (record w { store = t })
  give_back :
      (owner dispatch_id : ℕ) (message : Text) (next_attempt_at : ℕ)
      → Step w (record w {
        store = record_publish_failure owner dispatch_id message next_attempt_at w.store;
      })
  claim :
      (now : ℕ) (request : ClaimRequest) (t : Store × ClaimResponse)
      → claim_attempt now request w.store ≡ ok t
      → Step w (record w { store = t.0 })
  renew :
      (now : ℕ) (request : LeaseRequest)
      → Step w (record w { store = (renew_lease now request w.store).0 })
  report :
      (now : ℕ) (request : OutputSnapshotRequest) (t : Store × Bool)
      → record_attempt_output now request w.store ≡ ok t
      → Step w (record w { store = t.0 })
  complete :
      (now retry_at : ℕ) (request : CompletionRequest) (t : Store × Bool)
      → complete_attempt now retry_at request w.store ≡ ok t
      → Step w (record w { store = t.0 })
  repair :
      (now limit : ℕ) (scans : Scans) (t : Store)
      → IsScan scans
      → reconcile now limit scans w.store ≡ ok t
      → Step w (record w { store = t })

pub data Steps : World → World → Type 0 where
  done : (w : World) → Steps w w
  next : (u v w : World) → Step u v → Steps v w → Steps u w

-- One step, and a sequence, move the rows forward.
step-Moves : (v w : World) → Step v w → Moves v.store w.store
step-Moves v w (Step.create now fresh prepared t h) =
    create_normal_run-Moves now fresh prepared v.store t h
step-Moves v w (Step.schedule now run_id fresh schedule_id planned execution rendered reason t h) =
    insert_scheduled_occurrence-Moves now run_id fresh schedule_id planned execution rendered reason
      v.store t h
step-Moves v w (Step.take now owner limit lease scan t h) =
    claim_outbox-Moves now owner limit lease scan v.store t h
step-Moves v w (Step.publish now owner r sequence t held h) =
    mark_published-Moves now owner r sequence v.store t h
step-Moves v w (Step.give_back owner dispatch_id message next_attempt_at) =
    record_publish_failure-Moves owner dispatch_id message next_attempt_at v.store
step-Moves v w (Step.claim now request t h) = claim_attempt-Moves now request v.store t h
step-Moves v w (Step.renew now request) = renew_lease-Moves now request v.store
step-Moves v w (Step.report now request t h) = record_attempt_output-Moves now request v.store t h
step-Moves v w (Step.complete now retry_at request t h) =
    complete_attempt-Moves now retry_at request v.store t h
step-Moves v w (Step.repair now limit scans t once h) = reconcile-Moves now limit scans v.store t h

pub Steps-Moves : (v w : World) → Steps v w → Moves v.store w.store
Steps-Moves v w (Steps.done _) = Moves-refl v.store
Steps-Moves v w (Steps.next _ u _ one rest) =
    Moves-trans v.store u.store w.store (step-Moves v u one) (Steps-Moves u w rest)

-- A record that is held stays one of a row that is there.
record_stays : (s t : Store) (r : OutboxRecord) → Moves s t → IsRecordOf s r → IsRecordOf t r
record_stays s t r moves (o, at, its) =
    let (o', at', move) = moves.outbox r.id o at in (o', at', move.attempt ∙ its)

collected :
    (key : ℕ) (s t : Store) (records : List OutboxRecord)
    → Moves s t
    → All (IsRecordOf t) records
    → All (IsRecordOf t) (collect s.outbox key records)
collected key s t records moves rest = elim (Option-cases (s.outbox key)) [
  | inl absent ↦ rw (absent, collect) rest
  | inr (o, at) ↦ rw (at, collect) (record_stays s t (record_of key o) moves (o, at, refl), rest)
]

claim_rows-records :
    (now owner lease : ℕ) (keys : List ℕ) (s : Store)
    → All (IsRecordOf (claim_rows now owner lease keys s).0) (claim_rows now owner lease keys s).1
unfolding claim_rows
claim_rows-records now owner lease [] s = tt
claim_rows-records now owner lease (key ∷ keys) s =
    collected key s (claim_rows now owner lease (key ∷ keys) s).0
      (claim_rows now owner lease keys (claim_row now owner lease key s)).1
      (claim_rows-Moves now owner lease (key ∷ keys) s)
      (claim_rows-records now owner lease keys (claim_row now owner lease key s))

-- What `claim_outbox` returns is records of rows that are there.
pub claim_outbox-records :
    (now owner limit lease : ℕ) (scan : List ℕ) (s : Store) (t : Store × List OutboxRecord)
    → claim_outbox now owner limit lease scan s ≡ ok t
    → All (IsRecordOf t.0) t.1
unfolding claim_outbox
claim_outbox-records now owner limit lease scan s t h =
    elim (Bool-cases (leb lease duration_limit)) [
      | inl short ↦ rw (← ok-inj (rw short at h)) (
          claim_rows-records now owner lease
            (select_rows limit
              (λ key. if affects s.outbox key (is_claimable now) then some key else none) scan)
            s)
      | inr long ↦ absurd (cc (rw long at h))
    ]

-- Consistent tables, and publishers that hold records of rows that are there.
pub record IsGood (w : World) : Type 0 where
  pub consistent : IsConsistent w.store
  pub known : All (IsRecordOf w.store) w.records

records_stay :
    (s t : Store) (records : List OutboxRecord)
    → Moves s t
    → All (IsRecordOf s) records
    → All (IsRecordOf t) records
records_stay s t records moves =
    All-imp (IsRecordOf s) (IsRecordOf t) records (λ r. record_stays s t r moves)

step-IsConsistent : (v w : World) → IsGood v → Step v w → IsConsistent w.store
step-IsConsistent v w good (Step.create now fresh prepared t h) =
    create_normal_run-IsConsistent now fresh prepared v.store t good.consistent h
step-IsConsistent v w good
      (Step.schedule now run_id fresh schedule_id planned execution rendered reason t h) =
    insert_scheduled_occurrence-IsConsistent now run_id fresh schedule_id planned execution rendered
      reason v.store t good.consistent h
step-IsConsistent v w good (Step.take now owner limit lease scan t h) =
    claim_outbox-IsConsistent now owner limit lease scan v.store t good.consistent h
step-IsConsistent v w good (Step.publish now owner r sequence t held h) =
    mark_published-IsConsistent now owner r sequence v.store t good.consistent
      (All-at (IsRecordOf v.store) r v.records good.known held) h
step-IsConsistent v w good (Step.give_back owner dispatch_id message next_attempt_at) =
    record_publish_failure-IsConsistent owner dispatch_id message next_attempt_at v.store
      good.consistent
step-IsConsistent v w good (Step.claim now request t h) =
    claim_attempt-IsConsistent now request v.store t good.consistent h
step-IsConsistent v w good (Step.renew now request) =
    renew_lease-IsConsistent now request v.store good.consistent
step-IsConsistent v w good (Step.report now request t h) =
    record_attempt_output-IsConsistent now request v.store t good.consistent h
step-IsConsistent v w good (Step.complete now retry_at request t h) =
    complete_attempt-IsConsistent now retry_at request v.store t good.consistent h
step-IsConsistent v w good (Step.repair now limit scans t once h) =
    reconcile-IsConsistent now limit scans v.store t once good.consistent h

step-known : (v w : World) → IsGood v → Step v w → All (IsRecordOf w.store) w.records
step-known v w good (Step.take now owner limit lease scan t h) =
    All-append (IsRecordOf t.0) t.1 v.records
      (claim_outbox-records now owner limit lease scan v.store t h)
      (records_stay v.store t.0 v.records
        (claim_outbox-Moves now owner limit lease scan v.store t h) good.known)
step-known v w good step = records_stay v.store w.store v.records (step-Moves v w step) good.known

pub Steps-IsGood : (v w : World) → IsGood v → Steps v w → IsGood w
Steps-IsGood v w good (Steps.done _) = good
Steps-IsGood v w good (Steps.next _ u _ one rest) =
    Steps-IsGood u w
      (record { consistent = step-IsConsistent v u good one; known = step-known v u good one }) rest

-- ===== src/Dispatch/Guarantees.antt =====
-- What every sequence of operations on the dispatch tables guarantees.
use crono.Prelude.{
  min, ℕ, ◌≤◌, ◌≡◌, ◌⊎◌, refl, ap, sym, ◌∙◌, true, false, Option, none, some, [], arith, leb, ok,
  inl, inr, Bool-cases, Result, Text, ok-inj, >>=-ok,
}
use crono.Domain.Schedule.{PlannedOccurrence}
use crono.Dispatch.Status.{RunStatus, AttemptStatus, is_terminal, is_finished, run_is_pending}
use crono.Dispatch.Tables.{Run, Attempt, Outbox, Store, ExecutionSnapshot, OccurrenceKey, is_none}
use crono.Dispatch.Create.{
  Fresh, ExecutionRow, occurrence_status, insert_occurrence, insert_scheduled_occurrence,
  max_lateness, scheduled_run, mark_index, insert_run, create_attempt_and_outbox, insert_run_event,
}
use crono.Dispatch.Soundness.{IsConsistent}
use crono.Dispatch.Soundness.Core.{unfinished_run}
use crono.Dispatch.Soundness.Creation.{created-inv}
use crono.Dispatch.Moves.{stage}
use crono.Dispatch.Moves.History.{World, Steps, IsGood, Steps-Moves, Steps-IsGood}

abbrev pub empty_store : Store
empty_store = record {
  runs = λ k. none;
  attempts = λ k. none;
  outbox = λ k. none;
  occurrence_index = λ key. false;
  run_events = [];
  schedule_events = [];
}

abbrev pub empty_world : World
empty_world = record { store = empty_store; records = [] }

empty-IsGood : IsGood empty_world
empty-IsGood = record {
  consistent = record {
    sound = record {
      bounded = λ k r e. absurd (cc (e));
      cautious = λ k r e h. absurd (cc (e));
      waiting = λ k r e h. absurd (cc (e));
      joined = λ k a e. absurd (cc (e));
      single = λ j k a b e e' same number. absurd (cc (e));
    };
    posted = record {
      announced = λ k o e. absurd (cc (e));
      single = λ j k o p e e' same. absurd (cc (e));
      quiet = λ k o e c. absurd (cc (e));
    };
  };
  known = tt;
}

-- After any sequence of operations on empty tables, the tables are consistent: each Run has no more
-- Attempts than it may have and its state matches that of its newest Attempt, older Attempts have
-- ended, a Job that is not idempotent has one Attempt at most, a Run waits for a retry only if it
-- may have one, and an outbox row that is neither published nor cancelled announces an Attempt that
-- has not been dispatched.
pub Steps-IsConsistent : (w : World) → Steps empty_world w → IsConsistent w.store
Steps-IsConsistent w steps = (Steps-IsGood empty_world w empty-IsGood steps).consistent

-- A Run that has ended stays as it is, whatever sequence of operations follows.
pub Steps-terminal :
    (v w : World) (run_id : ℕ) (r : Run)
    → Steps v w
    → v.store.runs run_id ≡ some r
    → is_terminal r.status ≡ true
    → w.store.runs run_id ≡ some r
Steps-terminal v w run_id r steps at over =
    let (r', at', move) = (Steps-Moves v w steps).runs run_id r at in
    at' ∙ ap some (move.final over)

-- An Attempt goes forward only, from dispatch over the queue and the execution to its end, whatever
-- sequence of operations follows. It stays with its Run, the number of its newest output snapshot
-- does not fall, and once a worker has got it, it is that worker's for good; when it has ended, its
-- row stays as it is.
pub Steps-forward :
    (v w : World) (attempt_id : ℕ) (a : Attempt)
    → Steps v w
    → v.store.attempts attempt_id ≡ some a
    → (a' : Attempt) × (w.store.attempts attempt_id ≡ some a')
      × (stage a.status ≤ stage a'.status)
      × (a'.run_id ≡ a.run_id)
      × (a.output_sequence ≤ a'.output_sequence)
      × ((leb 2 (stage a.status) ≡ false) ⊎ (a'.worker_id ≡ a.worker_id))
      × ((is_finished a.status ≡ false) ⊎ (a' ≡ a))
Steps-forward v w attempt_id a steps at =
    let (a', at', move) = (Steps-Moves v w steps).attempts attempt_id a at in
    (
      a',
      at',
      move.forward,
      move.run,
      move.output,
      elim (Bool-cases (leb 2 (stage a.status))) [
        | inl started ↦ inr (move.granted started)
        | inr waits ↦ inl waits
      ],
      elim (Bool-cases (is_finished a.status)) [
        | inl over ↦ inr (move.final over)
        | inr live ↦ inl live
      ],
    )

-- After any sequence of operations on empty tables, a Run has one Attempt at most that has not
-- ended.
pub Steps-unfinished :
    (w : World) (j k : ℕ) (a b : Attempt)
    → Steps empty_world w
    → w.store.attempts j ≡ some a
    → w.store.attempts k ≡ some b
    → a.run_id ≡ b.run_id
    → is_finished a.status ≡ false
    → is_finished b.status ≡ false
    → j ≡ k
Steps-unfinished w j k a b steps ea eb same live live' =
    let inv = Steps-IsConsistent w steps in
    let (r, at, last, _) = unfinished_run j a inv.sound ea live in
    let (q, at', last', _) = unfinished_run k b inv.sound eb live' in
    let one : r ≡ q = cc (ap w.store.runs same) in
    inv.sound.single j k a b ea eb same (last ∙ ap (λ (x : Run). x.attempt_count) one ∙ sym last')

-- After any sequence of operations on empty tables, the Run of a Job that is not idempotent has one
-- Attempt at most: no retry, no expired lease and no repeated message starts it twice.
pub Steps-not_idempotent :
    (w : World) (j k : ℕ) (a b : Attempt) (r : Run)
    → Steps empty_world w
    → w.store.attempts j ≡ some a
    → w.store.attempts k ≡ some b
    → a.run_id ≡ b.run_id
    → w.store.runs a.run_id ≡ some r
    → r.execution_snapshot.idempotent ≡ false
    → j ≡ k
Steps-not_idempotent w j k a b r steps ea eb same at once =
    let inv = Steps-IsConsistent w steps in
    let (r', at', agrees) = inv.sound.joined j a ea in
    let (q', at'', agrees') = inv.sound.joined k b eb in
    let one : r' ≡ r = cc in
    let two : q' ≡ r = cc (ap w.store.runs same) in
    let most = inv.sound.cautious a.run_id r at once in
    let first : a.attempt ≡ 1 =
      omega (arith, agrees.positive, agrees.counted, ap (λ (x : Run). x.attempt_count) one) in
    let second : b.attempt ≡ 1 =
      omega (arith, agrees'.positive, agrees'.counted, ap (λ (x : Run). x.attempt_count) two) in
    inv.sound.single j k a b ea eb same (first ∙ sym second)

-- After any sequence of operations on empty tables, the Attempt of an outbox row that is neither
-- published nor cancelled and the Run wait for dispatch, and the Attempt is the Run's newest.
pub Steps-open :
    (w : World) (key : ℕ) (o : Outbox)
    → Steps empty_world w
    → w.store.outbox key ≡ some o
    → is_none o.published_at ≡ true
    → is_none o.cancelled_at ≡ true
    → (a : Attempt) × (r : Run) × (w.store.attempts o.attempt_id ≡ some a)
      × (w.store.runs o.run_id ≡ some r)
      × (a.status ≡ AttemptStatus.pending_dispatch)
      × (r.status ≡ RunStatus.pending_dispatch)
      × (a.attempt ≡ r.attempt_count)
Steps-open w key o steps at unpublished live =
    let inv = Steps-IsConsistent w steps in
    let (a, its, owner, waits) = inv.posted.announced key o at in
    let pending = waits unpublished live in
    let (r, row, last, together) = unfinished_run o.attempt_id a inv.sound its (ground arith) in
    (a, r, its, ap w.store.runs (sym owner) ∙ row, pending, ground arith, last)

-- The key of a planned occurrence.
abbrev pub key_of : ℕ → PlannedOccurrence → ExecutionRow → OccurrenceKey
key_of schedule_id planned execution = record {
  schedule_id = schedule_id;
  scheduled_at = planned.scheduled_at;
  target_id = execution.target_id;
}

marked :
    (now run_id : ℕ) (fresh : Fresh) (key : OccurrenceKey) (execution : ExecutionRow) (lateness : ℕ)
    (deadline : Option ℕ) (snapshot : ExecutionSnapshot) (status : RunStatus) (reason : Option Text)
    (s t : Store)
    → insert_occurrence now run_id fresh key execution lateness deadline snapshot status reason s
      ≡ ok t
    → t.occurrence_index key ≡ true
unfolding insert_occurrence insert_run_event
marked now run_id fresh key execution lateness deadline snapshot status reason s t h =
    let run = scheduled_run now run_id key execution lateness snapshot status reason in
    let (m, inserted, rest) = >>=-ok (insert_run run s) _ h in
    let there : (mark_index key m).occurrence_index key ≡ true = ground arith in
    elim (Bool-cases (run_is_pending status)) [
      | inl pending ↦
          let (u, created, last) =
            >>=-ok
              (create_attempt_and_outbox now fresh run_id 1 execution.queue_id deadline
                (mark_index key m))
              _ (rw pending at rest) in
          let (_, _, same) =
            created-inv now fresh run_id 1 execution.queue_id deadline (mark_index key m) u
              created in
          ap (λ (x : Store). x.occurrence_index key) (sym (ok-inj last))
          ∙ ap (λ (x : Store). x.occurrence_index key) (sym same)
          ∙ there
      | inr closed ↦
          ap (λ (x : Store). x.occurrence_index key) (sym (ok-inj (rw closed at rest))) ∙ there
    ]

-- An occurrence that has been materialized is materialized once: whoever does it again, at whatever
-- time, with whatever identifiers, decision and snapshot, leaves the tables as they are, if the
-- schedule, the planned instant and the Target are the same.
pub insert_scheduled_occurrence_idem :
    (now run_id : ℕ) (fresh : Fresh) (schedule_id : ℕ) (planned : PlannedOccurrence)
    (execution : ExecutionRow) (rendered : Result Text ExecutionSnapshot) (reason : Option Text)
    (now' run_id' : ℕ) (fresh' : Fresh) (planned' : PlannedOccurrence) (execution' : ExecutionRow)
    (rendered' : Result Text ExecutionSnapshot) (reason' : Option Text) (s t : Store)
    → insert_scheduled_occurrence now run_id fresh schedule_id planned execution rendered reason s
      ≡ ok t
    → planned'.scheduled_at ≡ planned.scheduled_at
    → execution'.target_id ≡ execution.target_id
    → insert_scheduled_occurrence now' run_id' fresh' schedule_id planned' execution' rendered'
        reason' t
      ≡ ok t
unfolding insert_scheduled_occurrence
insert_scheduled_occurrence_idem now run_id fresh schedule_id planned execution rendered reason now'
      run_id' fresh' planned' execution' rendered' reason' s t h same_time same_target =
    let key = key_of schedule_id planned execution in
    let (snapshot, status) = occurrence_status planned.execute rendered in
    let there : t.occurrence_index key ≡ true = elim (Bool-cases (s.occurrence_index key)) [
      | inl before ↦
          ap (λ (x : Store). x.occurrence_index key) (sym (ok-inj (rw before at h))) ∙ before
      | inr new ↦
          marked now run_id fresh key execution (min planned.lateness_seconds max_lateness)
            planned.dispatch_deadline snapshot status reason s t (rw new at h)
    ] in
    let same_key_now : key_of schedule_id planned' execution' ≡ key =
      ap (λ at. key_of schedule_id (record planned { scheduled_at = at }) execution') same_time
      ∙ ap (λ target. key_of schedule_id planned (record execution { target_id = target }))
          same_target in
    rw (ap t.occurrence_index same_key_now ∙ there) refl

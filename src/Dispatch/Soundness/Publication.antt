-- ===== src/Dispatch/Soundness/Publication.antt =====
-- `mark_published`, `claim_outbox` and `record_publish_failure` keep the invariant.
use crono.Prelude.{
  ℕ, ◌+◌, ◌*◌, ◌≡◌, refl, sym, ap, ◌∙◌, inl, inr, true, none, some, List, [], ◌∷◌, arith, ◌==◌, leb,
  Bool-cases, if◌then◌else◌, ok, ◌&&◌, Text,
}
use crono.Dispatch.Status.{RunStatus, AttemptStatus, run_is_pending, attempt_is_pending}
use crono.Dispatch.Tables.{Outbox, Store, affects, is_none, holds, second, select_rows}
use crono.Dispatch.Create.{insert_run_event}
use crono.Dispatch.Outbox.{
  OutboxRecord, max_sequence, duration_limit, is_owned, publish_rows, mark_published, is_claimable,
  claim_row, claim_rows, claim_outbox, record_publish_failure,
}
use crono.Dispatch.Soundness.{IsPosted, IsConsistent}
use crono.Dispatch.Soundness.Rows.{affects-inv, update_where_hit, update_where_miss}
use crono.Dispatch.Soundness.Core.{unfinished_run, moved-IsSound}
use crono.Dispatch.Soundness.Posted.{closed-IsPosted, claimed-IsPosted}

-- The record that a publisher holds is of a row that is there, and names its Attempt.
abbrev pub IsRecordOf : Store → OutboxRecord → Type 0
IsRecordOf s r = (o : Outbox) × (s.outbox r.id ≡ some o) × (o.attempt_id ≡ r.attempt_id)

-- A row that somebody has claimed is not cancelled.
owned_open :
    (s : Store) (key : ℕ) (o : Outbox) (run_id owner : ℕ)
    → IsPosted s.attempts s.outbox
    → s.outbox key ≡ some o
    → is_owned run_id owner o ≡ true
    → (is_none o.published_at ≡ true) × (is_none o.cancelled_at ≡ true) × (o.run_id ≡ run_id)
owned_open s key o run_id owner posted row owned = ground (arith, posted.quiet key o row)

publish_rows-IsConsistent :
    (now owner : ℕ) (r : OutboxRecord) (sequence : ℕ) (s : Store)
    → IsConsistent s
    → IsRecordOf s r
    → affects s.outbox r.id (is_owned r.run_id owner) ≡ true
    → IsConsistent (publish_rows now owner r sequence s)
publish_rows-IsConsistent now owner r sequence s inv known hit =
    let (o, row, owned) = affects-inv s.outbox r.id (is_owned r.run_id owner) hit in
    let (unpublished, live, its_run) = owned_open s r.id o r.run_id owner inv.posted row owned in
    let (a, at, a_run, waits) = inv.posted.announced r.id o row in
    let pending = waits unpublished live in
    let (run, run_row, last, together) =
      unfinished_run o.attempt_id a inv.sound at (ground arith) in
    let run_pending : run.status ≡ RunStatus.pending_dispatch = ground arith in
    let (o', row', its) = known in
    let one : o' ≡ o = cc in
    let same : o.attempt_id ≡ r.attempt_id = ap (λ (p : Outbox). p.attempt_id) (sym one) ∙ its in
    let runs_after =
      update_where_hit s.runs a.run_id (λ q. run_is_pending q.status)
        (λ q. record q { status = RunStatus.queued; queued_at = some now }) run run_row
        (ground arith) in
    let attempts_after =
      update_where_hit s.attempts o.attempt_id (λ b. attempt_is_pending b.status)
        (λ b. record b { status = AttemptStatus.queued }) a at (ground arith) in
    let outbox_after =
      update_where_hit s.outbox r.id (is_owned r.run_id owner)
        (λ p. record p {
          published_at = some now;
          nats_stream_sequence = some sequence;
          claimed_by = none;
          claim_expires_at = none;
          last_error = none;
        })
        o row owned in
    record {
      sound =
          rw (← (a_run ∙ its_run), ← same)
            (moved-IsSound inv.sound o.attempt_id run_row at runs_after attempts_after
              (record { count = refl; most = refl; snapshot = refl })
              (record { run = refl; number = refl }) last refl (λ e. cc));
      posted = rw (← same) (
          closed-IsPosted inv.posted o.attempt_id a _ at attempts_after refl r.id o _ row
            outbox_after refl refl refl refl (λ e. cc));
    }

-- Marking a row published that the publisher has claimed keeps the tables consistent, if the
-- publisher's record names the Attempt of its row.
pub mark_published-IsConsistent :
    (now owner : ℕ) (r : OutboxRecord) (sequence : ℕ) (s t : Store)
    → IsConsistent s
    → IsRecordOf s r
    → mark_published now owner r sequence s ≡ ok t
    → IsConsistent t
unfolding mark_published insert_run_event
mark_published-IsConsistent now owner r sequence s t inv known h =
    elim (Bool-cases (leb sequence max_sequence)) [
      | inl fits ↦ elim (Bool-cases (affects s.outbox r.id (is_owned r.run_id owner))) [
        | inl hit ↦
            let done = publish_rows-IsConsistent now owner r sequence s inv known hit in
            let same : insert_run_event r.run_id "queued" (publish_rows now owner r sequence s)
                ≡ t =
              cc (rw (fits, hit) at h) in
            rw (← same) (record { sound = done.sound; posted = done.posted })
        | inr miss ↦ absurd (cc (rw (fits, miss) at h))
      ]
      | inr large ↦ absurd (cc (rw large at h))
    ]

claim_row-IsPosted :
    (now owner lease key : ℕ) (s : Store)
    → IsPosted s.attempts s.outbox
    → IsPosted s.attempts (claim_row now owner lease key s).outbox
claim_row-IsPosted now owner lease key s inv =
    elim (Bool-cases (affects s.outbox key (is_claimable now))) [
      | inl hit ↦
          let (o, row, ready) = affects-inv s.outbox key (is_claimable now) hit in
          claimed-IsPosted inv key o _ row
            (update_where_hit s.outbox key (is_claimable now)
              (λ p. record p {
                claimed_by = some owner;
                claim_expires_at = some (now + lease * second);
              })
              o row ready)
            refl refl refl refl (λ cancelled. absurd (ground arith))
      | inr miss ↦ rw (update_where_miss s.outbox key (is_claimable now) _ miss) inv
    ]

claim_rows-IsConsistent :
    (now owner lease : ℕ) (keys : List ℕ) (s : Store)
    → IsConsistent s
    → IsConsistent (claim_rows now owner lease keys s).0
unfolding claim_rows
claim_rows-IsConsistent now owner lease [] s inv = inv
claim_rows-IsConsistent now owner lease (key ∷ keys) s inv =
    claim_rows-IsConsistent now owner lease keys (claim_row now owner lease key s)
      (record { sound = inv.sound; posted = claim_row-IsPosted now owner lease key s inv.posted })

-- Claiming outbox rows keeps the tables consistent, whichever rows the scan finds.
pub claim_outbox-IsConsistent :
    (now owner limit lease : ℕ) (scan : List ℕ) (s : Store) (t : Store × List OutboxRecord)
    → IsConsistent s
    → claim_outbox now owner limit lease scan s ≡ ok t
    → IsConsistent t.0
unfolding claim_outbox
claim_outbox-IsConsistent now owner limit lease scan s t inv h =
    elim (Bool-cases (leb lease duration_limit)) [
      | inl short ↦
          let keys =
            select_rows limit
              (λ key. if affects s.outbox key (is_claimable now) then some key else none) scan in
          let same : claim_rows now owner lease keys s ≡ t = cc (rw short at h) in
          rw (← same) (claim_rows-IsConsistent now owner lease keys s inv)
      | inr long ↦ absurd (cc (rw long at h))
    ]

-- Recording a failed publication keeps the tables consistent.
pub record_publish_failure-IsConsistent :
    (owner dispatch_id : ℕ) (message : Text) (next_attempt_at : ℕ) (s : Store)
    → IsConsistent s
    → IsConsistent (record_publish_failure owner dispatch_id message next_attempt_at s)
unfolding record_publish_failure
record_publish_failure-IsConsistent owner dispatch_id message next_attempt_at s inv =
    let test =
      λ (row : Outbox). holds (λ o. o == owner) row.claimed_by && is_none row.published_at in
    record {
      sound = inv.sound;
      posted = elim (Bool-cases (affects s.outbox dispatch_id test)) [
        | inl hit ↦
            let (o, row, owned) = affects-inv s.outbox dispatch_id test hit in
            claimed-IsPosted inv.posted dispatch_id o _ row
              (update_where_hit s.outbox dispatch_id test _ o row owned) refl refl refl refl
              (λ _. refl)
        | inr miss ↦ rw (update_where_miss s.outbox dispatch_id test _ miss) inv.posted
      ];
    }

-- ===== src/Dispatch/Outbox.antt =====
-- Publication: `claim_outbox`, `mark_published` and `record_publish_failure`. `now` is
-- `statement_timestamp()`, one instant for the statements of one call; an `err` rolls back.
use crono.Prelude.{
  ℕ, ◌+◌, ◌*◌, Bool, true, ◌&&◌, Option, none, some, List, [], ◌∷◌, ltb, leb, ◌==◌, if◌then◌else◌,
  Text, Result, ok, err,
}
use crono.Dispatch.Status.{RunStatus, AttemptStatus, run_is_pending, attempt_is_pending}
use crono.Dispatch.Tables.{
  StoreError, DispatchEnvelope, Outbox, Store, Table, second, update_where, affects, is_none, holds,
  select_rows,
}
use crono.Dispatch.Create.{insert_run_event}
use crono.Dispatch.Tail.{bounded_error}

pub record OutboxRecord : Type 0 where
  pub id : ℕ
  pub run_id : ℕ
  pub attempt_id : ℕ
  pub subject : ℕ
  pub payload : DispatchEnvelope
  pub attempt_count : ℕ

abbrev pub record_of : ℕ → Outbox → OutboxRecord
record_of id row = record {
  id = id;
  run_id = row.run_id;
  attempt_id = row.attempt_id;
  subject = row.subject;
  payload = row.payload;
  attempt_count = row.attempt_count;
}

-- a claim that is absent or has run out; `claim_expires_at < now`
abbrev pub claim_is_free : ℕ → Option ℕ → Bool
claim_is_free now none = true
claim_is_free now (some expires) = ltb expires now

abbrev pub deadline_is_open : ℕ → Option ℕ → Bool
deadline_is_open now none = true
deadline_is_open now (some deadline) = leb now deadline

abbrev pub is_claimable : ℕ → Outbox → Bool
is_claimable now row =
    is_none row.published_at
    && is_none row.cancelled_at
    && leb row.next_attempt_at now
    && deadline_is_open now row.dispatch_deadline
    && claim_is_free now row.claim_expires_at

abbrev pub duration_limit : ℕ
duration_limit = 2_147_483_647

-- the claim of one selected row
abbrev pub claim_row : ℕ → ℕ → ℕ → ℕ → Store → Store
claim_row now owner lease key s = record s {
  outbox = update_where s.outbox key (is_claimable now) (λ row. record row {
    claimed_by = some owner;
    claim_expires_at = some (now + lease * second);
  });
}

abbrev pub collect : Table Outbox → ℕ → List OutboxRecord → List OutboxRecord
collect table key records = elim (table key) [
  | none ↦ records
  | some row ↦ record_of key row ∷ records
]

unfoldable pub claim_rows : ℕ → ℕ → ℕ → List ℕ → Store → Store × List OutboxRecord
claim_rows now owner lease [] s = (s, [])
claim_rows now owner lease (key ∷ keys) s =
    let (s', records) = claim_rows now owner lease keys (claim_row now owner lease key s) in
    (s', collect s.outbox key records)

unfoldable pub claim_outbox :
    ℕ → ℕ → ℕ → ℕ → List ℕ → Store → Result StoreError (Store × List OutboxRecord)
unfolding claim_rows select_rows
claim_outbox now owner limit lease scan s =
    if leb lease duration_limit
    then ok (
        claim_rows now owner lease
          (select_rows limit
            (λ key. if affects s.outbox key (is_claimable now) then some key else none) scan)
          s)
    else err StoreError.internal

abbrev pub max_sequence : ℕ
max_sequence = 9_223_372_036_854_775_807

abbrev pub is_owned : ℕ → ℕ → Outbox → Bool
is_owned run_id owner row =
    row.run_id == run_id && holds (λ o. o == owner) row.claimed_by && is_none row.published_at

abbrev pub publish_rows : ℕ → ℕ → OutboxRecord → ℕ → Store → Store
publish_rows now owner r sequence s = record s {
  outbox = update_where s.outbox r.id (is_owned r.run_id owner) (λ row. record row {
    published_at = some now;
    nats_stream_sequence = some sequence;
    claimed_by = none;
    claim_expires_at = none;
    last_error = none;
  });
  attempts =
      update_where s.attempts r.attempt_id (λ a. attempt_is_pending a.status)
        (λ a. record a { status = AttemptStatus.queued });
  runs =
      update_where s.runs r.run_id (λ run. run_is_pending run.status)
        (λ run. record run { status = RunStatus.queued; queued_at = some now });
}

unfoldable pub mark_published : ℕ → ℕ → OutboxRecord → ℕ → Store → Result StoreError Store
mark_published now owner r sequence s =
    if leb sequence max_sequence
    then if affects s.outbox r.id (is_owned r.run_id owner)
      then ok (insert_run_event r.run_id "queued" (publish_rows now owner r sequence s))
      else err StoreError.conflict
    else err StoreError.internal

unfoldable pub record_publish_failure : ℕ → ℕ → Text → ℕ → Store → Store
record_publish_failure owner dispatch_id message next_attempt_at s = record s {
  outbox =
      update_where s.outbox dispatch_id
        (λ row. holds (λ o. o == owner) row.claimed_by && is_none row.published_at)
        (λ row. record row {
          attempt_count = row.attempt_count + 1;
          last_error = some (bounded_error message);
          next_attempt_at = next_attempt_at;
          claimed_by = none;
          claim_expires_at = none;
        });
}

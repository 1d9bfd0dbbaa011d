-- ===== src/Dispatch/Soundness.antt =====
-- The invariant of the dispatch tables. The children prove that each operation keeps it.
pub mod Rows
pub mod Core
pub mod Added
pub mod Posted
pub mod Publication
pub mod Work
pub mod Completion
pub mod Creation
pub mod Occurrence
pub mod Passes
pub mod Repair
pub mod Leases
pub mod LeasePass
pub mod Deadlines
use crono.Prelude.{
  ℕ, suc, ◌≤◌, ◌<◌, ◌≡◌, Bool, true, false, Option, some, none, ◌==◌, if◌then◌else◌,
}
use crono.Dispatch.Status.{RunStatus, AttemptStatus, is_finished, run_is_retry_wait}
use crono.Dispatch.Tables.{Run, Attempt, Outbox, Store, Table, is_none}

-- The states in which a Run and its current Attempt may be together.
abbrev pub matched : RunStatus → AttemptStatus → Bool
matched RunStatus.pending_dispatch AttemptStatus.pending_dispatch = true
matched RunStatus.queued AttemptStatus.queued = true
matched RunStatus.running AttemptStatus.running = true
matched RunStatus.retry_wait AttemptStatus.failed = true
matched RunStatus.succeeded AttemptStatus.succeeded = true
matched RunStatus.failed AttemptStatus.failed = true
matched RunStatus.skipped AttemptStatus.skipped = true
matched RunStatus.skipped AttemptStatus.dead = true
matched RunStatus.unknown AttemptStatus.unknown = true
matched _ _ = false

-- An Attempt and its Run: only the current Attempt can be unfinished, and it moves with the Run.
pub record Agrees (r : Run) (a : Attempt) : Type 0 where
  pub positive : 0 < a.attempt
  pub counted : a.attempt ≤ r.attempt_count
  pub older : a.attempt < r.attempt_count → is_finished a.status ≡ true
  pub current : a.attempt ≡ r.attempt_count → matched r.status a.status ≡ true

-- Runs and Attempts.
pub record IsSound (runs : Table Run) (attempts : Table Attempt) : Type 0 where
  pub bounded : (k : ℕ) (r : Run) → runs k ≡ some r → r.attempt_count ≤ r.max_attempts
  -- a second Attempt needs an idempotent Job
  pub cautious :
      (k : ℕ) (r : Run)
      → runs k ≡ some r
      → r.execution_snapshot.idempotent ≡ false
      → r.attempt_count ≤ 1
  -- a Run that waits has an Attempt left, and an idempotent Job
  pub waiting :
      (k : ℕ) (r : Run)
      → runs k ≡ some r
      → run_is_retry_wait r.status ≡ true
      → (r.attempt_count < r.max_attempts) × (r.execution_snapshot.idempotent ≡ true)
  pub joined :
      (k : ℕ) (a : Attempt)
      → attempts k ≡ some a
      → (r : Run) × (runs a.run_id ≡ some r) × Agrees r a
  -- the constraint `run_attempts_run_attempt_unique`
  pub single :
      (j k : ℕ) (a b : Attempt)
      → attempts j ≡ some a
      → attempts k ≡ some b
      → a.run_id ≡ b.run_id
      → a.attempt ≡ b.attempt
      → j ≡ k

-- Outbox rows and the Attempts that they announce.
pub record IsPosted (attempts : Table Attempt) (outbox : Table Outbox) : Type 0 where
  pub announced :
      (k : ℕ) (o : Outbox)
      → outbox k ≡ some o
      → (a : Attempt) × (attempts o.attempt_id ≡ some a)
        × (a.run_id ≡ o.run_id)
        × (is_none o.published_at ≡ true
            → is_none o.cancelled_at ≡ true
            → a.status ≡ AttemptStatus.pending_dispatch)
  -- `attempt_id` is UNIQUE
  pub single :
      (j k : ℕ) (o p : Outbox)
      → outbox j ≡ some o
      → outbox k ≡ some p
      → o.attempt_id ≡ p.attempt_id
      → j ≡ k
  -- a cancelled row is nobody's
  pub quiet :
      (k : ℕ) (o : Outbox)
      → outbox k ≡ some o
      → is_none o.cancelled_at ≡ false
      → o.claimed_by ≡ none

pub record IsConsistent (s : Store) : Type 0 where
  pub sound : IsSound s.runs s.attempts
  pub posted : IsPosted s.attempts s.outbox

-- One row is replaced, all others stay.
abbrev pub Replaced : {A : Type 0} → Table A → Table A → ℕ → A → Type 0
Replaced before after key row = (j : ℕ) → after j ≡ (if j == key then some row else before j)

abbrev pub Unchanged : {A : Type 0} → Table A → Table A → Type 0
Unchanged before after = (j : ℕ) → after j ≡ before j

-- What never changes in a row.
pub record SameRun (r r' : Run) : Type 0 where
  pub count : r'.attempt_count ≡ r.attempt_count
  pub most : r'.max_attempts ≡ r.max_attempts
  pub snapshot : r'.execution_snapshot.idempotent ≡ r.execution_snapshot.idempotent

pub record SameAttempt (a a' : Attempt) : Type 0 where
  pub run : a'.run_id ≡ a.run_id
  pub number : a'.attempt ≡ a.attempt

-- ===== src/Dispatch/Soundness/Core.antt =====
-- A Run and its current Attempt that move together keep the invariant.
use crono.Prelude.{ℕ, ◌≤◌, ◌<◌, ◌≡◌, ◌⊎◌, inl, inr, true, false, some, arith, ◌==◌, Bool-cases}
use crono.Dispatch.Status.{is_finished, run_is_retry_wait}
use crono.Dispatch.Tables.{Run, Attempt, Table}
use crono.Dispatch.Soundness.{matched, Agrees, IsSound, Replaced, SameRun, SameAttempt}

-- Reading a replaced row back.
pub read-Replaced :
    {A : Type 0} (before after : Table A) (key j : ℕ) (row found : A)
    → Replaced before after key row
    → after j ≡ some found
    → ((j ≡ key) × (found ≡ row)) ⊎ ((j ≡ key → ⊥) × (before j ≡ some found))
read-Replaced before after key j row found rep e = ground (arith, rep j)

module _ {runs runs' : Table Run} {attempts attempts' : Table Attempt} (inv : IsSound runs attempts)
    (id : ℕ) {r r' : Run} {a a' : Attempt} (run_row : runs a.run_id ≡ some r)
    (attempt_row : attempts id ≡ some a) (runs_after : Replaced runs runs' a.run_id r')
    (attempts_after : Replaced attempts attempts' id a') (same_run : SameRun r r')
    (same_attempt : SameAttempt a a') (is_current : a.attempt ≡ r.attempt_count)
    (together : matched r'.status a'.status ≡ true)
    (may_wait : run_is_retry_wait r'.status ≡ true
      → (r.attempt_count < r.max_attempts) × (r.execution_snapshot.idempotent ≡ true)) where
  read_run :
      (k : ℕ) (q : Run)
      → runs' k ≡ some q
      → ((k ≡ a.run_id) × (q ≡ r')) ⊎ ((k ≡ a.run_id → ⊥) × (runs k ≡ some q))
  read_run k q = read-Replaced runs runs' a.run_id k r' q runs_after

  read_attempt :
      (k : ℕ) (b : Attempt)
      → attempts' k ≡ some b
      → ((k ≡ id) × (b ≡ a')) ⊎ ((k ≡ id → ⊥) × (attempts k ≡ some b))
  read_attempt k b = read-Replaced attempts attempts' id k a' b attempts_after

  bounded : (k : ℕ) (q : Run) → runs' k ≡ some q → q.attempt_count ≤ q.max_attempts
  bounded k q e = ground (arith, read_run k q e, inv.bounded k q, inv.bounded a.run_id r run_row)

  cautious :
      (k : ℕ) (q : Run)
      → runs' k ≡ some q
      → q.execution_snapshot.idempotent ≡ false
      → q.attempt_count ≤ 1
  cautious k q e = ground (arith, read_run k q e, inv.cautious k q, inv.cautious a.run_id r run_row)

  waiting :
      (k : ℕ) (q : Run)
      → runs' k ≡ some q
      → run_is_retry_wait q.status ≡ true
      → (q.attempt_count < q.max_attempts) × (q.execution_snapshot.idempotent ≡ true)
  waiting k q e waits = ground (arith, read_run k q e, inv.waiting k q, may_wait)

  -- the Run of another Attempt, and the agreement with it, after the move
  other :
      (k : ℕ) (b : Attempt)
      → (k ≡ id → ⊥)
      → attempts k ≡ some b
      → (q : Run) × (runs' b.run_id ≡ some q) × Agrees q b
  other k b ne e =
      let (q, at, agrees) = inv.joined k b e in
      elim (Bool-cases (b.run_id == a.run_id)) [
        | inl same ↦
            let at_run : b.run_id ≡ a.run_id = ground arith in
            let is_r : q ≡ r = ground arith in
            let alone =
              λ (e' : b.attempt ≡ a.attempt). ne (inv.single k id b a e attempt_row at_run e') in
            (
              r',
              ground (arith, runs_after b.run_id),
              record {
                positive = agrees.positive;
                counted = ground arith;
                older = ground arith;
                current = λ last. absurd (alone (ground arith));
              },
            )
        | inr apart ↦ (q, ground (arith, runs_after b.run_id), agrees)
      ]

  joined :
      (k : ℕ) (b : Attempt)
      → attempts' k ≡ some b
      → (q : Run) × (runs' b.run_id ≡ some q) × Agrees q b
  joined k b e = elim (read_attempt k b e) [
    | inl moved ↦
        let (q, at, agrees) = inv.joined id a attempt_row in
        (
          r',
          ground (arith, runs_after b.run_id),
          record {
            positive = ground (arith, agrees.positive);
            counted = ground arith;
            older = ground arith;
            current = ground arith;
          },
        )
    | inr stayed ↦ other k b stayed.0 stayed.1
  ]

  single :
      (j k : ℕ) (b c : Attempt)
      → attempts' j ≡ some b
      → attempts' k ≡ some c
      → b.run_id ≡ c.run_id
      → b.attempt ≡ c.attempt
      → j ≡ k
  single j k b c eb ec e n = ground (
    arith,
    read_attempt j b eb,
    read_attempt k c ec,
    inv.single j k b c,
    inv.single id k a c attempt_row,
    inv.single j id b a,
  )

  pub moved-IsSound : IsSound runs' attempts'
  moved-IsSound = record {
    bounded = bounded;
    cautious = cautious;
    waiting = waiting;
    joined = joined;
    single = single;
  }

-- An unfinished Attempt is the current one of its Run, and their states match.
pub unfinished_current :
    (r : Run) (a : Attempt)
    → Agrees r a
    → is_finished a.status ≡ false
    → (a.attempt ≡ r.attempt_count) × (matched r.status a.status ≡ true)
unfinished_current r a agrees live =
    let last : a.attempt ≡ r.attempt_count = ground (arith, agrees.counted, agrees.older) in
    (last, agrees.current last)

-- Its Run, found through the tables.
pub unfinished_run :
    {runs : Table Run} {attempts : Table Attempt} (id : ℕ) (a : Attempt)
    → IsSound runs attempts
    → attempts id ≡ some a
    → is_finished a.status ≡ false
    → (r : Run) × (runs a.run_id ≡ some r)
      × (a.attempt ≡ r.attempt_count)
      × (matched r.status a.status ≡ true)
unfinished_run id a inv at live =
    let (r, row, agrees) = inv.joined id a at in
    let (last, together) = unfinished_current r a agrees live in (r, row, last, together)

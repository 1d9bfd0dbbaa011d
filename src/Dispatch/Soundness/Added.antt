-- ===== src/Dispatch/Soundness/Added.antt =====
-- A Run that gets its next Attempt, and a new Run, keep the invariant.
use crono.Prelude.{
  ℕ, ◌≤◌, ◌<◌, ◌≡◌, ◌⊎◌, inl, inr, true, false, none, some, arith, ◌==◌, Bool-cases,
}
use crono.Dispatch.Status.{is_finished, run_is_retry_wait}
use crono.Dispatch.Tables.{Run, Attempt, Table}
use crono.Dispatch.Soundness.{matched, Agrees, IsSound, Replaced}
use crono.Dispatch.Soundness.Core.{read-Replaced}

-- What the Run's row has to satisfy by itself.
pub record IsSoundRun (r : Run) : Type 0 where
  pub bounded : r.attempt_count ≤ r.max_attempts
  pub cautious : r.execution_snapshot.idempotent ≡ false → r.attempt_count ≤ 1
  pub waiting :
      run_is_retry_wait r.status ≡ true
      → (r.attempt_count < r.max_attempts) × (r.execution_snapshot.idempotent ≡ true)

module _ {runs runs' : Table Run} {attempts : Table Attempt} (inv : IsSound runs attempts) (id : ℕ)
    {r : Run} (fits : IsSoundRun r) (runs_after : Replaced runs runs' id r)
    -- the Attempts that the Run has already
    (settled : (k : ℕ) (b : Attempt)
      → attempts k ≡ some b
      → b.run_id ≡ id
      → (b.attempt < r.attempt_count) × (is_finished b.status ≡ true)) where
  read_run :
      (k : ℕ) (q : Run)
      → runs' k ≡ some q
      → ((k ≡ id) × (q ≡ r)) ⊎ ((k ≡ id → ⊥) × (runs k ≡ some q))
  read_run k q = read-Replaced runs runs' id k r q runs_after

  old_joined :
      (k : ℕ) (b : Attempt)
      → attempts k ≡ some b
      → (q : Run) × (runs' b.run_id ≡ some q) × Agrees q b
  old_joined k b e =
      let (q, at, agrees) = inv.joined k b e in
      elim (Bool-cases (b.run_id == id)) [
        | inl same ↦
            let (earlier, over) = settled k b e (ground arith) in
            (
              r,
              ground (arith, runs_after b.run_id),
              record {
                positive = agrees.positive;
                counted = omega arith;
                older = λ _. over;
                current = λ last. absurd (omega arith);
              },
            )
        | inr apart ↦ (q, ground (arith, runs_after b.run_id), agrees)
      ]

  -- without a new Attempt
  pub replaced-IsSound : IsSound runs' attempts
  replaced-IsSound = record {
    bounded = λ k q e. ground (arith, read_run k q e, inv.bounded k q, fits.bounded);
    cautious = λ k q e. ground (arith, read_run k q e, inv.cautious k q, fits.cautious);
    waiting = λ k q e. ground (arith, read_run k q e, inv.waiting k q, fits.waiting);
    joined = old_joined;
    single = inv.single;
  }

  module _ {attempts' : Table Attempt} (new : ℕ) (a : Attempt)
      (attempts_after : Replaced attempts attempts' new a) (absent : attempts new ≡ none)
      (owner : a.run_id ≡ id) (last : a.attempt ≡ r.attempt_count) (positive : 0 < a.attempt)
      (together : matched r.status a.status ≡ true) where
    read_attempt :
        (k : ℕ) (b : Attempt)
        → attempts' k ≡ some b
        → ((k ≡ new) × (b ≡ a)) ⊎ ((k ≡ new → ⊥) × (attempts k ≡ some b))
    read_attempt k b = read-Replaced attempts attempts' new k a b attempts_after

    joined :
        (k : ℕ) (b : Attempt)
        → attempts' k ≡ some b
        → (q : Run) × (runs' b.run_id ≡ some q) × Agrees q b
    joined k b e = elim (read_attempt k b e) [
      | inl added ↦ (
        r,
        ground (arith, runs_after b.run_id),
        record {
          positive = ground arith;
          counted = ground arith;
          older = ground arith;
          current = ground arith;
        },
      )
      | inr old ↦ old_joined k b old.1
    ]

    single :
        (j k : ℕ) (b c : Attempt)
        → attempts' j ≡ some b
        → attempts' k ≡ some c
        → b.run_id ≡ c.run_id
        → b.attempt ≡ c.attempt
        → j ≡ k
    single j k b c eb ec e n = ground (
      arith,
      read_attempt j b eb,
      read_attempt k c ec,
      inv.single j k b c,
      settled j b,
      settled k c,
    )

    pub added-IsSound : IsSound runs' attempts'
    added-IsSound = record {
      bounded = replaced-IsSound.bounded;
      cautious = replaced-IsSound.cautious;
      waiting = replaced-IsSound.waiting;
      joined = joined;
      single = single;
    }

-- ===== src/Dispatch/Soundness/Posted.antt =====
-- The outbox under an operation: an Attempt that moves, a row that is closed together with its
-- Attempt, a row that is claimed or given back, and a row that is added.
use crono.Prelude.{
  ℕ, ◌≡◌, sym, ap, ◌∙◌, ◌⊎◌, inl, inr, true, false, none, some, arith, ◌==◌, Bool-cases,
}
use crono.Dispatch.Status.{AttemptStatus}
use crono.Dispatch.Tables.{Attempt, Outbox, Table, is_none}
use crono.Dispatch.Soundness.{IsPosted, Replaced}
use crono.Dispatch.Soundness.Core.{read-Replaced}

-- what `IsPosted` says of one row
abbrev Announces : Table Attempt → Outbox → Type 0
Announces attempts o =
    (a : Attempt) × (attempts o.attempt_id ≡ some a)
    × (a.run_id ≡ o.run_id)
    × (is_none o.published_at ≡ true
        → is_none o.cancelled_at ≡ true
        → a.status ≡ AttemptStatus.pending_dispatch)

module _ {attempts attempts' : Table Attempt} {outbox : Table Outbox}
    (inv : IsPosted attempts outbox) (id : ℕ) (a a' : Attempt) (attempt_row : attempts id ≡ some a)
    (attempts_after : Replaced attempts attempts' id a') (same_run : a'.run_id ≡ a.run_id) where
  -- A row whose Attempt, if it is the one that moves, is not open.
  keeps_announcing :
      (k : ℕ) (o : Outbox)
      → outbox k ≡ some o
      → (o.attempt_id ≡ id
          → is_none o.published_at ≡ true
          → is_none o.cancelled_at ≡ true
          → a'.status ≡ AttemptStatus.pending_dispatch)
      → Announces attempts' o
  keeps_announcing k o e closed =
      let (b, at, owner, pending) = inv.announced k o e in
      elim (Bool-cases (o.attempt_id == id)) [
        | inl same ↦
            let is_id : o.attempt_id ≡ id = ground arith in
            let is_a : b ≡ a = ground arith in
            (a', ground (arith, attempts_after o.attempt_id), ground arith, closed is_id)
        | inr apart ↦ (b, ground (arith, attempts_after o.attempt_id), owner, pending)
      ]

  -- The Attempt was not waiting for publication.
  pub moved-IsPosted : (a.status ≡ AttemptStatus.pending_dispatch → ⊥) → IsPosted attempts' outbox
  moved-IsPosted busy = record {
    announced = λ k o e. keeps_announcing k o e λ same p c.
        let (b, at, owner, pending) = inv.announced k o e in absurd (busy (ground arith));
    single = inv.single;
    quiet = inv.quiet;
  }

  -- The row of the Attempt is closed in the same step.
  module _ {outbox' : Table Outbox} (key : ℕ) (o o' : Outbox) (row : outbox key ≡ some o)
      (outbox_after : Replaced outbox outbox' key o') (its : o.attempt_id ≡ id)
      (same_attempt : o'.attempt_id ≡ o.attempt_id) (same_owner : o'.run_id ≡ o.run_id)
      (nobody : o'.claimed_by ≡ none)
      (closed : is_none o'.published_at ≡ true → is_none o'.cancelled_at ≡ true → ⊥) where
    read_row :
        (k : ℕ) (p : Outbox)
        → outbox' k ≡ some p
        → ((k ≡ key) × (p ≡ o')) ⊎ ((k ≡ key → ⊥) × (outbox k ≡ some p))
    read_row k p = read-Replaced outbox outbox' key k o' p outbox_after

    closed_row : Announces attempts' o'
    closed_row =
        let (b, at, owner, pending) = inv.announced key o row in
        let is_a : b ≡ a = ground arith in
        (a', ground (arith, attempts_after o'.attempt_id), ground arith, λ p c. absurd (closed p c))

    announced : (k : ℕ) (p : Outbox) → outbox' k ≡ some p → Announces attempts' p
    announced k p e = elim (read_row k p e) [
      | inl it ↦ rw it.1 closed_row
      | inr old ↦
          keeps_announcing k p old.1
            λ same _ _. absurd (old.0 (inv.single k key p o old.1 row (ground arith)))
    ]

    single :
        (j k : ℕ) (p q : Outbox)
        → outbox' j ≡ some p
        → outbox' k ≡ some q
        → p.attempt_id ≡ q.attempt_id
        → j ≡ k
    single j k p q ep eq same = ground (
      arith,
      read_row j p ep,
      read_row k q eq,
      inv.single j k p q,
      inv.single j key p o,
      inv.single key k o q,
    )

    pub closed-IsPosted : IsPosted attempts' outbox'
    closed-IsPosted = record {
      announced = announced;
      single = single;
      quiet = λ k p e c. ground (arith, read_row k p e, inv.quiet k p);
    }

module _ {attempts : Table Attempt} {outbox outbox' : Table Outbox} (inv : IsPosted attempts outbox)
    (key : ℕ) (o o' : Outbox) (row : outbox key ≡ some o)
    (outbox_after : Replaced outbox outbox' key o') (same_attempt : o'.attempt_id ≡ o.attempt_id)
    (same_owner : o'.run_id ≡ o.run_id) (same_published : o'.published_at ≡ o.published_at)
    (same_cancelled : o'.cancelled_at ≡ o.cancelled_at)
    (quiet_after : is_none o.cancelled_at ≡ false → o'.claimed_by ≡ none) where
  read_claimed :
      (k : ℕ) (p : Outbox)
      → outbox' k ≡ some p
      → ((k ≡ key) × (p ≡ o')) ⊎ ((k ≡ key → ⊥) × (outbox k ≡ some p))
  read_claimed k p = read-Replaced outbox outbox' key k o' p outbox_after

  claimed_row : Announces attempts o'
  claimed_row =
      let (b, at, owner, pending) = inv.announced key o row in
      (
        b,
        ap attempts same_attempt ∙ at,
        owner ∙ sym same_owner,
        λ p c. pending (ap is_none (sym same_published) ∙ p) (ap is_none (sym same_cancelled) ∙ c),
      )

  -- A row that is claimed, or given back: nothing that it announces changes.
  pub claimed-IsPosted : IsPosted attempts outbox'
  claimed-IsPosted = record {
    announced = λ k p e. elim (read_claimed k p e) [
      | inl it ↦ rw it.1 claimed_row
      | inr old ↦ inv.announced k p old.1
    ];
    single = λ j k p q ep eq same. ground (
      arith,
      read_claimed j p ep,
      read_claimed k q eq,
      inv.single j k p q,
      inv.single j key p o,
      inv.single key k o q,
    );
    quiet = λ k p e c. ground (arith, read_claimed k p e, inv.quiet k p);
  }

module _ {attempts attempts' : Table Attempt} {outbox outbox' : Table Outbox}
    (inv : IsPosted attempts outbox) (id key : ℕ) (a : Attempt) (o : Outbox)
    (attempts_after : Replaced attempts attempts' id a)
    (outbox_after : Replaced outbox outbox' key o) (no_attempt : attempts id ≡ none)
    (its : o.attempt_id ≡ id) (owner : a.run_id ≡ o.run_id)
    (pending : a.status ≡ AttemptStatus.pending_dispatch) (nobody : o.claimed_by ≡ none) where
  read_added :
      (k : ℕ) (p : Outbox)
      → outbox' k ≡ some p
      → ((k ≡ key) × (p ≡ o)) ⊎ ((k ≡ key → ⊥) × (outbox k ≡ some p))
  read_added k p = read-Replaced outbox outbox' key k o p outbox_after

  -- no row announces an Attempt that is not there
  not_announced : (k : ℕ) (p : Outbox) → outbox k ≡ some p → p.attempt_id ≡ id → ⊥
  not_announced k p e same = let (b, at, _, _) = inv.announced k p e in cc (ap attempts same)

  old_announced : (k : ℕ) (p : Outbox) → outbox k ≡ some p → Announces attempts' p
  old_announced k p e =
      let (b, at, its_run, waits) = inv.announced k p e in
      let apart = not_announced k p e in
      (b, ground (arith, attempts_after p.attempt_id), its_run, waits)

  pub added-IsPosted : IsPosted attempts' outbox'
  added-IsPosted = record {
    announced = λ k p e. elim (read_added k p e) [
      | inl it ↦ rw it.1 (a, ground (arith, attempts_after o.attempt_id), owner, λ _ _. pending)
      | inr old ↦ old_announced k p old.1
    ];
    single = λ j k p q ep eq same. ground (
      arith,
      read_added j p ep,
      read_added k q eq,
      inv.single j k p q,
      not_announced j p,
      not_announced k q,
    );
    quiet = λ k p e c. ground (arith, read_added k p e, inv.quiet k p);
  }

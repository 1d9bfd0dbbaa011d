-- ===== src/Dispatch/Soundness/Deadlines.antt =====
-- The pass over the outbox rows whose deadline is over, and the whole of `reconcile`.
use crono.Prelude.{
  ℕ, ◌≡◌, refl, ap, sym, ◌∙◌, inl, inr, true, ◌&&◌, Option, none, some, arith, Bool-cases,
  Option-cases, ok, ok-inj, >>=-ok, List, Pairwise,
}
use crono.Dispatch.Status.{RunStatus, AttemptStatus, run_is_pending, attempt_is_pending}
use crono.Dispatch.Tables.{Run, Attempt, Outbox, Store, update_where, is_none, select_rows}
use crono.Dispatch.Create.{insert_run_event}
use crono.Dispatch.Reconcile.{
  DispatchRow, deadline_expired, is_overdue, expire_dispatch, pick_overdue,
  reconcile_expired_dispatches, release_claims, Scans, reconcile, reconcile_due_retries,
  reconcile_expired_leases,
}
use crono.Dispatch.Soundness.{IsConsistent, Replaced}
use crono.Dispatch.Soundness.Rows.{update_where_hit}
use crono.Dispatch.Soundness.Core.{unfinished_run, moved-IsSound}
use crono.Dispatch.Soundness.Posted.{closed-IsPosted}
use crono.Dispatch.Soundness.Passes.{select_rows-All, select_rows-Pairwise, for_each-keeps}
use crono.Dispatch.Soundness.Repair.{OtherKey, reconcile_due_retries-IsConsistent}
use crono.Dispatch.Soundness.LeasePass.{reconcile_expired_leases-IsConsistent}

-- A row that is not published and not cancelled, as `pick_overdue` reads it.
pub record IsOpenRow (s : Store) (row : DispatchRow) (o : Outbox) : Type 0 where
  pub at : s.outbox row.outbox_id ≡ some o
  pub waits : is_none o.published_at && is_none o.cancelled_at ≡ true
  pub run : o.run_id ≡ row.run_id
  pub attempt : o.attempt_id ≡ row.attempt_id

abbrev IsDispatchRow : Store → DispatchRow → Type 0
IsDispatchRow s row = (o : Outbox) × IsOpenRow s row o

abbrev OtherRow : DispatchRow → DispatchRow → Type 0
OtherRow row other = row.outbox_id ≡ other.outbox_id → ⊥

abbrev cancelled_row : ℕ → Outbox → Outbox
cancelled_row now o = record o {
  cancelled_at = some now;
  claimed_by = none;
  claim_expires_at = none;
  last_error = some deadline_expired;
}

expire_dispatch-IsConsistent :
    (now : ℕ) (row : DispatchRow) (s : Store)
    → IsConsistent s
    → IsDispatchRow s row
    → IsConsistent (expire_dispatch now row s)
      × ((other : DispatchRow)
          → OtherRow row other
          → IsDispatchRow s other
          → IsDispatchRow (expire_dispatch now row s) other)
unfolding expire_dispatch insert_run_event
expire_dispatch-IsConsistent now row s inv (o, it) =
    let (a, at, its_run, waits) = inv.posted.announced row.outbox_id o it.at in
    let pending : a.status ≡ AttemptStatus.pending_dispatch =
      waits (ground (arith, it.waits)) (ground (arith, it.waits)) in
    let at' : s.attempts row.attempt_id ≡ some a = ap s.attempts (sym it.attempt) ∙ at in
    let owner : a.run_id ≡ row.run_id = its_run ∙ it.run in
    let (r, run_row, last, together) =
      unfinished_run row.attempt_id a inv.sound at' (ground arith) in
    let run_row' : s.runs row.run_id ≡ some r = ap s.runs (sym owner) ∙ run_row in
    let dead = λ (b : Attempt). record b {
      status = AttemptStatus.dead;
      completed_at = some now;
      error = some deadline_expired;
    } in
    let skip = λ (q : Run). record q {
      status = RunStatus.skipped;
      completed_at = some now;
      terminal_reason = some deadline_expired;
    } in
    let outbox_after =
      update_where_hit s.outbox row.outbox_id
        (λ p. is_none p.published_at && is_none p.cancelled_at) (cancelled_row now) o it.at
        it.waits in
    let attempts_after =
      update_where_hit s.attempts row.attempt_id (λ b. attempt_is_pending b.status) dead a at'
        (ground arith) in
    let hit =
      update_where_hit s.runs row.run_id (λ q. run_is_pending q.status) skip r run_row'
        (ground arith) in
    let runs_after : Replaced s.runs
        (update_where s.runs row.run_id (λ q. run_is_pending q.status) skip) a.run_id (skip r) =
      λ j. ground (arith, hit j, owner) in
    (
      record {
        sound =
            moved-IsSound inv.sound row.attempt_id {r = r} {r' = skip r} run_row at' runs_after
              attempts_after (record { count = refl; most = refl; snapshot = refl })
              (record { run = refl; number = refl }) last refl (λ e. cc);
        posted =
            closed-IsPosted inv.posted row.attempt_id a (dead a) at' attempts_after refl
              row.outbox_id o (cancelled_row now o) it.at outbox_after it.attempt refl refl refl
              (λ p c. cc);
      },
      λ other apart (p, it'). (
        p,
        record {
          at = ground (arith, outbox_after other.outbox_id, it'.at);
          waits = it'.waits;
          run = it'.run;
          attempt = it'.attempt;
        },
      ),
    )

pick_overdue-IsDispatchRow :
    (now : ℕ) (s : Store) (key : ℕ) (row : DispatchRow)
    → pick_overdue now s key ≡ some row
    → IsDispatchRow s row × (row.outbox_id ≡ key)
unfolding pick_overdue
pick_overdue-IsDispatchRow now s key row h = elim (Option-cases (s.outbox key)) [
  | inl absent ↦ absurd (cc (rw (absent, pick_overdue) at h))
  | inr (o, at) ↦ elim (Bool-cases (is_overdue now o)) [
    | inl over ↦
        let found : DispatchRow = record {
          outbox_id = key;
          run_id = o.run_id;
          attempt_id = o.attempt_id;
        } in
        let same : ◌≡◌ {A = Option DispatchRow} (some found) (some row) =
          rw (at, over, pick_overdue) at h in
        let it : found ≡ row = cc in
        rw (← it) ((o, record { at = at; waits = ground arith; run = refl; attempt = refl }), refl)
    | inr early ↦ absurd (cc (rw (at, early, pick_overdue) at h))
  ]
]

abbrev pub Differ : ℕ → ℕ → Type 0
Differ j k = j ≡ k → ⊥

-- The pass over the dispatches whose deadline is over keeps the tables consistent. The scan has a
-- row once.
pub reconcile_expired_dispatches-IsConsistent :
    (now limit : ℕ) (scan : List ℕ) (s t : Store)
    → Pairwise Differ scan
    → IsConsistent s
    → reconcile_expired_dispatches now limit scan s ≡ ok t
    → IsConsistent t
unfolding reconcile_expired_dispatches
reconcile_expired_dispatches-IsConsistent now limit scan s t once inv h =
    let good = pick_overdue-IsDispatchRow now s in
    for_each-keeps (λ row m. ok (expire_dispatch now row m)) IsConsistent IsDispatchRow OtherRow
      (λ row m n inv' valid e. rw (← ok-inj e) (expire_dispatch-IsConsistent now row m inv' valid))
      (select_rows limit (pick_overdue now s) scan) s t inv
      (select_rows-All (pick_overdue now s) (IsDispatchRow s) (λ key row e. (good key row e).0)
        limit scan)
      (select_rows-Pairwise (pick_overdue now s) Differ OtherRow
        (λ j k x y apart ex ey same. apart (sym (good j x ex).1 ∙ same ∙ (good k y ey).1)) limit
        scan once)
      h

-- A row of which only the claim changes.
released :
    (now key : ℕ) (s : Store) (p : Outbox)
    → (release_claims now s).outbox key ≡ some p
    → (o : Outbox) × (s.outbox key ≡ some o)
      × (p.attempt_id ≡ o.attempt_id)
      × (p.run_id ≡ o.run_id)
      × (p.published_at ≡ o.published_at)
      × (p.cancelled_at ≡ o.cancelled_at)
      × (o.claimed_by ≡ none → p.claimed_by ≡ none)
unfolding release_claims
released now key s p e = ground arith

release_claims-IsConsistent :
    (now : ℕ) (s : Store) → IsConsistent s → IsConsistent (release_claims now s)
unfolding release_claims
release_claims-IsConsistent now s inv = record {
  sound = inv.sound;
  posted = record {
    announced = λ k p e.
        let (o, at, attempt, run, published, cancelled, nobody) = released now k s p e in
        let (a, its, owner, waits) = inv.posted.announced k o at in
        (
          a,
          ap s.attempts attempt ∙ its,
          owner ∙ sym run,
          λ u c. waits (ap is_none (sym published) ∙ u) (ap is_none (sym cancelled) ∙ c),
        );
    single = λ j k p q ep eq same.
        let (o, at, attempt, _, _, _, _) = released now j s p ep in
        let (o', at', attempt', _, _, _, _) = released now k s q eq in
        inv.posted.single j k o o' at at' (sym attempt ∙ same ∙ attempt');
    quiet = λ k p e c.
        let (o, at, _, _, _, cancelled, nobody) = released now k s p e in
        nobody (inv.posted.quiet k o at (ap is_none (sym cancelled) ∙ c));
  };
}

-- a scan has a row once
pub record IsScan (scans : Scans) : Type 0 where
  pub dispatches : Pairwise Differ scans.dispatches
  pub retries : Pairwise OtherKey scans.retries
  pub leases : Pairwise OtherKey scans.leases

-- The repair of expired state keeps the tables consistent, where each scan has a row once.
pub reconcile-IsConsistent :
    (now limit : ℕ) (scans : Scans) (s t : Store)
    → IsScan scans
    → IsConsistent s
    → reconcile now limit scans s ≡ ok t
    → IsConsistent t
unfolding reconcile
reconcile-IsConsistent now limit scans s t once inv h =
    let (s₁, first, h₁) = >>=-ok (reconcile_expired_dispatches now limit scans.dispatches s) _ h in
    let (s₂, then', h₂) = >>=-ok (reconcile_due_retries now limit scans.retries s₁) _ h₁ in
    let (s₃, last, h₃) = >>=-ok (reconcile_expired_leases now limit scans.leases s₂) _ h₂ in
    let inv₁ =
      reconcile_expired_dispatches-IsConsistent now limit scans.dispatches s s₁ once.dispatches inv
        first in
    let inv₂ =
      reconcile_due_retries-IsConsistent now limit scans.retries s₁ s₂ once.retries inv₁ then' in
    let inv₃ =
      reconcile_expired_leases-IsConsistent now limit scans.leases s₂ s₃ once.leases inv₂ last in
    rw (← ok-inj h₃) (release_claims-IsConsistent now s₃ inv₃)

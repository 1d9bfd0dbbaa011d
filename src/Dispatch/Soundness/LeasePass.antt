-- ===== src/Dispatch/Soundness/LeasePass.antt =====
-- The selection of the leases that have run out, and the whole pass.
use crono.Prelude.{
  ℕ, ◌≡◌, refl, ap, sym, ◌∙◌, inl, inr, Option, some, arith, Bool-cases, Option-cases, ok, List,
  Pairwise,
}
use crono.Dispatch.Tables.{Run, Attempt, Store, select_rows}
use crono.Dispatch.Create.{Fresh}
use crono.Dispatch.Reconcile.{
  LeaseRow, lease_row, lease_is_over, expire_lease, pick_joined, pick_expired,
  reconcile_expired_leases,
}
use crono.Dispatch.Soundness.{IsConsistent}
use crono.Dispatch.Soundness.Core.{unfinished_run}
use crono.Dispatch.Soundness.Passes.{select_rows-All, select_rows-Pairwise, for_each-keeps}
use crono.Dispatch.Soundness.Repair.{OtherKey}
use crono.Dispatch.Soundness.Leases.{IsLeaseRow, OtherLease, expire_lease-IsConsistent}

pick_joined-IsLeaseRow :
    (now key : ℕ) (fresh : Fresh) (s : Store) (a : Attempt) (row : LeaseRow)
    → s.attempts key ≡ some a
    → pick_joined now key fresh a (s.runs a.run_id) ≡ some row
    → IsLeaseRow s row × (row.attempt_id ≡ key)
unfolding pick_joined
pick_joined-IsLeaseRow now key fresh s a row at h = elim (Option-cases (s.runs a.run_id)) [
  | inl absent ↦ absurd (cc (rw (absent, pick_joined) at h))
  | inr (r, run_row) ↦ elim (Bool-cases (lease_is_over now a)) [
    | inl over ↦
        let same : ◌≡◌ {A = Option LeaseRow} (some (lease_row key fresh a r)) (some row) =
          rw (run_row, over, pick_joined) at h in
        let it : lease_row key fresh a r ≡ row = cc in
        rw (← it) (
          (
            a,
            r,
            record {
              at = at;
              its = refl;
              busy = ground arith;
              run_row = run_row;
              count = refl;
              repeatable = refl;
              most = refl;
            },
          ),
          refl,
        )
    | inr lasts ↦ absurd (cc (rw (run_row, lasts, pick_joined) at h))
  ]
]

pick_expired-IsLeaseRow :
    (now : ℕ) (s : Store) (key : ℕ × Fresh) (row : LeaseRow)
    → pick_expired now s key ≡ some row
    → IsLeaseRow s row × (row.attempt_id ≡ key.0)
unfolding pick_expired
pick_expired-IsLeaseRow now s (key, fresh) row h = elim (Option-cases (s.attempts key)) [
  | inl absent ↦ absurd (cc (rw (absent, pick_expired) at h))
  | inr (a, at) ↦ pick_joined-IsLeaseRow now key fresh s a row at (rw (at, pick_expired) at h)
]

-- Two Attempts of one Run do not run at once.
leases_apart :
    (s : Store) (x y : LeaseRow)
    → IsConsistent s
    → IsLeaseRow s x
    → IsLeaseRow s y
    → x.retry.run_id ≡ y.retry.run_id
    → x.attempt_id ≡ y.attempt_id
leases_apart s x y inv (a, r, held) (b, q, held') same =
    let (r', at, last, _) =
      unfinished_run x.attempt_id a inv.sound held.at (ground (arith, held.busy)) in
    let (q', at', last', _) =
      unfinished_run y.attempt_id b inv.sound held'.at (ground (arith, held'.busy)) in
    let one_run : a.run_id ≡ b.run_id = held.its ∙ same ∙ sym held'.its in
    let one : r' ≡ q' = cc (ap s.runs one_run) in
    inv.sound.single x.attempt_id y.attempt_id a b held.at held'.at one_run
      (last ∙ ap (λ (z : Run). z.attempt_count) one ∙ sym last')

-- The pass over the leases that have run out keeps the tables consistent. The scan has an Attempt
-- once.
pub reconcile_expired_leases-IsConsistent :
    (now limit : ℕ) (scan : List (ℕ × Fresh)) (s t : Store)
    → Pairwise OtherKey scan
    → IsConsistent s
    → reconcile_expired_leases now limit scan s ≡ ok t
    → IsConsistent t
unfolding reconcile_expired_leases
reconcile_expired_leases-IsConsistent now limit scan s t once inv h =
    let good = pick_expired-IsLeaseRow now s in
    for_each-keeps (expire_lease now) IsConsistent IsLeaseRow OtherLease
      (expire_lease-IsConsistent now) (select_rows limit (pick_expired now s) scan) s t inv
      (select_rows-All (pick_expired now s) (IsLeaseRow s) (λ key row e. (good key row e).0) limit
        scan)
      (select_rows-Pairwise (pick_expired now s) OtherKey OtherLease
        (λ j k x y apart ex ey.
          let differ : x.attempt_id ≡ y.attempt_id → ⊥ =
            λ same. apart (sym (good j x ex).1 ∙ same ∙ (good k y ey).1) in
          (differ, λ same. differ (leases_apart s x y inv (good j x ex).0 (good k y ey).0 same)))
        limit scan once)
      h

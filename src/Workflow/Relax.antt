-- ===== src/Workflow/Relax.antt =====
-- The inner loop of the search: what it does to the counts and to the queue.
use Prim.Native.String.{String}
use text.Mathlib.Text.{◌==◌ as str_eq}
use text.Mathlib.TextEquality.{eq_iff}
use text.Mathlib.TextPositions.{eq_refl}
use crono.Prelude.{
  ℕ, ◌+◌, ◌-◌, ◌≤◌, ◌≡◌, refl, sym, ap, ◌∙◌, inl, inr, true, ◌&&◌, List, [], ◌∷◌, ltb, ◌==◌,
  if◌then◌else◌, arith, Bool-cases, All,
}
use crono.Workflow.Graph.{member, Search, lower, relax}
use crono.Workflow.Counting.{occ, one_if, occ-append, str_eq-sym}

-- The counts fall by the occurrences, and those that reach 0 are queued once.
pub record Relaxed (downstream : List String) (s t : Search) : Type 0 where
  pub counts : (v : String) → t.count v + occ v downstream ≡ s.count v
  pub queued :
      (v : String)
      → occ v t.ready
        ≡ occ v s.ready + one_if (ltb 0 (occ v downstream) && s.count v == occ v downstream)

-- one name is lowered: `k` is its count, `m` its occurrences in the rest
queue_arith :
    (k m ready : ℕ)
    → 1 + m ≤ k
    → (ready + one_if (k - 1 == 0)) + one_if (ltb 0 m && k - 1 == m)
      ≡ ready + one_if (ltb 0 (1 + m) && k == 1 + m)
queue_arith k m ready h = ground arith

lower-ready :
    (names : List String) (d v : String) (s : Search)
    → member d names ≡ true
    → occ v (lower names d s).ready ≡ occ v s.ready + one_if (str_eq d v && s.count d - 1 == 0)
unfolding occ
lower-ready names d v s known = ground (arith, occ-append v s.ready (d ∷ []))

lower-count :
    (names : List String) (d v : String) (s : Search)
    → member d names ≡ true
    → (lower names d s).count v ≡ (if str_eq v d then s.count d - 1 else s.count v)
lower-count names d v s known = rw known refl

-- The step of the induction, for one name `v`.
queued-step :
    (names : List String) (d v : String) (ds : List String) (s t : Search)
    → member d names ≡ true
    → 1 + occ d ds ≤ s.count d
    → occ v t.ready
      ≡ occ v (lower names d s).ready
        + one_if (ltb 0 (occ v ds) && (lower names d s).count v == occ v ds)
    → occ v t.ready ≡ occ v s.ready + one_if (ltb 0 (occ v (d ∷ ds)) && s.count v == occ v (d ∷ ds))
unfolding occ
queued-step names d v ds s t known positive ih =
    let first = lower-ready names d v s known in
    let after = lower-count names d v s known in
    elim (Bool-cases (str_eq d v)) [
      | inl same ↦
          let one : d ≡ v = (eq_iff d v).0 same in
          let counts : s.count d ≡ s.count v = ap s.count one in
          let many : occ d ds ≡ occ v ds = ap (λ n. occ n ds) one in
          let turned = sym (str_eq-sym d v) ∙ same in
          let sums = queue_arith (s.count v) (occ v ds) (occ v s.ready) in ground arith
      | inr other ↦ let turned = sym (str_eq-sym d v) ∙ other in ground arith
    ]

pub relax-Relaxed :
    (names downstream : List String) (s : Search)
    → All (λ d. member d names ≡ true) downstream
    → ((v : String) → occ v downstream ≤ s.count v)
    → Relaxed downstream s (relax names downstream s)
unfolding occ relax
relax-Relaxed names [] s known enough = record {
  counts = λ v. omega arith;
  queued = λ v. omega arith;
}
relax-Relaxed names (d ∷ ds) s known enough =
    let s₁ = lower names d s in
    let positive : 1 + occ d ds ≤ s.count d = ground (arith, enough d, eq_refl d) in
    let ih = relax-Relaxed names ds s₁ known.1 (λ v.
      ground (arith, enough v, lower-count names d v s known.0, str_eq-sym d v, eq_iff v d)) in
    record {
      counts = λ v.
          ground (arith, ih.counts v, lower-count names d v s known.0, str_eq-sym d v, eq_iff v d);
      queued =
          λ v. queued-step names d v ds s (relax names (d ∷ ds) s) known.0 positive (ih.queued v);
    }

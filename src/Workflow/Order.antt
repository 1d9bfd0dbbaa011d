-- ===== src/Workflow/Order.antt =====
-- What a finished search says of the graph: an order of the nodes along the edges.
use Prim.Native.String.{String}
use text.Mathlib.Text.{◌==◌ as str_eq}
use text.Mathlib.TextEquality.{eq_iff}
use crono.Prelude.{
  ℕ, zero, suc, ◌≤◌, ◌<◌, ◌≡◌, refl, ap, inl, inr, true, false, ◌&&◌, not, List, [], ◌∷◌, length,
  ◌==◌, if◌then◌else◌, arith, Bool-cases, All, All-at, All-of, Memᴰ,
}
use crono.Workflow.Graph.{WorkflowEdge, member, is_proper, roots}
use crono.Workflow.Counting.{occ, occ-same, member-occ, str_eq-sym, length-le_of_occ}
use crono.Workflow.Build.{IsUnique}
use crono.Workflow.Edges.{open_edges, IsProper}
use crono.Workflow.Kahn.{Entered, Ordered, Entered-open_edges, Inv, Inv-bound}

-- the place of a node in the order of the visits, 0 for one that is not visited
unfoldable pub rank : List String → String → ℕ
rank [] v = 0
rank (u ∷ done) v =
    if member v done then rank done v else if str_eq u v then suc (length done) else 0

abbrev pub IsRanked : (String → ℕ) → List WorkflowEdge → Type 0
IsRanked place = All (λ e. place e.from < place e.to)

rank-le : (done : List String) (v : String) → rank done v ≤ length done
unfolding rank
rank-le [] v = omega arith
rank-le (u ∷ done) v = ground (arith, rank-le done v)

Entered-at :
    (edges : List WorkflowEdge) (done : List String) (e : WorkflowEdge) (u : String)
    → Memᴰ e edges
    → Entered edges done u
    → str_eq u e.to ≡ true
    → member e.from done ≡ true
Entered-at edges done e u m h same =
    let at = All-at (λ e. (str_eq e.to u && not (member e.from done)) ≡ false) e edges h m in
    ground (arith, str_eq-sym u e.to)

rank-step :
    (edges : List WorkflowEdge) (done : List String) (e : WorkflowEdge)
    → Memᴰ e edges
    → Ordered edges done
    → member e.to done ≡ true
    → (member e.from done ≡ true) × (rank done e.from < rank done e.to)
unfolding rank
rank-step edges [] e m order h = absurd (ground arith)
rank-step edges (u ∷ done) e m order h = elim (Bool-cases (member e.to done)) [
  | inl old ↦ let ih = rank-step edges done e m order.1 old in ground arith
  | inr new ↦
      let same : str_eq u e.to ≡ true = ground (arith, str_eq-sym u e.to) in
      let before = Entered-at edges done e u m order.0 same in ground (arith, rank-le done e.from)
]

roots-occ :
    (count : String → ℕ) (names : List String) (v : String)
    → occ v (roots count names) ≡ (if count v == 0 then occ v names else 0)
unfolding occ roots
roots-occ count [] v = ground arith
roots-occ count (n ∷ names) v = elim (Bool-cases (str_eq n v)) [
  | inl same ↦
      let counts : count n ≡ count v = ap count ((eq_iff n v).0 same) in
      ground (arith, roots-occ count names v)
  | inr other ↦ ground (arith, roots-occ count names v)
]

pub roots-Inv :
    (names : List String) (edges : List WorkflowEdge) (count : String → ℕ)
    → IsUnique names
    → ((v : String) → count v ≡ open_edges [] edges v)
    → Inv names edges [] (roots count names) count
unfolding occ
roots-Inv names edges count unique counts = record {
  counts = counts;
  once = λ v. ground (arith, roots-occ count names v, unique v, member-occ v names);
  ordered = tt;
}

-- a node that a ranking of the edges places at `v`, and all that come before it, are visited
module _ (names : List String) (edges : List WorkflowEdge) (done : List String) (count : String → ℕ)
    (inv : Inv names edges done [] count) (proper : IsProper names edges) where
  reached-step :
      (place : String → ℕ) (v : String)
      → IsRanked place edges
      → ((u : String) → place u < place v → member u names ≡ true → member u done ≡ true)
      → Entered edges done v
  reached-step place v ranked ih = All-of _ edges (λ e m.
      let up = All-at (λ e. place e.from < place e.to) e edges ranked m in
      let ends = All-at (λ e. is_proper names e ≡ true) e edges proper m in
      elim (Bool-cases (str_eq e.to v)) [
        | inr other ↦ rw other refl
        | inl same ↦
            let one : place e.to ≡ place v = ap place ((eq_iff e.to v).0 same) in
            let from = ih e.from (omega arith) (ground arith) in rw (same, from) refl
      ])

  reached :
      (fuel : ℕ) (place : String → ℕ) (v : String)
      → place v < fuel
      → IsRanked place edges
      → member v names ≡ true
      → member v done ≡ true
  unfolding occ
  reached zero place v below ranked known = absurd (omega arith)
  reached (suc fuel) place v below ranked known =
      let entered =
        reached-step place v ranked
          (λ u less listed. reached fuel place u (omega arith) ranked listed) in
      let closed = Entered-open_edges done edges v entered in
      ground (arith, inv.counts v, inv.once v, member-occ v done)

  -- all nodes are visited when the edges can be ranked
  pub all_visited :
      (place : String → ℕ) → IsUnique names → IsRanked place edges → length done ≡ length names
  all_visited place unique ranked =
      let above = length-le_of_occ names done (λ v. ground (
        arith,
        unique v,
        reached (suc (place v)) place v (omega arith) ranked,
        member-occ v names,
        member-occ v done,
      )) in
      let below = Inv-bound names edges proper done [] count inv in omega arith

  -- and when all nodes are visited, the visits rank them
  every_member :
      length done ≡ length names → (v : String) → member v names ≡ true → member v done ≡ true
  unfolding occ
  every_member long v known = elim (Bool-cases (member v done)) [
    | inl found ↦ found
    | inr missing ↦
        let more = length-le_of_occ (v ∷ done) names (λ u. elim (Bool-cases (str_eq v u)) [
          | inl same ↦
              let one = occ-same v u done same in
              let ones = occ-same v u names same in
              ground (arith, member-occ v done, member-occ v names)
          | inr other ↦ ground (arith, inv.once u, member-occ u names)
        ]) in
        absurd (omega arith)
  ]

  pub rank-IsRanked : length done ≡ length names → IsRanked (rank done) edges
  rank-IsRanked long = All-of _ edges (λ e m.
      let ends = All-at (λ e. is_proper names e ≡ true) e edges proper m in
      (rank-step edges done e m inv.ordered (every_member long e.to (ground arith))).1)

-- ===== src/Workflow/Kahn.antt =====
-- The search: its invariant, and that it ends.
use Prim.Native.String.{String}
use text.Mathlib.Text.{◌==◌ as str_eq}
use text.Mathlib.TextEquality.{eq_iff}
use text.Mathlib.TextPositions.{eq_refl}
use crono.Prelude.{
  ℕ, zero, suc, ◌+◌, ◌≤◌, ◌<◌, ◌≡◌, refl, sym, ap, ◌∙◌, inl, inr, true, false, ◌&&◌, not, List, [],
  ◌∷◌, length, ltb, ◌==◌, arith, Bool, Bool-cases, All, Option, some,
}
use crono.Workflow.Graph.{WorkflowEdge, member, Search, relax, visit}
use crono.Workflow.Counting.{occ, one_if, member-occ, str_eq-sym, length-le_of_occ}
use crono.Workflow.Edges.{targets, open_edges, IsProper}
use crono.Workflow.Relax.{Relaxed, relax-Relaxed}

-- every edge into `v` comes from a node that is done
abbrev pub Entered : List WorkflowEdge → List String → String → Type 0
Entered edges done v = All (λ e. (str_eq e.to v && not (member e.from done)) ≡ false) edges

-- the newest first: a node is done after all that come before it
abbrev pub Ordered : List WorkflowEdge → List String → Type 0
Ordered edges [] = Unit
Ordered edges (u ∷ done) = Entered edges done u × Ordered edges done

pub open_edges-Entered :
    (done : List String) (edges : List WorkflowEdge) (v : String)
    → open_edges done edges v ≡ 0
    → Entered edges done v
unfolding open_edges
open_edges-Entered done [] v h = tt
open_edges-Entered done (e ∷ es) v h = (ground arith, open_edges-Entered done es v (ground arith))

pub Entered-open_edges :
    (done : List String) (edges : List WorkflowEdge) (v : String)
    → Entered edges done v
    → open_edges done edges v ≡ 0
unfolding open_edges
Entered-open_edges done [] v h = refl
Entered-open_edges done (e ∷ es) v h = ground (arith, Entered-open_edges done es v h.1)

-- a node that becomes done closes its outgoing edges
open_edges-step :
    (u v : String) (done : List String) (edges : List WorkflowEdge)
    → member u done ≡ false
    → open_edges done edges v ≡ occ v (targets u edges) + open_edges (u ∷ done) edges v
unfolding open_edges targets occ
open_edges-step u v done [] new = refl
open_edges-step u v done (e ∷ es) new = elim (Bool-cases (str_eq e.from u)) [
  | inl same ↦
      let gone : member e.from done ≡ false =
        ap (λ n. member n done) ((eq_iff e.from u).0 same) ∙ new in
      let turned = sym (str_eq-sym e.from u) ∙ same in
      ground (arith, open_edges-step u v done es new)
  | inr other ↦
      let turned = sym (str_eq-sym e.from u) ∙ other in
      ground (arith, open_edges-step u v done es new)
]

targets-known :
    (names : List String) (edges : List WorkflowEdge) (u : String)
    → IsProper names edges
    → All (λ d. member d names ≡ true) (targets u edges)
unfolding targets
targets-known names [] u proper = tt
targets-known names (e ∷ es) u proper =
    let known : member e.to names ≡ true = ground (arith, proper.0) in
    elim (Bool-cases (str_eq e.from u)) [
      | inl same ↦ rw same (known, targets-known names es u proper.1)
      | inr other ↦ rw other (targets-known names es u proper.1)
    ]

occ-known :
    (names ds : List String) (v : String)
    → All (λ d. member d names ≡ true) ds
    → 0 < occ v ds
    → member v names ≡ true
unfolding occ
occ-known names [] v known h = absurd (omega arith)
occ-known names (d ∷ ds) v known h = elim (Bool-cases (str_eq d v)) [
  | inl same ↦ ap (λ n. member n names) (sym ((eq_iff d v).0 same)) ∙ known.0
  | inr other ↦ occ-known names ds v known.1 (ground arith)
]

-- Done nodes, queued nodes and counts.
pub record Inv (names : List String) (edges : List WorkflowEdge) (done ready : List String)
    (count : String → ℕ) : Type 0 where
  pub counts : (v : String) → count v ≡ open_edges done edges v
  pub once : (v : String) → occ v done + occ v ready ≡ one_if (member v names && count v == 0)
  pub ordered : Ordered edges done

once_arith :
    (known : Bool) (before after many : ℕ)
    → (0 < many → known ≡ true)
    → after + many ≡ before
    → one_if (known && before == 0) + one_if (ltb 0 many && before == many)
      ≡ one_if (known && after == 0)
once_arith known before after zero listed falls = ground arith
once_arith known before after (suc many) listed falls =
    let yes = listed (omega arith) in ground arith

module _ (names : List String) (edges : List WorkflowEdge) (proper : IsProper names edges) where
  pub Inv-bound :
      (done ready : List String) (count : String → ℕ)
      → Inv names edges done ready count
      → length done ≤ length names
  Inv-bound done ready count inv =
      length-le_of_occ done names (λ v. ground (arith, inv.once v, member-occ v names))

  popped :
      (u : String) (done ready : List String) (count : String → ℕ)
      → Inv names edges done (u ∷ ready) count
      → (member u done ≡ false) × (count u ≡ 0)
  unfolding occ
  popped u done ready count inv = ground (arith, inv.once u, member-occ u done, eq_refl u)

  once-step :
      (u v : String) (done ready : List String) (count : String → ℕ) (t : Search)
      → Inv names edges done (u ∷ ready) count
      → Relaxed (targets u edges) (record { count = count; ready = ready }) t
      → occ v (u ∷ done) + occ v t.ready ≡ one_if (member v names && t.count v == 0)
  unfolding occ
  once-step u v done ready count t inv relaxed =
      let known = occ-known names (targets u edges) v (targets-known names edges u proper) in
      let sums =
        once_arith (member v names) (count v) (t.count v) (occ v (targets u edges)) known
          (relaxed.counts v) in
      omega (arith, inv.once v, relaxed.queued v, sums)

  pub Inv-step :
      (u : String) (done ready : List String) (count : String → ℕ) (t : Search)
      → Inv names edges done (u ∷ ready) count
      → t ≡ relax names (targets u edges) (record { count = count; ready = ready })
      → Inv names edges (u ∷ done) t.ready t.count
  Inv-step u done ready count t inv same =
      let (new, closed) = popped u done ready count inv in
      let falls : (v : String)
          → open_edges done edges v ≡ occ v (targets u edges) + open_edges (u ∷ done) edges v =
        λ v. open_edges-step u v done edges new in
      let relaxed : Relaxed (targets u edges) (record { count = count; ready = ready }) t =
        rw same (
          relax-Relaxed names (targets u edges) (record { count = count; ready = ready })
            (targets-known names edges u proper) (λ v. omega (arith, inv.counts v, falls v))) in
      record {
        counts = λ v. omega (arith, relaxed.counts v, inv.counts v, falls v);
        once = λ v. once-step u v done ready count t inv relaxed;
        ordered = (open_edges-Entered done edges u (sym (inv.counts u) ∙ closed), inv.ordered);
      }

  -- how a search ends: no node is queued, and the count is that of the nodes done
  pub record Ended (result : Option ℕ) : Type 0 where
    pub done : List String
    pub count : String → ℕ
    pub returned : result ≡ some (length done)
    pub inv : Inv names edges done [] count

  pub visit-Ended :
      (outgoing : String → List String) (fuel : ℕ) (done ready : List String) (count : String → ℕ)
      → ((u : String) → outgoing u ≡ targets u edges)
      → length names < fuel + length done
      → Inv names edges done ready count
      → Ended (visit names outgoing fuel (length done) count ready)
  unfolding visit
  visit-Ended outgoing zero done ready count same enough inv =
      absurd (omega (arith, Inv-bound done ready count inv))
  visit-Ended outgoing (suc fuel) done [] count same enough inv = record {
    done = done;
    count = count;
    returned = refl;
    inv = inv;
  }
  visit-Ended outgoing (suc fuel) done (u ∷ ready) count same enough inv =
      let t = relax names (outgoing u) (record { count = count; ready = ready }) in
      let next : Inv names edges (u ∷ done) t.ready t.count =
        Inv-step u done ready count t inv (rw (same u) refl) in
      let one : length done + 1 ≡ length (u ∷ done) = omega arith in
      rw one (visit-Ended outgoing fuel (u ∷ done) t.ready t.count same (omega arith) next)

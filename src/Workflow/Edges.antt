-- ===== src/Workflow/Edges.antt =====
-- What the loop over the edges builds: counts of incoming edges, lists of outgoing ones.
use Prim.Native.String.{String}
use text.Mathlib.Text.{◌==◌ as str_eq}
use text.Mathlib.TextEquality.{eq_iff}
use mathlib.Core.List.{append_assoc, append-nil}
use crono.Prelude.{
  ℕ, ◌+◌, ◌≡◌, refl, sym, ap, ◌∙◌, inl, inr, true, false, ◌&&◌, not, List, [], ◌∷◌, ◌++◌,
  if◌then◌else◌, arith, Bool, Bool-cases, All, Pairwise, ok, ok-inj,
}
use crono.Workflow.Graph.{WorkflowEdge, member, Links, has_pair, is_proper, link, add_edges}
use crono.Workflow.Counting.{one_if, str_eq-sym}

-- where the edges from `u` lead
unfoldable pub targets : String → List WorkflowEdge → List String
targets u [] = []
targets u (e ∷ es) = if str_eq e.from u then e.to ∷ targets u es else targets u es

-- the edges into `v` from nodes that are not done
unfoldable pub open_edges : List String → List WorkflowEdge → String → ℕ
open_edges done [] v = 0
open_edges done (e ∷ es) v =
    one_if (str_eq e.to v && not (member e.from done)) + open_edges done es v

abbrev pub same_ends : WorkflowEdge → WorkflowEdge → Bool
same_ends e f = str_eq e.from f.from && str_eq e.to f.to

abbrev pub IsProper : List String → List WorkflowEdge → Type 0
IsProper names = All (λ e. is_proper names e ≡ true)

abbrev pub IsNew : Links → List WorkflowEdge → Type 0
IsNew l = All (λ e. has_pair e.from e.to l.pairs ≡ false)

abbrev pub IsSimple : List WorkflowEdge → Type 0
IsSimple = Pairwise (λ e f. same_ends e f ≡ false)

pub record IsLinked (names : List String) (edges : List WorkflowEdge) (before after : Links)
    : Type 0 where
  pub incoming : (v : String) → after.incoming v ≡ open_edges [] edges v + before.incoming v
  pub outgoing : (u : String) → after.outgoing u ≡ before.outgoing u ++ targets u edges
  pub proper : IsProper names edges
  pub fresh : IsNew before edges
  pub simple : IsSimple edges

apart :
    (e : WorkflowEdge) (l : Links) (es : List WorkflowEdge)
    → IsNew (link e l) es
    → All (λ f. same_ends e f ≡ false) es × IsNew l es
apart e l [] h = (tt, tt)
apart e l (f ∷ es) h =
    let (those, olds) = apart e l es h.1 in ((ground arith, those), (ground arith, olds))

joined :
    (e : WorkflowEdge) (l : Links) (es : List WorkflowEdge)
    → All (λ f. same_ends e f ≡ false) es
    → IsNew l es
    → IsNew (link e l) es
joined e l [] those olds = tt
joined e l (f ∷ es) those olds = (ground arith, joined e l es those.1 olds.1)

link-outgoing :
    (e : WorkflowEdge) (es : List WorkflowEdge) (l : Links) (u : String)
    → (link e l).outgoing u ++ targets u es ≡ l.outgoing u ++ targets u (e ∷ es)
unfolding targets
link-outgoing e es l u = elim (Bool-cases (str_eq e.from u)) [
  | inl same ↦
      let one : e.from ≡ u = (eq_iff e.from u).0 same in
      let turned = sym (str_eq-sym e.from u) ∙ same in
      rw (turned, same, ap l.outgoing one) (append_assoc (l.outgoing u) (e.to ∷ []) (targets u es))
  | inr other ↦ let turned = sym (str_eq-sym e.from u) ∙ other in rw (turned, other) refl
]

link-incoming :
    (e : WorkflowEdge) (l : Links) (v : String)
    → (link e l).incoming v ≡ one_if (str_eq e.to v) + l.incoming v
link-incoming e l v = elim (Bool-cases (str_eq e.to v)) [
  | inl same ↦
      let counts : l.incoming e.to ≡ l.incoming v = ap l.incoming ((eq_iff e.to v).0 same) in
      let turned = sym (str_eq-sym e.to v) ∙ same in ground arith
  | inr other ↦ let turned = sym (str_eq-sym e.to v) ∙ other in ground arith
]

IsLinked-step :
    (names : List String) (e : WorkflowEdge) (es : List WorkflowEdge) (l m : Links)
    → is_proper names e ≡ true
    → has_pair e.from e.to l.pairs ≡ false
    → IsLinked names es (link e l) m
    → IsLinked names (e ∷ es) l m
unfolding open_edges
IsLinked-step names e es l m proper new ih =
    let (those, olds) = apart e l es ih.fresh in
    record {
      incoming = λ v. ground (arith, ih.incoming v, link-incoming e l v);
      outgoing = λ u. ih.outgoing u ∙ link-outgoing e es l u;
      proper = (proper, ih.proper);
      fresh = (new, olds);
      simple = (those, ih.simple);
    }

pub add_edges-IsLinked :
    (names : List String) (edges : List WorkflowEdge) (l m : Links)
    → add_edges names edges l ≡ ok m
    → IsLinked names edges l m
unfolding add_edges open_edges targets
add_edges-IsLinked names [] l m h = rw (← ok-inj h) (record {
  incoming = λ v. omega arith;
  outgoing = λ u. sym (append-nil (l.outgoing u));
  proper = tt;
  fresh = tt;
  simple = tt;
})
add_edges-IsLinked names (e ∷ es) l m h = elim (Bool-cases (is_proper names e)) [
  | inr improper ↦ absurd (cc (rw improper at h))
  | inl proper ↦ elim (Bool-cases (has_pair e.from e.to l.pairs)) [
    | inl twice ↦ absurd (cc (rw (proper, twice) at h))
    | inr new ↦
        IsLinked-step names e es l m proper new
          (add_edges-IsLinked names es (link e l) m (rw (proper, new) at h))
  ]
]

-- proper edges without repetition are accepted
pub add_edges-total :
    (names : List String) (edges : List WorkflowEdge) (l : Links)
    → IsProper names edges
    → IsNew l edges
    → IsSimple edges
    → (m : Links) × (add_edges names edges l ≡ ok m)
unfolding add_edges
add_edges-total names [] l proper fresh simple = (l, refl)
add_edges-total names (e ∷ es) l proper fresh simple =
    let (m, h) =
      add_edges-total names es (link e l) proper.1 (joined e l es simple.0 fresh.1) simple.1 in
    (m, rw (proper.0, fresh.0) h)

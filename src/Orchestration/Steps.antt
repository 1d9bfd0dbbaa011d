-- ===== src/Orchestration/Steps.antt =====
-- The loops over nodes act as `Acts` allows.
use crono.Prelude.{
  ℕ, zero, suc, ◌≡◌, ◌⊎◌, inl, inr, refl, ap, false, not, ◌&&◌, Option, none, some, List, [], ◌∷◌,
  ◌++◌, ◌==◌, arith, Bool-cases, Option-cases, any, Result, ok, err, ok-inj, >>=-ok,
}
use crono.Dispatch.Tables.{Table, StoreError}
use crono.Dispatch.Create.{Fresh}
use crono.Workflow.Join.{DependencyDecision}
use crono.Orchestration.Invocation.{
  Invocation, NodeRun, RunEdge, node_is_pending, activate, complete_node, skip_node, follow,
  visit_node, propagate, finish, complete_all, advance, activate_roots,
}
use crono.Orchestration.NodeMoves.{AllMet, Acts, Acts-refl, Acts-trans}
use crono.Orchestration.Operations.{
  Linked, Linked-Acts, activate-Acts, complete_node-Acts, skip_node-Acts, finish-Acts, ready-AllMet,
}

pub Result-cases :
    {A : Type 0} (r : Result StoreError A)
    → ((e : StoreError) × (r ≡ err e)) ⊎ ((a : A) × (r ≡ ok a))
Result-cases (err e) = inl (e, refl)
Result-cases (ok a) = inr (a, refl)

follow-Acts :
    (now : ℕ) (fresh : ℕ → Fresh) (id : ℕ) (v w : Invocation) (more : List ℕ)
    (decision : DependencyDecision)
    → (decision ≡ DependencyDecision.ready → AllMet v.nodes v.edges id)
    → follow now fresh id v decision ≡ ok (w, more)
    → Acts v w
unfolding follow
follow-Acts now fresh id v w more DependencyDecision.waiting met h =
    let same : v ≡ w = ap (λ (p : Invocation × List ℕ). p.0) (ok-inj h) in rw (← same) (Acts-refl v)
follow-Acts now fresh id v w more DependencyDecision.ready met h =
    let (u, started, last) = >>=-ok (activate now fresh id v) (λ u. ok (u, [])) h in
    let same : u ≡ w = ap (λ (p : Invocation × List ℕ). p.0) (ok-inj last) in
    rw (← same) (activate-Acts now fresh id v u (met refl) started)
follow-Acts now fresh id v w more DependencyDecision.skipped met h =
    let same : skip_node now id v ≡ w = ap (λ (p : Invocation × List ℕ). p.0) (ok-inj h) in
    rw (← same) (skip_node-Acts now id v)

visit_node-Acts :
    (now : ℕ) (fresh : ℕ → Fresh) (id : ℕ) (v w : Invocation) (more : List ℕ)
    → Linked v
    → visit_node now fresh id v ≡ ok (w, more)
    → Acts v w
unfolding visit_node
visit_node-Acts now fresh id v w more linked h = elim (Option-cases (v.nodes id)) [
  | inl missing ↦ absurd (cc (rw (visit_node, missing) at h))
  | inr (n, there) ↦ elim (Bool-cases (node_is_pending n.state && not v.cancellation_requested)) [
    | inr closed ↦
        let same : v ≡ w =
          ap (λ (p : Invocation × List ℕ). p.0) (ok-inj (rw (visit_node, there, closed) at h)) in
        rw (← same) (Acts-refl v)
    | inl active ↦
        follow-Acts now fresh id v w more _ (ready-AllMet v id linked)
          (rw (visit_node, there, active) at h)
  ]
]

propagate-Acts :
    (now : ℕ) (fresh : ℕ → Fresh) (fuel : ℕ) (queue : List ℕ) (v w : Invocation)
    → Linked v
    → propagate now fresh fuel queue v ≡ some (ok w)
    → Acts v w
unfolding propagate
propagate-Acts now fresh zero queue v w linked h = absurd (cc (h))
propagate-Acts now fresh (suc fuel) [] v w linked h =
    let same : v ≡ w = cc (h) in rw (← same) (Acts-refl v)
propagate-Acts now fresh (suc fuel) (id ∷ queue) v w linked h =
    elim (Result-cases (visit_node now fresh id v)) [
      | inl (e, failed) ↦ absurd (cc (rw (propagate, failed) at h))
      | inr ((u, more), went) ↦
          let one = visit_node-Acts now fresh id v u more linked went in
          Acts-trans v u w one (
            propagate-Acts now fresh fuel (queue ++ more) u w (Linked-Acts v u one linked)
              (rw (propagate, went) at h))
    ]

complete_all-Acts :
    (now : ℕ) (affected : List ℕ) (v : Invocation) (queue : List ℕ)
    → Acts v (complete_all now affected v queue).0
unfolding complete_all
complete_all-Acts now [] v queue = Acts-refl v
complete_all-Acts now (id ∷ affected) v queue =
    let u = (complete_node now id v).0 in
    Acts-trans v u _ (complete_node-Acts now id v) (complete_all-Acts now affected u _)

pub finished :
    (now : ℕ) (w : Invocation) (r : Option (Result StoreError Invocation))
    → elim r [ none ↦ none | some (err e) ↦ some (err e) | some (ok u) ↦ some (ok (finish now u)) ]
      ≡ some (ok w)
    → (u : Invocation) × (r ≡ some (ok u)) × (finish now u ≡ w)
finished now w none h = absurd (cc (h))
finished now w (some (err e)) h = absurd (cc (h))
finished now w (some (ok u)) h = (u, refl, cc (h))

no_edges :
    (nodes : Table NodeRun) (edges : List RunEdge) (id : ℕ)
    → any (λ (e : RunEdge). e.to_node_run_id == id) edges ≡ false
    → AllMet nodes edges id
no_edges nodes [] id h = tt
no_edges nodes (e ∷ edges) id h = (ground arith, no_edges nodes edges id (ground arith))

pub advance-Acts :
    (now : ℕ) (fresh : ℕ → Fresh) (fuel : ℕ) (affected : List ℕ) (v w : Invocation)
    → Linked v
    → advance now fresh fuel affected v ≡ some (ok w)
    → Acts v w
unfolding advance
advance-Acts now fresh fuel affected v w linked h =
    let done = complete_all now affected v [] in
    let first = complete_all-Acts now affected v [] in
    let (u, went, last) = finished now w (propagate now fresh fuel done.1 done.0) h in
    let second =
      propagate-Acts now fresh fuel done.1 done.0 u (Linked-Acts v done.0 first linked) went in
    rw (← last) (Acts-trans v done.0 _ first (Acts-trans done.0 u _ second (finish-Acts now u)))

pub roots-Acts :
    (now : ℕ) (fresh : ℕ → Fresh) (members : List ℕ) (v w : Invocation)
    → activate_roots now fresh members v ≡ ok w
    → Acts v w
unfolding activate_roots
roots-Acts now fresh [] v w h = rw (← ok-inj h) (Acts-refl v)
roots-Acts now fresh (id ∷ members) v w h =
    elim (Bool-cases (any (λ (e : RunEdge). e.to_node_run_id == id) v.edges)) [
      | inl reached ↦ roots-Acts now fresh members v w (rw reached at h)
      | inr root ↦
          let (u, started, rest) =
            >>=-ok (activate now fresh id v) (activate_roots now fresh members) (rw root at h) in
          Acts-trans v u w
            (activate-Acts now fresh id v u (no_edges v.nodes v.edges id root) started)
            (roots-Acts now fresh members u w rest)
    ]

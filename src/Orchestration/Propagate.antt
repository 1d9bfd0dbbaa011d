-- ===== src/Orchestration/Propagate.antt =====
-- The `while let` of `propagate` ends: each round takes a node from the queue, and a node adds its
-- outgoing edges once, when it is skipped.
use crono.Prelude.{
  ℕ, zero, suc, ◌+◌, ◌≤◌, ◌<◌, ◌≡◌, inl, inr, refl, ap, ◌∙◌, Bool, true, false, not, ◌&&◌, Option,
  none, some, List, [], ◌∷◌, ◌++◌, length, ◌==◌, if◌then◌else◌, arith, Bool-cases, Option-cases,
  Result, ok, err, ok-inj, >>=-ok,
}
use mathlib.Core.Option
use crono.Dispatch.Tables.{StoreError, Table, update_where, affects}
use crono.Dispatch.Create.{Fresh}
use crono.Workflow.Counting.{one_if}
use crono.Workflow.Join.{WorkflowNodeState, DependencyDecision, dependency_decision}
use crono.Orchestration.Invocation.{
  Invocation, NodeRun, RunEdge, is_running, is_startable, node_is_pending, create_runs, start_node,
  activate, outgoing, incoming, skip_node, follow, visit_node, propagate,
}
use crono.Orchestration.Steps.{Result-cases}

abbrev pub is_waiting : Table NodeRun → ℕ → Bool
is_waiting nodes k = affects nodes k (λ n. node_is_pending n.state)

-- the edges out of pending nodes
unfoldable pub spare : Table NodeRun → List RunEdge → ℕ
spare nodes [] = 0
spare nodes (e ∷ edges) = one_if (is_waiting nodes e.from_node_run_id) + spare nodes edges

abbrev waits_in : Option NodeRun → Bool
waits_in row = elim row [ none ↦ false | some n ↦ node_is_pending n.state ]

abbrev updated : Bool → (NodeRun → Bool) → (NodeRun → NodeRun) → Option NodeRun → Option NodeRun
updated hit test set row = if hit then Option.map (λ n. if test n then set n else n) row else row

waits_in-updated :
    (hit : Bool) (test : NodeRun → Bool) (set : NodeRun → NodeRun) (row : Option NodeRun)
    → ((n : NodeRun) → node_is_pending (set n).state ≡ false)
    → one_if (waits_in (updated hit test set row)) ≤ one_if (waits_in row)
waits_in-updated false test set row begun = omega arith
waits_in-updated true test set none begun = omega arith
waits_in-updated true test set (some n) begun = elim (Bool-cases (test n)) [
  | inl chosen ↦ rw (chosen, begun n) (omega arith)
  | inr other ↦ rw other (omega arith)
]

-- a row that waits, and is skipped
abbrev skipped : ℕ → NodeRun → NodeRun
skipped now n = record n { state = WorkflowNodeState.skipped; finished_at = some now }

waits_in-skipped :
    (hit : Bool) (now : ℕ) (row : Option NodeRun)
    → (hit ≡ true → waits_in row ≡ true)
    → one_if hit + one_if (waits_in (updated hit (λ n. node_is_pending n.state) (skipped now) row))
      ≤ one_if (waits_in row)
waits_in-skipped false now row waits = omega arith
waits_in-skipped true now none waits = absurd (cc (waits refl))
waits_in-skipped true now (some n) waits = rw (waits refl) (omega arith)

spare-update :
    (nodes : Table NodeRun) (id : ℕ) (test : NodeRun → Bool) (set : NodeRun → NodeRun)
    (edges : List RunEdge)
    → ((n : NodeRun) → node_is_pending (set n).state ≡ false)
    → spare (update_where nodes id test set) edges ≤ spare nodes edges
unfolding spare
spare-update nodes id test set [] begun = omega arith
spare-update nodes id test set (e ∷ edges) begun = omega (
  arith,
  waits_in-updated (e.from_node_run_id == id) test set (nodes e.from_node_run_id) begun,
  spare-update nodes id test set edges begun,
)

==-eq : (a b : ℕ) → (a == b) ≡ true → a ≡ b
==-eq a b h = ground arith

outgoing-length :
    (e : RunEdge) (edges : List RunEdge) (id : ℕ)
    → length (outgoing (e ∷ edges) id)
      ≡ one_if (e.from_node_run_id == id) + length (outgoing edges id)
unfolding outgoing
outgoing-length e edges id = ground arith

spare-skip :
    (now id : ℕ) (v : Invocation) (edges : List RunEdge)
    → is_waiting v.nodes id ≡ true
    → length (outgoing edges id) + spare (skip_node now id v).nodes edges ≤ spare v.nodes edges
unfolding spare outgoing
spare-skip now id v [] waits = omega arith
spare-skip now id v (e ∷ edges) waits =
    let one =
      waits_in-skipped (e.from_node_run_id == id) now (v.nodes e.from_node_run_id)
        (λ mine. ap (is_waiting v.nodes) (==-eq e.from_node_run_id id mine) ∙ waits) in
    omega (arith, one, outgoing-length e edges id, spare-skip now id v edges waits)

activate-spare :
    (now : ℕ) (fresh : ℕ → Fresh) (id : ℕ) (v w : Invocation)
    → activate now fresh id v ≡ ok w
    → spare w.nodes w.edges ≤ spare v.nodes v.edges
unfolding activate
activate-spare now fresh id v w h = elim (Option-cases (v.nodes id)) [
  | inl missing ↦
      let same : v ≡ w = ok-inj (rw (activate, missing) at h) in rw (← same) (omega arith)
  | inr (n, there) ↦
      elim (Bool-cases
        (is_startable n.state && not v.cancellation_requested && is_running v.state)) [
          | inr refused ↦
              let same : v ≡ w = ok-inj (rw (activate, there, refused) at h) in
              rw (← same) (omega arith)
          | inl granted ↦
              let (s, made, last) =
                >>=-ok (create_runs now fresh id n.job_id n.executions v.store)
                  (λ s. ok (record (start_node now id v) { store = s }))
                  (rw (activate, there, granted) at h) in
              let same : record (start_node now id v) { store = s } ≡ w = ok-inj last in
              rw (← same)
                (spare-update v.nodes id (λ n. is_startable n.state) _ v.edges (λ n. refl))
        ]
]

-- the pair that a round returns
moved :
    (v w : Invocation) (added more : List ℕ)
    → ◌≡◌ {A = Invocation × List ℕ} (v, added) (w, more)
    → length added + spare v.nodes v.edges ≡ length more + spare w.nodes w.edges
moved v w added more same =
    ap (λ (p : Invocation × List ℕ). length p.1 + spare p.0.nodes p.0.edges) same

waiting_at :
    (v : Invocation) (id : ℕ) (n : NodeRun)
    → v.nodes id ≡ some n
    → node_is_pending n.state ≡ true
    → is_waiting v.nodes id ≡ true
waiting_at v id n there h = ap waits_in there ∙ h

length-append : (xs ys : List ℕ) → length (xs ++ ys) ≡ length xs + length ys
length-append [] ys = omega arith
length-append (x ∷ xs) ys = omega (arith, length-append xs ys)

follow-spare :
    (now : ℕ) (fresh : ℕ → Fresh) (id : ℕ) (v w : Invocation) (more : List ℕ)
    (decision : DependencyDecision)
    → is_waiting v.nodes id ≡ true
    → follow now fresh id v decision ≡ ok (w, more)
    → length more + spare w.nodes w.edges ≤ spare v.nodes v.edges
unfolding follow
follow-spare now fresh id v w more DependencyDecision.waiting waits h =
    omega (arith, moved v w [] more (ok-inj h))
follow-spare now fresh id v w more DependencyDecision.ready waits h =
    let (u, started, last) = >>=-ok (activate now fresh id v) (λ u. ok (u, [])) h in
    let falls = activate-spare now fresh id v u started in
    let rest = moved u w [] more (ok-inj last) in omega (arith, falls, rest)
follow-spare now fresh id v w more DependencyDecision.skipped waits h =
    let same = ok-inj h in
    let falls = spare-skip now id v v.edges waits in
    let rest = moved (skip_node now id v) w (outgoing v.edges id) more same in
    omega (arith, falls, rest)

visit_node-spare :
    (now : ℕ) (fresh : ℕ → Fresh) (id : ℕ) (v w : Invocation) (more : List ℕ)
    → visit_node now fresh id v ≡ ok (w, more)
    → length more + spare w.nodes w.edges ≤ spare v.nodes v.edges
unfolding visit_node
visit_node-spare now fresh id v w more h = elim (Option-cases (v.nodes id)) [
  | inl missing ↦ absurd (cc (rw (visit_node, missing) at h))
  | inr (n, there) ↦ elim (Bool-cases (node_is_pending n.state && not v.cancellation_requested)) [
    | inr closed ↦ omega (arith, moved v w [] more (ok-inj (rw (visit_node, there, closed) at h)))
    | inl active ↦
        follow-spare now fresh id v w more (dependency_decision (incoming v.nodes v.edges id))
          (waiting_at v id n there (ground arith)) (rw (visit_node, there, active) at h)
  ]
]

-- With one round more than the queue is long and than edges leave pending nodes, the propagation
-- ends, in an invocation or an error.
pub propagate_ends :
    (now : ℕ) (fresh : ℕ → Fresh) (fuel : ℕ) (queue : List ℕ) (v : Invocation)
    → length queue + spare v.nodes v.edges < fuel
    → (r : Result StoreError Invocation) × (propagate now fresh fuel queue v ≡ some r)
unfolding propagate
propagate_ends now fresh zero queue v enough = absurd (omega arith)
propagate_ends now fresh (suc fuel) [] v enough = (ok v, refl)
propagate_ends now fresh (suc fuel) (id ∷ queue) v enough =
    elim (Result-cases (visit_node now fresh id v)) [
      | inl (e, failed) ↦ (err e, rw (propagate, failed) refl)
      | inr ((u, more), went) ↦
          let falls = visit_node-spare now fresh id v u more went in
          let (r, h) =
            propagate_ends now fresh fuel (queue ++ more) u
              (omega (arith, falls, length-append queue more)) in
          (r, rw (propagate, went) h)
    ]

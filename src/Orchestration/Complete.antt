-- ===== src/Orchestration/Complete.antt =====
-- No node is forgotten: what the reconciler leaves pending waits for a predecessor.
use crono.Prelude.{
  ℕ, ◌≡◌, ◌⊎◌, inl, inr, refl, ap, ◌∙◌, Bool, true, false, not, ◌&&◌, Option, some, List, [], ◌∷◌,
  ◌++◌, ◌==◌, arith, Bool-cases, Option-cases, any, map, Memᴰ, ok, ok-inj, >>=-ok,
}
use crono.Dispatch.Tables.{Table, update_where, affects}
use crono.Dispatch.Create.{Fresh}
use crono.Dispatch.Soundness.Rows.{affects-inv}
use crono.Workflow.Join.{
  WorkflowNodeState, DependencyDecision, Dependency, is_terminal, dependency_decision,
  dependency_decision-any, is_mismatch, is_open,
}
use crono.Orchestration.Invocation.{
  Invocation, NodeRun, RunEdge, is_running, is_startable, node_is_pending, create_runs, linked,
  start_node, activate, outgoing, incoming,
}

abbrev pub Waits : Invocation → ℕ → Type 0
Waits w k = dependency_decision (incoming w.nodes w.edges k) ≡ DependencyDecision.waiting

-- a pending node waits, or is in the queue
abbrev pub IsHandled : Invocation → List ℕ → Type 0
IsHandled w queue =
    (k : ℕ) (n : NodeRun)
    → w.nodes k ≡ some n
    → node_is_pending n.state ≡ true
    → Waits w k ⊎ Memᴰ k queue

incoming-same :
    (before after : Table NodeRun) (e : RunEdge) (edges : List RunEdge) (k : ℕ)
    → after e.from_node_run_id ≡ before e.from_node_run_id
    → incoming after edges k ≡ incoming before edges k
    → incoming after (e ∷ edges) k ≡ incoming before (e ∷ edges) k
unfolding incoming
incoming-same before after e edges k row same = elim (Bool-cases (e.to_node_run_id == k)) [
  | inr there ↦ rw there same
  | inl here ↦ elim (Option-cases (before e.from_node_run_id)) [
    | inl missing ↦ let now = row ∙ missing in rw (here, missing, now) same
    | inr (m, at) ↦
        let now = row ∙ at in
        rw (here, at, now) (ap (λ (r : List Dependency). (e.condition, m.state) ∷ r) same)
  ]
]

-- an update of one node reaches those that its edges lead to
incoming_elsewhere :
    (before after : Table NodeRun) (edges : List RunEdge) (id k : ℕ)
    → ((j : ℕ) → (j == id) ≡ false → after j ≡ before j)
    → (incoming after edges k ≡ incoming before edges k) ⊎ Memᴰ k (outgoing edges id)
unfolding incoming outgoing
incoming_elsewhere before after [] id k apart = inl refl
incoming_elsewhere before after (e ∷ edges) id k apart =
    let rest = incoming_elsewhere before after edges id k apart in
    elim (Bool-cases (e.from_node_run_id == id)) [
      | inl mine ↦ elim (Bool-cases (e.to_node_run_id == k)) [
        | inl here ↦ inr (rw mine (Memᴰ.head (ground arith)))
        | inr there ↦ elim rest [
          | inl same ↦ inl (rw there same)
          | inr listed ↦ inr (rw mine (Memᴰ.tail listed))
        ]
      ]
      | inr other ↦ elim rest [
        | inr listed ↦ inr (rw other listed)
        | inl same ↦
            inl (incoming-same before after e edges k (apart e.from_node_run_id other) same)
      ]
    ]

-- a row that has not ended is as good as another
abbrev SameOpen : Option NodeRun → Option NodeRun → Type 0
SameOpen a b =
    (b ≡ a)
    ⊎ ((m : NodeRun) × (n : NodeRun) × (a ≡ some m)
        × (b ≡ some n)
        × (is_terminal m.state ≡ false)
        × (is_terminal n.state ≡ false))

any_open :
    (before after : Table NodeRun) (edges : List RunEdge) (k : ℕ)
    → ((j : ℕ) → SameOpen (before j) (after j))
    → (any is_mismatch (incoming after edges k) ≡ any is_mismatch (incoming before edges k))
      × (any is_open (incoming after edges k) ≡ any is_open (incoming before edges k))
unfolding incoming
any_open before after [] k same = (refl, refl)
any_open before after (e ∷ edges) k same =
    let (bad, live) = any_open before after edges k same in
    elim (Bool-cases (e.to_node_run_id == k)) [
      | inr other ↦ rw other (bad, live)
      | inl mine ↦ elim (same e.from_node_run_id) [
        | inl kept ↦ elim (Option-cases (before e.from_node_run_id)) [
          | inl missing ↦ rw (mine, kept, missing) (bad, live)
          | inr (m, there) ↦ rw (mine, kept, there, bad, live) (refl, refl)
        ]
        | inr (m, n, was, is, going, still) ↦ rw (mine, was, is, going, still, bad) (refl, refl)
      ]
    ]

decision_open :
    (before after : Table NodeRun) (edges : List RunEdge) (k : ℕ)
    → ((j : ℕ) → SameOpen (before j) (after j))
    → dependency_decision (incoming after edges k) ≡ dependency_decision (incoming before edges k)
decision_open before after edges k same =
    let (bad, live) = any_open before after edges k same in
    rw
      (
        dependency_decision-any (incoming after edges k),
        dependency_decision-any (incoming before edges k),
        bad,
        live,
      )
      refl

start-SameOpen :
    (now id : ℕ) (v : Invocation) (j : ℕ) → SameOpen (v.nodes j) ((start_node now id v).nodes j)
start-SameOpen now id v j = elim (Option-cases (v.nodes j)) [
  | inl missing ↦ inl (ground arith)
  | inr (n, there) ↦ elim (Bool-cases (j == id && is_startable n.state)) [
    | inr apart ↦ inl (ground arith)
    | inl hit ↦ inr (
      n,
      record n {
        state = WorkflowNodeState.running;
        started_at = some now;
        executions = map linked n.executions;
      },
      there,
      ground arith,
      ground arith,
      refl,
    )
  ]
]

Waits-SameOpen :
    (v w : Invocation) (k : ℕ)
    → w.edges ≡ v.edges
    → ((j : ℕ) → SameOpen (v.nodes j) (w.nodes j))
    → Waits v k
    → Waits w k
Waits-SameOpen v w k edges same h = rw edges (decision_open v.nodes w.nodes v.edges k same ∙ h)

Memᴰ-append : (k : ℕ) (xs ys : List ℕ) → Memᴰ k xs ⊎ Memᴰ k ys → Memᴰ k (xs ++ ys)
Memᴰ-append k [] ys (inl listed) = elim listed [ ]
Memᴰ-append k [] ys (inr listed) = listed
Memᴰ-append k (x ∷ xs) ys (inl (Memᴰ.head same)) = Memᴰ.head same
Memᴰ-append k (x ∷ xs) ys (inl (Memᴰ.tail rest)) = Memᴰ.tail (Memᴰ-append k xs ys (inl rest))
Memᴰ-append k (x ∷ xs) ys (inr listed) = Memᴰ.tail (Memᴰ-append k xs ys (inr listed))

pub ==-eq : (a b : ℕ) → (a == b) ≡ true → a ≡ b
==-eq a b h = ground arith

pub later : (k id : ℕ) (queue : List ℕ) → (k == id) ≡ false → Memᴰ k (id ∷ queue) → Memᴰ k queue
later k id queue away (Memᴰ.head same) = absurd (ground arith)
later k id queue away (Memᴰ.tail rest) = rest

pending_before :
    (nodes : Table NodeRun) (id k : ℕ) (n : NodeRun) (test : NodeRun → Bool)
    (set : NodeRun → NodeRun)
    → affects nodes id test ≡ true
    → ((m : NodeRun) → node_is_pending (set m).state ≡ false)
    → update_where nodes id test set k ≡ some n
    → node_is_pending n.state ≡ true
    → ((k == id) ≡ false) × (nodes k ≡ some n)
pending_before nodes id k n test set hit past at pending = elim (Bool-cases (k == id)) [
  | inr other ↦ (other, rw other at at)
  | inl same ↦
      let (m, there, chosen) = affects-inv nodes id test hit in
      let here : nodes k ≡ some m = ap nodes (==-eq k id same) ∙ there in
      let now : some (set m) ≡ some n = rw (same, here, chosen) at at in
      let one : set m ≡ n = cc (now) in
      absurd (cc (past m, ap (λ (x : NodeRun). node_is_pending x.state) one, pending))
]

-- An update that leaves its node past pending: those that its edges lead to are queued.
pub ended-IsHandled :
    (v : Invocation) (id : ℕ) (test : NodeRun → Bool) (set : NodeRun → NodeRun) (queue : List ℕ)
    → affects v.nodes id test ≡ true
    → ((n : NodeRun) → node_is_pending (set n).state ≡ false)
    → IsHandled v (id ∷ queue)
    → IsHandled
        (record v { nodes = update_where v.nodes id test set })
        (queue ++ outgoing v.edges id)
ended-IsHandled v id test set queue hit past handled k n at pending =
    let after : Table NodeRun = update_where v.nodes id test set in
    let apart : (j : ℕ) → (j == id) ≡ false → after j ≡ v.nodes j = λ j other. rw other refl in
    let (away, old) = pending_before v.nodes id k n test set hit past at pending in
    elim (incoming_elsewhere v.nodes after v.edges id k apart) [
      | inr listed ↦ inr (Memᴰ-append k queue (outgoing v.edges id) (inr listed))
      | inl same ↦ elim (handled k n old pending) [
        | inr listed ↦
            inr (Memᴰ-append k queue (outgoing v.edges id) (inl (later k id queue away listed)))
        | inl waits ↦ inl (ap dependency_decision same ∙ waits)
      ]
    ]

pub append-[] : (xs : List ℕ) → xs ++ [] ≡ xs
append-[] [] = refl
append-[] (x ∷ xs) = ap (λ (r : List ℕ). x ∷ r) (append-[] xs)

started :
    (now id : ℕ) (v : Invocation) (n : NodeRun) (queue : List ℕ)
    → v.nodes id ≡ some n
    → is_startable n.state ≡ true
    → IsHandled v (id ∷ queue)
    → IsHandled (start_node now id v) queue
started now id v n queue there startable handled k m at pending =
    let hit : affects v.nodes id (λ n. is_startable n.state) ≡ true = ground arith in
    let (away, old) =
      pending_before v.nodes id k m (λ n. is_startable n.state) _ hit (λ n. refl) at pending in
    elim (handled k m old pending) [
      | inr listed ↦ inr (later k id queue away listed)
      | inl waits ↦
          inl (Waits-SameOpen v (start_node now id v) k refl (start-SameOpen now id v) waits)
    ]

-- the invocation goes on: it runs, and nobody has asked to cancel it
abbrev pub GoesOn : Invocation → Type 0
GoesOn w = (is_running w.state ≡ true) × (w.cancellation_requested ≡ false)

pub activate-IsHandled :
    (now : ℕ) (fresh : ℕ → Fresh) (id : ℕ) (v w : Invocation) (n : NodeRun) (queue : List ℕ)
    → GoesOn v
    → v.nodes id ≡ some n
    → node_is_pending n.state ≡ true
    → IsHandled v (id ∷ queue)
    → activate now fresh id v ≡ ok w
    → GoesOn w × IsHandled w queue
unfolding activate
activate-IsHandled now fresh id v w n queue going there pending handled h =
    let startable : is_startable n.state ≡ true = ground arith in
    let granted : (is_startable n.state && not v.cancellation_requested && is_running v.state)
        ≡ true =
      ground arith in
    let (s, made, last) =
      >>=-ok (create_runs now fresh id n.job_id n.executions v.store)
        (λ s. ok (record (start_node now id v) { store = s }))
        (rw (activate, there, granted) at h) in
    let same : record (start_node now id v) { store = s } ≡ w = ok-inj last in
    rw (← same) (going, started now id v n queue there startable handled)

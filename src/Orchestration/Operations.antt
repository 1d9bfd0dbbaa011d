-- ===== src/Orchestration/Operations.antt =====
-- Each operation on an invocation acts as `Acts` allows.
use crono.Prelude.{
  ℕ, ◌≡◌, inl, inr, refl, sym, ◌∙◌, true, false, not, ◌&&◌, some, List, [], ◌∷◌, ◌==◌, arith,
  Bool-cases, Option-cases, All, All-imp, any, ok, ok-inj, >>=-ok,
}
use crono.Dispatch.Tables.{Store, Table, is_none, update_where}
use crono.Dispatch.Create.{Fresh}
use crono.Workflow.Join.{
  WorkflowNodeState, DependencyDecision, is_terminal, dependency_decision, dependency_decision-any,
  is_mismatch, is_open,
}
use crono.Orchestration.Invocation.{
  Invocation, NodeRun, RunEdge, is_running, is_startable, node_is_pending, node_is_running,
  create_runs, start_node, activate, statuses, outcome, is_unsettled, settle_node, complete_node,
  incoming, skip_node, finish, cancel_nodes, cancel,
}
use crono.Orchestration.NodeMoves.{
  stage, AllMet, Acts, Acts-refl, Acts-trans, update-Acts, has_open,
}

-- the ends of the edges exist
abbrev pub Linked : Invocation → Type 0
Linked w = All (λ (e : RunEdge). is_none (w.nodes e.from_node_run_id) ≡ false) w.edges

pub Linked-Acts : (v w : Invocation) → Acts v w → Linked v → Linked w
Linked-Acts v w acts linked =
    rw acts.edges (All-imp _ _ v.edges (λ e h. acts.keys e.from_node_run_id ∙ h) linked)

-- the dispatch tables, and the request to cancel, are not looked at
pub stored-Acts : (v w : Invocation) (s : Store) → Acts v w → Acts v (record w { store = s })
stored-Acts v w s acts = record {
  edges = acts.edges;
  members = acts.members;
  moves = acts.moves;
  keys = acts.keys;
  fair = acts.fair;
  final = acts.final;
  closing = acts.closing;
}

requested-Acts : (v w : Invocation) → Acts v w → Acts v (record w { cancellation_requested = true })
requested-Acts v w acts = record {
  edges = acts.edges;
  members = acts.members;
  moves = acts.moves;
  keys = acts.keys;
  fair = acts.fair;
  final = acts.final;
  closing = acts.closing;
}

start_node-Acts :
    (now id : ℕ) (v : Invocation) → AllMet v.nodes v.edges id → Acts v (start_node now id v)
unfolding stage
start_node-Acts now id v met =
    update-Acts v id (λ n. is_startable n.state) _
      (λ n test. record {
        final = λ over. absurd (ground arith);
        forward = ground arith;
        started = λ begun. absurd (ground arith);
      })
      (λ n test. inr met)

pub activate-Acts :
    (now : ℕ) (fresh : ℕ → Fresh) (id : ℕ) (v w : Invocation)
    → AllMet v.nodes v.edges id
    → activate now fresh id v ≡ ok w
    → Acts v w
unfolding activate
activate-Acts now fresh id v w met h = elim (Option-cases (v.nodes id)) [
  | inl missing ↦ rw (← ok-inj (rw (activate, missing) at h)) (Acts-refl v)
  | inr (n, there) ↦
      elim (Bool-cases
        (is_startable n.state && not v.cancellation_requested && is_running v.state)) [
          | inr refused ↦ rw (← ok-inj (rw (activate, there, refused) at h)) (Acts-refl v)
          | inl granted ↦
              let (s, made, last) =
                >>=-ok (create_runs now fresh id n.job_id n.executions v.store)
                  (λ s. ok (record (start_node now id v) { store = s }))
                  (rw (activate, there, granted) at h) in
              let same : record (start_node now id v) { store = s } ≡ w = ok-inj last in
              rw (← same) (stored-Acts v (start_node now id v) s (start_node-Acts now id v met))
        ]
]

settle_node-Acts :
    (now id : ℕ) (state : WorkflowNodeState) (v : Invocation)
    → is_terminal state ≡ true
    → Acts v (settle_node now id state v)
unfolding stage
settle_node-Acts now id state v over =
    update-Acts v id (λ n. node_is_running n.state) _
      (λ n test. record {
        final = λ over. absurd (ground arith);
        forward = ground arith;
        started = λ begun. refl;
      })
      (λ n test. inl refl)

pub complete_node-Acts : (now id : ℕ) (v : Invocation) → Acts v (complete_node now id v).0
unfolding complete_node
complete_node-Acts now id v = elim (Option-cases (v.nodes id)) [
  | inl missing ↦ rw (complete_node, missing) (Acts-refl v)
  | inr (n, there) ↦
      let all = statuses v.store n.executions in
      rw (complete_node, there)
        (elim (Bool-cases (is_unsettled all)) [
          | inl waits ↦ rw waits (Acts-refl v)
          | inr settled ↦ rw settled (settle_node-Acts now id (outcome all) v (ground arith))
        ])
]

pub skip_node-Acts : (now id : ℕ) (v : Invocation) → Acts v (skip_node now id v)
unfolding stage
skip_node-Acts now id v =
    update-Acts v id (λ n. node_is_pending n.state) _
      (λ n test. record {
        final = λ over. absurd (ground arith);
        forward = ground arith;
        started = λ begun. refl;
      })
      (λ n test. inl refl)

cancel_nodes-Acts :
    (now : ℕ) (members : List ℕ) (v : Invocation)
    → Acts v (record v { nodes = cancel_nodes now members v.nodes })
unfolding cancel_nodes stage
cancel_nodes-Acts now [] v = Acts-refl v
cancel_nodes-Acts now (id ∷ members) v =
    let set : NodeRun → NodeRun =
      λ n. record n { state = WorkflowNodeState.cancelled; finished_at = some now } in
    let u = record v { nodes = update_where v.nodes id (λ n. is_startable n.state) set } in
    let one : Acts v u =
      update-Acts v id (λ n. is_startable n.state) set
        (λ n test. record {
          final = λ over. absurd (ground arith);
          forward = ground arith;
          started = λ begun. refl;
        })
        (λ n test. inl refl) in
    Acts-trans v u _ one (cancel_nodes-Acts now members u)

pub finish-Acts : (now : ℕ) (v : Invocation) → Acts v (finish now v)
unfolding finish
finish-Acts now v = elim (Bool-cases (is_running v.state && not (has_open v))) [
  | inr stays ↦ rw stays (Acts-refl v)
  | inl ends ↦
      let same = Acts-refl v in
      rw ends (record {
        edges = refl;
        members = refl;
        moves = same.moves;
        keys = same.keys;
        fair = same.fair;
        final = λ over. absurd (ground arith);
        closing = λ over. inr (ground arith);
      })
]

pub cancel-Acts : (now : ℕ) (v : Invocation) → Acts v (cancel now v)
unfolding cancel
cancel-Acts now v = elim (Bool-cases (is_running v.state)) [
  | inr over ↦ rw over (Acts-refl v)
  | inl runs ↦
      let u = record v {
        cancellation_requested = true;
        nodes = cancel_nodes now v.members v.nodes;
      } in
      let one : Acts v u = requested-Acts v _ (cancel_nodes-Acts now v.members v) in
      let same : cancel now v ≡ finish now u = rw runs refl in
      rw same (Acts-trans v u (finish now u) one (finish-Acts now u))
]

-- a node is ready just if all edges into it are met
incoming-AllMet :
    (nodes : Table NodeRun) (edges : List RunEdge) (id : ℕ)
    → All (λ (e : RunEdge). is_none (nodes e.from_node_run_id) ≡ false) edges
    → any is_mismatch (incoming nodes edges id) ≡ false
    → any is_open (incoming nodes edges id) ≡ false
    → AllMet nodes edges id
unfolding incoming
incoming-AllMet nodes [] id linked fits ended = tt
incoming-AllMet nodes (e ∷ edges) id linked fits ended =
    elim (Option-cases (nodes e.from_node_run_id)) [
      | inl missing ↦ absurd (ground arith)
      | inr (n, there) ↦ elim (Bool-cases (e.to_node_run_id == id)) [
        | inr other ↦ (
          ground arith,
          incoming-AllMet nodes edges id linked.1 (rw other at fits) (rw other at ended),
        )
        | inl mine ↦
            let fits' = (rw (mine, there) at fits) in
            let ended' = (rw (mine, there) at ended) in
            (ground arith, incoming-AllMet nodes edges id linked.1 (ground arith) (ground arith))
      ]
    ]

pub ready-AllMet :
    (v : Invocation) (id : ℕ)
    → Linked v
    → dependency_decision (incoming v.nodes v.edges id) ≡ DependencyDecision.ready
    → AllMet v.nodes v.edges id
ready-AllMet v id linked h =
    let all = incoming v.nodes v.edges id in
    let same = sym (dependency_decision-any all) ∙ h in
    elim (Bool-cases (any is_mismatch all)) [
      | inl bad ↦ absurd (cc (rw bad at same))
      | inr fits ↦ elim (Bool-cases (any is_open all)) [
        | inl waits ↦ absurd (cc (rw (fits, waits) at same))
        | inr ended ↦ incoming-AllMet v.nodes v.edges id linked fits ended
      ]
    ]

-- ===== src/Tests/Chain.antt =====
-- Three Jobs in a row: the first has succeeded, the second starts, the third waits.
use crono.Prelude.{
  ℕ, ◌≡◌, refl, inl, inr, ◌==◌, if◌then◌else◌, Bool-cases, none, some, Option, true, [], ◌∷◌, ok,
}
use crono.Dispatch.Create.{
  create_normal_run, insert_run, create_attempt_and_outbox, insert_run_event,
}
use crono.Workflow.Graph.{DependencyCondition}
use crono.Workflow.Join.{WorkflowNodeState, decide, dependency_decision}
use crono.Orchestration.Invocation.{
  Invocation, NodeRun, RunEdge, linked, node_is_pending, activate, create_runs, statuses,
  complete_node, outgoing, incoming, follow, visit_node, propagate, finish, complete_all, advance,
  activate_roots,
}
use crono.Orchestration.Complete.{Waits, ==-eq}
use crono.Orchestration.Remaining.{clash, advance_remaining}
use crono.Tests.Orchestration.{fresh, execution, waiting_node, edge, inserted, one_done, answered}

abbrev running_node : NodeRun
running_node = record {
  job_id = 3;
  state = WorkflowNodeState.running;
  started_at = some 100;
  finished_at = none;
  executions = linked (execution 11) ∷ [];
}

abbrev row : ℕ → Option NodeRun
row k =
    if k == 1
    then some running_node
    else if k == 2
    then some (waiting_node 12)
    else if k == 3
    then some (waiting_node 13)
    else none

abbrev last_edge : RunEdge
last_edge = record {
  from_node_run_id = 2;
  to_node_run_id = 3;
  condition = DependencyCondition.always;
}

abbrev chain : Invocation
chain = record inserted {
  store = one_done.store;
  members = 1 ∷ 2 ∷ 3 ∷ [];
  edges = edge ∷ last_edge ∷ [];
  nodes = row;
}

chain-Waits :
    (k : ℕ) (n : NodeRun) → row k ≡ some n → node_is_pending n.state ≡ true → Waits chain k
unfolding incoming dependency_decision decide
chain-Waits k n at pending = elim (Bool-cases (k == 1)) [
  | inl first ↦ absurd (clash running_node n (rw first at at) refl pending)
  | inr later ↦ elim (Bool-cases (k == 2)) [
    | inl second ↦ rw (==-eq k 2 second) refl
    | inr nor ↦ elim (Bool-cases (k == 3)) [
      | inl third ↦ rw (==-eq k 3 third) refl
      | inr neither ↦ absurd (cc (rw (later, nor, neither) at at))
    ]
  ]
]

abbrev advanced : Invocation
advanced = answered (advance 200 fresh 9 (1 ∷ []) chain)

chain_facts :
    (advance 200 fresh 9 (1 ∷ []) chain ≡ some (ok advanced))
    × (advanced.nodes 3 ≡ some (waiting_node 13))
unfolding advance complete_all complete_node statuses outgoing incoming propagate visit_node follow
    dependency_decision decide finish activate_roots activate create_runs create_normal_run
    insert_run create_attempt_and_outbox insert_run_event
chain_facts = (refl, refl)

advance_remaining_example : Waits advanced 3
advance_remaining_example =
    advance_remaining 200 fresh 9 (1 ∷ []) chain advanced (refl, refl) chain-Waits chain_facts.0 3
      (waiting_node 13) chain_facts.1 refl

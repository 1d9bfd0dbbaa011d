-- ===== src/Tests/Orchestration.antt =====
-- A Workflow of two Jobs: the second runs when the first has succeeded.
use crono.Prelude.{
  ℕ, ◌≤◌, ◌<◌, ◌≡◌, ◌⊎◌, refl, sym, ap, ◌∙◌, inl, inr, ◌==◌, if◌then◌else◌, Bool-cases, arith, none,
  some, Option, true, false, List, [], ◌∷◌, Memᴰ, length, ◌+◌, Result, ok, err,
}
use mathlib.Core.Option
use crono.Dispatch.Status.{RunStatus}
use crono.Dispatch.Tables.{StoreError, Store, Run, is_none}
use crono.Dispatch.Create.{
  Fresh, create_normal_run, insert_run, create_attempt_and_outbox, insert_run_event,
}
use crono.Dispatch.Guarantees.{empty_store}
use crono.Workflow.Graph.{DependencyCondition}
use crono.Workflow.Join.{WorkflowNodeState, is_terminal, matches, dependency_decision, decide}
use crono.Orchestration.Invocation.{
  Invocation, NodeRun, NodeExecution, RunEdge, WorkflowState, is_running, is_startable, activate,
  create_runs, statuses, complete_node, outgoing, incoming, follow, visit_node, propagate, finish,
  complete_all, advance, activate_roots, cancel,
}
use crono.Orchestration.NodeMoves.{stage}
use crono.Orchestration.Propagate.{spare, propagate_ends}
use crono.Orchestration.Guarantees.{
  Step, Steps, IsNew, Reached, Reached-IsStarted, Reached-ended, Steps-forward_node, Steps-final,
}

abbrev pub fresh : ℕ → Fresh
fresh run_id = record { attempt_id = run_id; dispatch_id = run_id }

abbrev pub execution : ℕ → NodeExecution
execution run_id = record {
  target_id = 7;
  prospective_run_id = run_id;
  queue_id = 9;
  max_attempts = 1;
  execution_snapshot = record {
    idempotent = false;
    queue_id = 9;
    retry_initial_seconds = 1;
    retry_max_seconds = 60;
  };
  run_id = none;
}

abbrev pub waiting_node : ℕ → NodeRun
waiting_node run_id = record {
  job_id = 3;
  state = WorkflowNodeState.pending;
  started_at = none;
  finished_at = none;
  executions = execution run_id ∷ [];
}

abbrev pub nodes : ℕ → Option NodeRun
nodes k = if k == 1 then some (waiting_node 11) else if k == 2 then some (waiting_node 12) else none

abbrev pub edge : RunEdge
edge = record { from_node_run_id = 1; to_node_run_id = 2; condition = DependencyCondition.success }

abbrev pub inserted : Invocation
inserted = record {
  state = WorkflowState.running;
  cancellation_requested = false;
  finished_at = none;
  members = 1 ∷ 2 ∷ [];
  edges = edge ∷ [];
  nodes = nodes;
  store = empty_store;
}

nodes-blank : (k : ℕ) (n : NodeRun) → nodes k ≡ some n → is_none n.started_at ≡ true
nodes-blank k n at = elim (Bool-cases (k == 1)) [
  | inl first ↦ blank_row (waiting_node 11) n refl (rw first at at)
  | inr other ↦ elim (Bool-cases (k == 2)) [
    | inl second ↦ blank_row (waiting_node 12) n refl (rw (other, second) at at)
    | inr neither ↦ absurd (cc (rw (other, neither) at at))
  ]
]
  where
    blank_row :
        (m n : NodeRun)
        → is_none m.started_at ≡ true
        → some m ≡ some n
        → is_none n.started_at ≡ true
    blank_row m n blank same =
        let one : m ≡ n = cc (same) in ap (λ (x : NodeRun). is_none x.started_at) (sym one) ∙ blank

inserted-IsNew : IsNew inserted
inserted-IsNew = record { runs = refl; blank = nodes-blank; linked = (refl, tt) }

abbrev pub committed : Result StoreError Invocation → Invocation
committed (ok w) = w
committed (err e) = inserted

abbrev pub answered : Option (Result StoreError Invocation) → Invocation
answered none = inserted
answered (some r) = committed r

abbrev pub launched_at : Invocation
launched_at = committed (activate_roots 100 fresh inserted.members inserted)

roots_activated : activate_roots 100 fresh inserted.members inserted ≡ ok launched_at
unfolding activate_roots activate create_runs create_normal_run insert_run create_attempt_and_outbox
    insert_run_event
roots_activated = refl

-- the first Run succeeds
abbrev pub succeed : Store → Store
succeed s = record s {
  runs = λ k. Option.map (λ (r : Run). record r { status = RunStatus.succeeded }) (s.runs k);
}

abbrev pub one_done : Invocation
one_done = record launched_at { store = succeed launched_at.store }

abbrev pub second_started : Invocation
second_started = answered (advance 200 fresh 4 (1 ∷ []) one_done)

second_advanced : advance 200 fresh 4 (1 ∷ []) one_done ≡ some (ok second_started)
unfolding advance complete_all complete_node statuses outgoing incoming propagate visit_node follow
    dependency_decision decide finish activate_roots activate create_runs create_normal_run
    insert_run create_attempt_and_outbox insert_run_event
second_advanced = refl

second-Reached : Reached second_started
second-Reached = Reached.launched 100 fresh inserted launched_at inserted-IsNew roots_activated (
    Steps.after one_done second_started
      (Steps.after launched_at one_done Steps.none_yet
        (Step.dispatched (succeed launched_at.store)))
      (Step.advanced 200 fresh 4 (1 ∷ []) second_started second_advanced))

abbrev pub node_of : Invocation → ℕ → NodeRun
node_of w k = Option.get_or (w.nodes k) (waiting_node 0)

second_facts :
    (second_started.nodes 2 ≡ some (node_of second_started 2))
    × (is_none (node_of second_started 2).started_at ≡ false)
    × Memᴰ edge second_started.edges
unfolding advance complete_all complete_node statuses outgoing incoming propagate visit_node follow
    dependency_decision decide finish activate_roots activate create_runs create_normal_run
    insert_run create_attempt_and_outbox insert_run_event
second_facts = (refl, refl, Memᴰ.head refl)

-- the second Run succeeds
abbrev pub both_done : Invocation
both_done = record second_started { store = succeed second_started.store }

abbrev pub all_ended : Invocation
all_ended = answered (advance 300 fresh 4 (2 ∷ []) both_done)

all_advanced : advance 300 fresh 4 (2 ∷ []) both_done ≡ some (ok all_ended)
unfolding advance complete_all complete_node statuses outgoing incoming propagate visit_node follow
    dependency_decision decide finish activate_roots activate create_runs create_normal_run
    insert_run create_attempt_and_outbox insert_run_event
all_advanced = refl

all_reached : Steps second_started all_ended
all_reached =
    Steps.after both_done all_ended
      (Steps.after second_started both_done Steps.none_yet
        (Step.dispatched (succeed second_started.store)))
      (Step.advanced 300 fresh 4 (2 ∷ []) all_ended all_advanced)

ended-Reached : Reached all_ended
ended-Reached = Reached.launched 100 fresh inserted launched_at inserted-IsNew roots_activated (
    Steps.after both_done all_ended
      (Steps.after second_started both_done
        (Steps.after one_done second_started
          (Steps.after launched_at one_done Steps.none_yet
            (Step.dispatched (succeed launched_at.store)))
          (Step.advanced 200 fresh 4 (1 ∷ []) second_started second_advanced))
        (Step.dispatched (succeed second_started.store)))
      (Step.advanced 300 fresh 4 (2 ∷ []) all_ended all_advanced))

abbrev pub two_visits : List ℕ
two_visits = 2 ∷ 2 ∷ []

ended_facts :
    (all_ended.state ≡ WorkflowState.succeeded)
    × (is_running all_ended.state ≡ false)
    × Memᴰ 1 all_ended.members
    × (all_ended.nodes 1 ≡ some (node_of all_ended 1))
    × (length two_visits + spare launched_at.nodes launched_at.edges < 4)
unfolding advance complete_all complete_node statuses outgoing incoming propagate visit_node follow
    dependency_decision decide finish activate_roots activate create_runs create_normal_run
    insert_run create_attempt_and_outbox insert_run_event spare
ended_facts = (refl, refl, Memᴰ.head refl, refl, omega arith)

Reached-IsStarted_example :
    (m : NodeRun) × (second_started.nodes edge.from_node_run_id ≡ some m)
    × (is_terminal m.state ≡ true)
    × (matches edge.condition m.state ≡ true)
Reached-IsStarted_example =
    Reached-IsStarted second_started 2 (node_of second_started 2) edge second-Reached second_facts.0
      second_facts.1 second_facts.2 refl

Reached-ended_example : is_terminal (node_of all_ended 1).state ≡ true
Reached-ended_example =
    Reached-ended all_ended 1 (node_of all_ended 1) ended-Reached ended_facts.1 ended_facts.2
      ended_facts.3

Steps-forward_node_example :
    (m : NodeRun) × (all_ended.nodes 2 ≡ some m)
    × (stage (node_of second_started 2).state ≤ stage m.state)
    × ((is_terminal (node_of second_started 2).state ≡ false) ⊎ (m ≡ node_of second_started 2))
    × ((is_startable (node_of second_started 2).state ≡ true)
        ⊎ (m.started_at ≡ (node_of second_started 2).started_at))
Steps-forward_node_example =
    Steps-forward_node second_started all_ended 2 (node_of second_started 2) second-Reached
      all_reached second_facts.0

Steps-final_example : (cancel 400 all_ended).state ≡ all_ended.state
Steps-final_example =
    Steps-final all_ended (cancel 400 all_ended) ended-Reached
      (Steps.after all_ended (cancel 400 all_ended) Steps.none_yet (Step.cancelled 400))
      ended_facts.1

propagate_ends_example :
    (r : Result StoreError Invocation) × (propagate 200 fresh 4 two_visits launched_at ≡ some r)
propagate_ends_example = propagate_ends 200 fresh 4 two_visits launched_at ended_facts.4

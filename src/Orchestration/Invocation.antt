-- ===== src/Orchestration/Invocation.antt =====
-- infrastructure/postgres/workflows.rs: `activate`, `complete_node`, `outgoing`, `propagate`,
-- `finish`, `cancel`, the roots of `start` and the transaction of `reconcile`. The row lock of the
-- invocation lets one of them run at a time, and an `err` rolls all of it back.
use mathlib.Core.Option
use crono.Prelude.{
  ℕ, zero, suc, Bool, true, false, not, ◌&&◌, Option, none, some, List, [], ◌∷◌, ◌++◌, map, any,
  ◌==◌, if◌then◌else◌, Result, ok, err, ◌>>=◌,
}
use crono.Dispatch.Status.{RunStatus}
use crono.Dispatch.Status as Status
use crono.Dispatch.Tables.{StoreError, ExecutionSnapshot, Store, Table, update_where, affects}
use crono.Dispatch.Create.{Fresh, PreparedRun, create_normal_run}
use crono.Workflow.Graph.{DependencyCondition}
use crono.Workflow.Join.{
  WorkflowNodeState, DependencyDecision, Dependency, is_terminal, dependency_decision,
}

pub data WorkflowState : Type 0 where
  pending running succeeded failed cancelled : WorkflowState

-- a row of `workflow_node_executions`
pub record NodeExecution : Type 0 where
  pub target_id : ℕ
  pub prospective_run_id : ℕ
  pub queue_id : ℕ
  pub max_attempts : ℕ
  pub execution_snapshot : ExecutionSnapshot
  pub run_id : Option ℕ

-- a row of `workflow_node_runs`, with its executions by Target
pub record NodeRun : Type 0 where
  pub job_id : ℕ
  pub state : WorkflowNodeState
  pub started_at : Option ℕ
  pub finished_at : Option ℕ
  pub executions : List NodeExecution

-- a row of `workflow_run_edges`
pub record RunEdge : Type 0 where
  pub from_node_run_id : ℕ
  pub to_node_run_id : ℕ
  pub condition : DependencyCondition

-- A row of `workflow_runs` with its edges, the node runs, of which `members` are its own, and the
-- dispatch tables.
pub record Invocation : Type 0 where
  pub state : WorkflowState
  pub cancellation_requested : Bool
  pub finished_at : Option ℕ
  pub members : List ℕ
  pub edges : List RunEdge
  pub nodes : Table NodeRun
  pub store : Store

abbrev pub is_running : WorkflowState → Bool
is_running WorkflowState.running = true
is_running other = false

abbrev pub node_is_pending : WorkflowNodeState → Bool
node_is_pending WorkflowNodeState.pending = true
node_is_pending other = false

abbrev pub node_is_running : WorkflowNodeState → Bool
node_is_running WorkflowNodeState.running = true
node_is_running other = false

-- `state IN ('pending', 'ready')`
abbrev pub is_startable : WorkflowNodeState → Bool
is_startable WorkflowNodeState.pending = true
is_startable WorkflowNodeState.ready = true
is_startable other = false

abbrev pub prepared : ℕ → ℕ → NodeExecution → PreparedRun
prepared node_id job_id e = record {
  id = e.prospective_run_id;
  request_id = node_id;
  job_id = job_id;
  target_id = e.target_id;
  queue_id = e.queue_id;
  max_attempts = e.max_attempts;
  snapshot = e.execution_snapshot;
}

-- the Runs of a node; `fresh` draws the UUIDs of a Run's Attempt
unfoldable pub create_runs :
    ℕ → (ℕ → Fresh) → ℕ → ℕ → List NodeExecution → Store → Result StoreError Store
create_runs now fresh node_id job_id [] s = ok s
create_runs now fresh node_id job_id (e ∷ executions) s =
    create_normal_run now (fresh e.prospective_run_id) (prepared node_id job_id e) s
    >>= create_runs now fresh node_id job_id executions

-- `SET run_id = prospective_run_id … AND run_id IS NULL`
abbrev pub linked : NodeExecution → NodeExecution
linked e = record e { run_id = some (Option.get_or e.run_id e.prospective_run_id) }

abbrev pub start_node : ℕ → ℕ → Invocation → Invocation
start_node now id w = record w {
  nodes =
      update_where w.nodes id (λ n. is_startable n.state)
        (λ n. record n {
          state = WorkflowNodeState.running;
          started_at = some now;
          executions = map linked n.executions;
        });
}

unfoldable pub activate : ℕ → (ℕ → Fresh) → ℕ → Invocation → Result StoreError Invocation
activate now fresh id w = elim (w.nodes id) [
  | none ↦ ok w
  | some n ↦
      let created = create_runs now fresh id n.job_id n.executions w.store in
      if is_startable n.state && not w.cancellation_requested && is_running w.state
      then (created >>= λ s. ok (record (start_node now id w) { store = s }))
      else ok w
]

-- the states of the Runs that a node has
unfoldable pub statuses : Store → List NodeExecution → List RunStatus
statuses s [] = []
statuses s (e ∷ executions) =
    let rest = statuses s executions in
    elim e.run_id [
      | none ↦ rest
      | some run_id ↦ elim (s.runs run_id) [ none ↦ rest | some run ↦ run.status ∷ rest ]
    ]

abbrev pub is_unknown : RunStatus → Bool
is_unknown RunStatus.unknown = true
is_unknown other = false

abbrev pub is_failed : RunStatus → Bool
is_failed RunStatus.failed = true
is_failed RunStatus.dead = true
is_failed other = false

abbrev pub is_cancelled : RunStatus → Bool
is_cancelled RunStatus.cancelled = true
is_cancelled other = false

abbrev pub is_skipped : RunStatus → Bool
is_skipped RunStatus.skipped = true
is_skipped other = false

-- the state that a node takes from the states of its Runs
abbrev pub outcome : List RunStatus → WorkflowNodeState
outcome all =
    if any is_unknown all
    then WorkflowNodeState.unknown
    else if any is_failed all
    then WorkflowNodeState.failed
    else if any is_cancelled all
    then WorkflowNodeState.cancelled
    else if any is_skipped all
    then WorkflowNodeState.skipped
    else WorkflowNodeState.succeeded

-- `statuses.is_empty() || …`: the four states in the list are those that are not terminal
abbrev pub is_unsettled : List RunStatus → Bool
is_unsettled [] = true
is_unsettled (status ∷ all) = any (λ r. not (Status.is_terminal r)) (status ∷ all)

abbrev pub settle_node : ℕ → ℕ → WorkflowNodeState → Invocation → Invocation
settle_node now id state w = record w {
  nodes =
      update_where w.nodes id (λ n. node_is_running n.state)
        (λ n. record n { state = state; finished_at = some now });
}

unfoldable pub complete_node : ℕ → ℕ → Invocation → Invocation × Bool
complete_node now id w = elim (w.nodes id) [
  | none ↦ (w, false)
  | some n ↦
      let all = statuses w.store n.executions in
      if is_unsettled all
      then (w, false)
      else (settle_node now id (outcome all) w, node_is_running n.state)
]

unfoldable pub outgoing : List RunEdge → ℕ → List ℕ
outgoing [] id = []
outgoing (e ∷ edges) id =
    let rest = outgoing edges id in
    if e.from_node_run_id == id then e.to_node_run_id ∷ rest else rest

-- The dependencies of a node, in the order of the edges: `dependency_decision` does not depend on
-- it. The stored names of conditions and states are taken to be valid.
unfoldable pub incoming : Table NodeRun → List RunEdge → ℕ → List Dependency
incoming nodes [] id = []
incoming nodes (e ∷ edges) id =
    let rest = incoming nodes edges id in
    if e.to_node_run_id == id
    then elim (nodes e.from_node_run_id) [ none ↦ rest | some n ↦ (e.condition, n.state) ∷ rest ]
    else rest

abbrev pub skip_node : ℕ → ℕ → Invocation → Invocation
skip_node now id w = record w {
  nodes =
      update_where w.nodes id (λ n. node_is_pending n.state)
        (λ n. record n { state = WorkflowNodeState.skipped; finished_at = some now });
}

-- the `match dependency_decision`, with what it adds to the queue
unfoldable pub follow :
    ℕ → (ℕ → Fresh) → ℕ → Invocation → DependencyDecision → Result StoreError (Invocation × List ℕ)
follow now fresh id w DependencyDecision.waiting = ok (w, [])
follow now fresh id w DependencyDecision.ready = activate now fresh id w >>= λ v. ok (v, [])
follow now fresh id w DependencyDecision.skipped = ok (skip_node now id w, outgoing w.edges id)

-- a round of the `while let`; `fetch_one` fails where the node is missing
unfoldable pub visit_node :
    ℕ → (ℕ → Fresh) → ℕ → Invocation → Result StoreError (Invocation × List ℕ)
visit_node now fresh id w = elim (w.nodes id) [
  | none ↦ err StoreError.internal
  | some n ↦
      if node_is_pending n.state && not w.cancellation_requested
      then follow now fresh id w (dependency_decision (incoming w.nodes w.edges id))
      else ok (w, [])
]

-- `none` where the fuel runs out
unfoldable pub propagate :
    ℕ → (ℕ → Fresh) → ℕ → List ℕ → Invocation → Option (Result StoreError Invocation)
propagate now fresh zero queue w = none
propagate now fresh (suc fuel) [] w = some (ok w)
propagate now fresh (suc fuel) (id ∷ queue) w = elim (visit_node now fresh id w) [
  | err e ↦ some (err e)
  | ok (v, more) ↦ propagate now fresh fuel (queue ++ more) v
]

-- a member in one of the states
abbrev pub exists_member : (WorkflowNodeState → Bool) → Table NodeRun → List ℕ → Bool
exists_member test nodes = any (λ id. affects nodes id (λ n. test n.state))

-- `state IN ('failed', 'unknown', 'cancelled')`
abbrev pub is_bad : WorkflowNodeState → Bool
is_bad WorkflowNodeState.failed = true
is_bad WorkflowNodeState.unknown = true
is_bad WorkflowNodeState.cancelled = true
is_bad other = false

-- the CASE of `finish`
abbrev pub result_of : Invocation → WorkflowState
result_of w =
    if w.cancellation_requested
    then WorkflowState.cancelled
    else if exists_member is_bad w.nodes w.members
    then WorkflowState.failed
    else WorkflowState.succeeded

-- `state IN ('pending', 'ready', 'running')` are the states that are not terminal
unfoldable pub finish : ℕ → Invocation → Invocation
finish now w =
    if is_running w.state && not (exists_member (λ s. not (is_terminal s)) w.nodes w.members)
    then record w { state = result_of w; finished_at = some now }
    else w

-- `workflow_run_id = $1 AND state IN ('pending', 'ready')`
unfoldable pub cancel_nodes : ℕ → List ℕ → Table NodeRun → Table NodeRun
cancel_nodes now [] nodes = nodes
cancel_nodes now (id ∷ members) nodes = cancel_nodes now members (
    update_where nodes id (λ n. is_startable n.state)
      (λ n. record n { state = WorkflowNodeState.cancelled; finished_at = some now }))

-- `cancel`, without the record that it returns
unfoldable pub cancel : ℕ → Invocation → Invocation
unfolding finish cancel_nodes
cancel now w =
    if is_running w.state
    then finish now
        (record w { cancellation_requested = true; nodes = cancel_nodes now w.members w.nodes })
    else w

-- the `for node_id in affected`, with the queue
unfoldable pub complete_all : ℕ → List ℕ → Invocation → List ℕ → Invocation × List ℕ
complete_all now [] w queue = (w, queue)
complete_all now (id ∷ affected) w queue =
    let done = complete_node now id w in
    let more = if done.1 then outgoing w.edges id else [] in
    complete_all now affected done.0 (queue ++ more)

-- The transaction of `reconcile`, for one invocation: `affected` are the nodes of its completion
-- events, which it deletes at the end.
unfoldable pub advance :
    ℕ → (ℕ → Fresh) → ℕ → List ℕ → Invocation → Option (Result StoreError Invocation)
unfolding complete_all propagate finish
advance now fresh fuel affected w =
    let (v, queue) = complete_all now affected w [] in
    elim (propagate now fresh fuel queue v) [
      | none ↦ none
      | some (err e) ↦ some (err e)
      | some (ok u) ↦ some (ok (finish now u))
    ]

-- the last loop of `start`: the nodes that no edge leads to
unfoldable pub activate_roots : ℕ → (ℕ → Fresh) → List ℕ → Invocation → Result StoreError Invocation
activate_roots now fresh [] w = ok w
activate_roots now fresh (id ∷ members) w =
    let next = activate_roots now fresh members in
    if any (λ e. e.to_node_run_id == id) w.edges then next w else activate now fresh id w >>= next

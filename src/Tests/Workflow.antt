-- ===== src/Tests/Workflow.antt =====
-- A diamond of four Jobs, and a cycle.
use Prim.Native.String.{String}
use crono.Prelude.{
  ℕ, suc, ◌≤◌, ◌≡◌, ◌↔◌, refl, none, some, List, [], ◌∷◌, length, any, if◌then◌else◌, Result, ok,
  err,
}
use mathlib.Core.List.{Permᴰ}
use crono.Workflow.Graph.{
  WorkflowNode, WorkflowEdge, WorkflowDefinition, DependencyCondition, Links, no_links, add_nodes,
  add_edges, visit, roots, relax, place, verdict, search_graph, validate,
}
use crono.Workflow.Verdict.{IsValid, Walk, validate_iff, visit_ends, validate-acyclic}
use crono.Workflow.Join.{
  WorkflowNodeState, DependencyDecision, Dependency, dependency_decision, dependency_decision-any,
  dependency_decision_reordered, is_mismatch, is_open,
}

abbrev nodes : List WorkflowNode
nodes =
    record { name = "build"; job_id = 1 }
    ∷ record { name = "deploy"; job_id = 2 }
    ∷ record { name = "test"; job_id = 3 }
    ∷ record { name = "audit"; job_id = 4 }
    ∷ []

abbrev to_test : WorkflowEdge
to_test = record { from = "build"; to = "test"; condition = DependencyCondition.success }

abbrev edges : List WorkflowEdge
edges =
    to_test
    ∷ record { from = "build"; to = "audit"; condition = DependencyCondition.always }
    ∷ record { from = "test"; to = "deploy"; condition = DependencyCondition.success }
    ∷ record { from = "audit"; to = "deploy"; condition = DependencyCondition.success }
    ∷ []

abbrev diamond : WorkflowDefinition
diamond = record { name = "release"; description = none; nodes = nodes; edges = edges }

abbrev back : WorkflowEdge
back = record { from = "deploy"; to = "build"; condition = DependencyCondition.failure }

abbrev cyclic : WorkflowDefinition
cyclic = record { name = "release"; description = none; nodes = nodes; edges = back ∷ edges }

diamond_accepted : validate diamond ≡ ok tt
unfolding validate add_nodes place add_edges search_graph verdict visit relax roots
diamond_accepted = refl

cyclic_rejected : validate cyclic ≡ err "Workflow dependencies must not contain cycles"
unfolding validate add_nodes place add_edges search_graph verdict visit relax roots
cyclic_rejected = refl

-- the keys and the links of the cycle
abbrev keys : Result String (List String) → List String
keys (ok names) = names
keys (err e) = []

abbrev built : Result String Links → Links
built (ok l) = l
built (err e) = no_links

abbrev cyclic_names : List String
cyclic_names = "audit" ∷ "build" ∷ "deploy" ∷ "test" ∷ []

abbrev cyclic_links : Links
cyclic_links = built (add_edges cyclic_names cyclic.edges no_links)

cyclic_placed : add_nodes cyclic.nodes [] ≡ ok cyclic_names
unfolding add_nodes place
cyclic_placed = refl

cyclic_linked : add_edges cyclic_names cyclic.edges no_links ≡ ok cyclic_links
unfolding add_edges
cyclic_linked = refl

validate_iff_example : validate diamond ≡ ok tt ↔ IsValid diamond
validate_iff_example = validate_iff diamond

validate-acyclic_example : ¬ Walk diamond.edges "build" "build"
validate-acyclic_example = validate-acyclic diamond "build" diamond_accepted

visit_ends_example :
    (n : ℕ) × (visit cyclic_names cyclic_links.outgoing
        (suc (length cyclic.nodes))
        0
        cyclic_links.incoming
        (roots cyclic_links.incoming cyclic_names)
      ≡ some n)
    × (n ≤ length cyclic.nodes)
visit_ends_example = visit_ends cyclic cyclic_names cyclic_links cyclic_placed cyclic_linked

abbrev held : Dependency
held = (DependencyCondition.always, WorkflowNodeState.running)

abbrev missed : Dependency
missed = (DependencyCondition.success, WorkflowNodeState.failed)

dependency_decision-any_example : dependency_decision (held ∷ missed ∷ []) ≡ (
    if any is_mismatch (held ∷ missed ∷ [])
    then DependencyDecision.skipped
    else if any is_open (held ∷ missed ∷ [])
    then DependencyDecision.waiting
    else DependencyDecision.ready)
dependency_decision-any_example = dependency_decision-any (held ∷ missed ∷ [])

dependency_decision_reordered_example :
    dependency_decision (held ∷ missed ∷ []) ≡ dependency_decision (missed ∷ held ∷ [])
dependency_decision_reordered_example =
    dependency_decision_reordered (held ∷ missed ∷ []) (missed ∷ held ∷ []) (Permᴰ.swap refl refl)

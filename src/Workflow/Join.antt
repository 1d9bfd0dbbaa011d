-- ===== src/Workflow/Join.antt =====
-- domain/workflow.rs: the states of a node and `dependency_decision`, the AND join of its incoming
-- dependencies.
use crono.Prelude.{
  ◌≡◌, refl, ◌∙◌, true, false, ◌&&◌, ◌||◌, not, List, [], ◌∷◌, any, if◌then◌else◌, arith, Bool,
}
use mathlib.Core.List.{Permᴰ}
use crono.Workflow.Graph.{DependencyCondition, success, failure, always}

pub data WorkflowNodeState : Type 0 where
  pending ready running succeeded failed skipped cancelled unknown : WorkflowNodeState

pub data DependencyDecision : Type 0 where
  waiting ready skipped : DependencyDecision

abbrev pub is_terminal : WorkflowNodeState → Bool
is_terminal pending = false
is_terminal ready = false
is_terminal running = false
is_terminal succeeded = true
is_terminal failed = true
is_terminal skipped = true
is_terminal cancelled = true
is_terminal unknown = true

abbrev pub is_succeeded : WorkflowNodeState → Bool
is_succeeded succeeded = true
is_succeeded other = false

abbrev pub is_failed : WorkflowNodeState → Bool
is_failed failed = true
is_failed unknown = true
is_failed other = false

-- `let matches`
abbrev pub matches : DependencyCondition → WorkflowNodeState → Bool
matches success state = is_succeeded state
matches failure state = is_failed state
matches always state = true

abbrev pub Dependency : Type 0
Dependency = DependencyCondition × WorkflowNodeState

-- the loop; `is_waiting` is its `waiting`
unfoldable pub decide : Bool → List Dependency → DependencyDecision
decide is_waiting [] = if is_waiting then waiting else ready
decide is_waiting (d ∷ incoming) =
    let waited = decide true incoming in
    let rest = decide is_waiting incoming in
    if not (is_terminal d.1) then waited else if not (matches d.0 d.1) then skipped else rest

unfoldable pub dependency_decision : List Dependency → DependencyDecision
unfolding decide
dependency_decision incoming = decide false incoming

-- a predecessor has ended otherwise than the edge asks
abbrev pub is_mismatch : Dependency → Bool
is_mismatch d = is_terminal d.1 && not (matches d.0 d.1)

-- a predecessor has not ended
abbrev pub is_open : Dependency → Bool
is_open d = not (is_terminal d.1)

decide-any :
    (is_waiting : Bool) (incoming : List Dependency)
    → decide is_waiting incoming ≡ (
        if any is_mismatch incoming
        then skipped
        else if is_waiting || any is_open incoming
        then waiting
        else ready)
unfolding decide
decide-any is_waiting [] = ground arith
decide-any is_waiting (d ∷ incoming) =
    ground (arith, decide-any is_waiting incoming, decide-any true incoming)

-- A node is skipped just if some predecessor has ended otherwise than its edge asks, even while
-- others are open; else it waits just if some predecessor is open; else it is ready.
pub dependency_decision-any :
    (incoming : List Dependency)
    → dependency_decision incoming ≡ (
        if any is_mismatch incoming
        then skipped
        else if any is_open incoming
        then waiting
        else ready)
unfolding dependency_decision
dependency_decision-any incoming = decide-any false incoming

any_reordered :
    {A : Type 0} (test : A → Bool) {xs ys : List A} → Permᴰ xs ys → any test xs ≡ any test ys
any_reordered test Permᴰ.nil = refl
any_reordered test (Permᴰ.cons same rest) = rw (same, any_reordered test rest) refl
any_reordered test (Permᴰ.swap {a} {b} {l = l} first second) = rw (← first, ← second) (ground arith)
any_reordered test (Permᴰ.trans first second) = any_reordered test first ∙ any_reordered test second

-- The decision does not depend on the order in which the dependencies are read.
pub dependency_decision_reordered :
    (xs ys : List Dependency) → Permᴰ xs ys → dependency_decision xs ≡ dependency_decision ys
dependency_decision_reordered xs ys moved =
    rw
      (
        dependency_decision-any xs,
        dependency_decision-any ys,
        any_reordered is_mismatch moved,
        any_reordered is_open moved,
      )
      refl

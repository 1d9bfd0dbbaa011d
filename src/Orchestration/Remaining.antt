-- ===== src/Orchestration/Remaining.antt =====
-- What a whole transaction of the reconciler leaves pending.
use crono.Prelude.{
  ℕ, zero, suc, ◌≡◌, inl, inr, refl, sym, ap, ◌∙◌, true, false, not, ◌&&◌, some, List, [], ◌∷◌,
  ◌++◌, ◌==◌, if◌then◌else◌, arith, Bool-cases, Option-cases, Memᴰ, ok, ok-inj, >>=-ok,
}
use crono.Dispatch.Tables.{Table, affects}
use crono.Dispatch.Create.{Fresh}
use crono.Dispatch.Soundness.Rows.{update_where_miss}
use crono.Workflow.Join.{WorkflowNodeState, is_terminal, DependencyDecision, dependency_decision}
use crono.Orchestration.Invocation.{
  Invocation, NodeRun, is_running, node_is_pending, node_is_running, activate, statuses, outcome,
  is_unsettled, settle_node, complete_node, outgoing, incoming, skip_node, follow, visit_node,
  propagate, finish, complete_all, advance, exists_member,
}
use crono.Orchestration.Steps.{Result-cases, finished}
use crono.Orchestration.Complete.{
  Waits, IsHandled, GoesOn, ended-IsHandled, activate-IsHandled, append-[], later, ==-eq,
}

-- a node that waits need not be in the queue
dropped :
    (id : ℕ) (v : Invocation) (queue : List ℕ)
    → ((n : NodeRun) → v.nodes id ≡ some n → node_is_pending n.state ≡ true → Waits v id)
    → IsHandled v (id ∷ queue)
    → IsHandled v queue
dropped id v queue waits handled k n at pending = elim (handled k n at pending) [
  | inl fine ↦ inl fine
  | inr listed ↦ elim (Bool-cases (k == id)) [
    | inr away ↦ inr (later k id queue away listed)
    | inl same ↦
        let one = ==-eq k id same in
        let here : v.nodes id ≡ some n = ap v.nodes (sym one) ∙ at in
        inl (rw one (waits n here pending))
  ]
]

arrived :
    (v w : Invocation) (added more queue : List ℕ)
    → ◌≡◌ {A = Invocation × List ℕ} (v, added) (w, more)
    → GoesOn v × IsHandled v (queue ++ added)
    → GoesOn w × IsHandled w (queue ++ more)
arrived v w added more queue same h =
    let one : v ≡ w = ap (λ (p : Invocation × List ℕ). p.0) same in
    let two : added ≡ more = ap (λ (p : Invocation × List ℕ). p.1) same in rw (← one, ← two) h

follow-IsHandled :
    (now : ℕ) (fresh : ℕ → Fresh) (id : ℕ) (v w : Invocation) (more : List ℕ) (n : NodeRun)
    (queue : List ℕ) (decision : DependencyDecision)
    → dependency_decision (incoming v.nodes v.edges id) ≡ decision
    → GoesOn v
    → v.nodes id ≡ some n
    → node_is_pending n.state ≡ true
    → IsHandled v (id ∷ queue)
    → follow now fresh id v decision ≡ ok (w, more)
    → GoesOn w × IsHandled w (queue ++ more)
unfolding follow
follow-IsHandled now fresh id v w more n queue DependencyDecision.waiting is going there pending
      handled h =
    arrived v w [] more queue (ok-inj h)
      (going, rw (append-[] queue) (dropped id v queue (λ m at p. is) handled))
follow-IsHandled now fresh id v w more n queue DependencyDecision.ready is going there pending
      handled h =
    let (u, started, last) = >>=-ok (activate now fresh id v) (λ u. ok (u, [])) h in
    let (on, rest) =
      activate-IsHandled now fresh id v u n queue going there pending handled started in
    arrived u w [] more queue (ok-inj last) (on, rw (append-[] queue) rest)
follow-IsHandled now fresh id v w more n queue DependencyDecision.skipped is going there pending
      handled h =
    let hit : affects v.nodes id (λ n. node_is_pending n.state) ≡ true = ground arith in
    arrived (skip_node now id v) w (outgoing v.edges id) more queue (ok-inj h)
      (going, ended-IsHandled v id (λ n. node_is_pending n.state) _ queue hit (λ n. refl) handled)

pub clash :
    (n m : NodeRun)
    → some n ≡ some m
    → node_is_pending n.state ≡ false
    → node_is_pending m.state ≡ true
    → ⊥
clash n m same past pending =
    let one : n ≡ m = cc (same) in
    cc (ap (λ (x : NodeRun). node_is_pending x.state) one, past, pending)

visit_node-IsHandled :
    (now : ℕ) (fresh : ℕ → Fresh) (id : ℕ) (v w : Invocation) (more queue : List ℕ)
    → GoesOn v
    → IsHandled v (id ∷ queue)
    → visit_node now fresh id v ≡ ok (w, more)
    → GoesOn w × IsHandled w (queue ++ more)
unfolding visit_node
visit_node-IsHandled now fresh id v w more queue going handled h =
    elim (Option-cases (v.nodes id)) [
      | inl missing ↦ absurd (cc (rw (visit_node, missing) at h))
      | inr (n, there) ↦ elim (Bool-cases (node_is_pending n.state)) [
        | inr past ↦
            let closed : (node_is_pending n.state && not v.cancellation_requested) ≡ false =
              ground arith in
            arrived v w [] more queue (ok-inj (rw (visit_node, there, closed) at h)) (
              going,
              rw (append-[] queue) (
                  dropped id v queue (λ m at p. absurd (clash n m (sym there ∙ at) past p))
                    handled),
            )
        | inl pending ↦
            let active : (node_is_pending n.state && not v.cancellation_requested) ≡ true =
              ground (arith, going.1) in
            follow-IsHandled now fresh id v w more n queue
              (dependency_decision (incoming v.nodes v.edges id)) refl going there pending handled
              (rw (visit_node, there, active) at h)
      ]
    ]

propagate-IsHandled :
    (now : ℕ) (fresh : ℕ → Fresh) (fuel : ℕ) (queue : List ℕ) (v w : Invocation)
    → GoesOn v
    → IsHandled v queue
    → propagate now fresh fuel queue v ≡ some (ok w)
    → IsHandled w []
unfolding propagate
propagate-IsHandled now fresh zero queue v w going handled h = absurd (cc (h))
propagate-IsHandled now fresh (suc fuel) [] v w going handled h =
    let same : v ≡ w = cc (h) in rw (← same) handled
propagate-IsHandled now fresh (suc fuel) (id ∷ queue) v w going handled h =
    elim (Result-cases (visit_node now fresh id v)) [
      | inl (e, failed) ↦ absurd (cc (rw (propagate, failed) at h))
      | inr ((u, more), went) ↦
          let (on, rest) = visit_node-IsHandled now fresh id v u more queue going handled went in
          propagate-IsHandled now fresh fuel (queue ++ more) u w on rest (rw (propagate, went) at h)
    ]

carried : (w v : Invocation) (queue : List ℕ) → w ≡ v → IsHandled v queue → IsHandled w queue
carried w v queue same handled = rw same handled

settle-IsHandled :
    (now id : ℕ) (state : WorkflowNodeState) (v : Invocation) (n : NodeRun) (queue : List ℕ)
    → node_is_pending state ≡ false
    → v.nodes id ≡ some n
    → IsHandled v queue
    → IsHandled
        (settle_node now id state v)
        (queue ++ (if node_is_running n.state then outgoing v.edges id else []))
settle-IsHandled now id state v n queue past there handled =
    elim (Bool-cases (node_is_running n.state)) [
      | inl runs ↦
          let hit : affects v.nodes id (λ n. node_is_running n.state) ≡ true = ground arith in
          rw runs (
            ended-IsHandled v id (λ n. node_is_running n.state) _ queue hit (λ n. past)
              (λ k m at p. elim (handled k m at p) [
                | inl fine ↦ inl fine
                | inr listed ↦ inr (Memᴰ.tail listed)
              ]))
      | inr rests ↦
          let miss : affects v.nodes id (λ n. node_is_running n.state) ≡ false = ground arith in
          let same =
            update_where_miss v.nodes id (λ n. node_is_running n.state)
              (λ n. record n { state = state; finished_at = some now }) miss in
          rw (rests, append-[] queue)
            (carried (settle_node now id state v) v queue
              (ap (λ (t : Table NodeRun). record v { nodes = t }) same) handled)
    ]

complete_node-IsHandled :
    (now id : ℕ) (v : Invocation) (queue : List ℕ)
    → GoesOn v
    → IsHandled v queue
    → GoesOn (complete_node now id v).0
      × IsHandled
          (complete_node now id v).0
          (queue ++ (if (complete_node now id v).1 then outgoing v.edges id else []))
unfolding complete_node
complete_node-IsHandled now id v queue going handled = elim (Option-cases (v.nodes id)) [
  | inl missing ↦ rw (complete_node, missing, append-[] queue) (going, handled)
  | inr (n, there) ↦ elim (Bool-cases (is_unsettled (statuses v.store n.executions))) [
    | inl waits ↦ rw (complete_node, there, waits, append-[] queue) (going, handled)
    | inr settled ↦
        rw (complete_node, there, settled)
          (
            going,
            settle-IsHandled now id (outcome (statuses v.store n.executions)) v n queue
                (ground arith) there handled,
          )
  ]
]

complete_all-IsHandled :
    (now : ℕ) (affected : List ℕ) (v : Invocation) (queue : List ℕ)
    → GoesOn v
    → IsHandled v queue
    → GoesOn (complete_all now affected v queue).0
      × IsHandled (complete_all now affected v queue).0 (complete_all now affected v queue).1
unfolding complete_all
complete_all-IsHandled now [] v queue going handled = (going, handled)
complete_all-IsHandled now (id ∷ affected) v queue going handled =
    let (on, rest) = complete_node-IsHandled now id v queue going handled in
    complete_all-IsHandled now affected (complete_node now id v).0 _ on rest

finish-IsHandled : (now : ℕ) (v : Invocation) → IsHandled v [] → IsHandled (finish now v) []
unfolding finish
finish-IsHandled now v handled =
    elim (Bool-cases
      (is_running v.state && not (exists_member (λ s. not (is_terminal s)) v.nodes v.members))) [
        | inl ends ↦ rw ends handled
        | inr stays ↦ rw stays handled
      ]

-- If every pending node of an invocation waits for a predecessor, and the invocation runs and is
-- not to be cancelled, then a transaction of the reconciler that commits leaves it so: whatever the
-- completed nodes have made ready or impossible is started or skipped, at any distance.
pub advance_remaining :
    (now : ℕ) (fresh : ℕ → Fresh) (fuel : ℕ) (affected : List ℕ) (v w : Invocation)
    → GoesOn v
    → ((k : ℕ) (n : NodeRun) → v.nodes k ≡ some n → node_is_pending n.state ≡ true → Waits v k)
    → advance now fresh fuel affected v ≡ some (ok w)
    → (k : ℕ) (n : NodeRun) → w.nodes k ≡ some n
    → node_is_pending n.state ≡ true
    → Waits w k
unfolding advance
advance_remaining now fresh fuel affected v w going waits h k n at pending =
    let done = complete_all now affected v [] in
    let (on, first) =
      complete_all-IsHandled now affected v [] going (λ k n at p. inl (waits k n at p)) in
    let (u, went, last) = finished now w (propagate now fresh fuel done.1 done.0) h in
    let second = propagate-IsHandled now fresh fuel done.1 done.0 u on first went in
    let third : IsHandled w [] = rw (← last) (finish-IsHandled now u second) in
    elim (third k n at pending) [ inl fine ↦ fine | inr listed ↦ elim listed [ ] ]

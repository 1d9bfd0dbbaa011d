-- ===== src/Orchestration/Guarantees.antt =====
-- What holds of an invocation of a Workflow after every sequence of operations.
use crono.Prelude.{
  ℕ, ◌≤◌, ◌≡◌, ◌⊎◌, inl, inr, sym, ap, ◌∙◌, Bool, true, false, not, ◌&&◌, some, List, [], ◌∷◌,
  arith, Bool-cases, All-at, Memᴰ, ok,
}
use crono.Dispatch.Tables.{Store, is_none}
use crono.Dispatch.Create.{Fresh}
use crono.Dispatch.Soundness.Rows.{affects-inv}
use crono.Workflow.Join.{is_terminal, matches}
use crono.Orchestration.Invocation.{
  Invocation, NodeRun, RunEdge, is_running, is_startable, advance, cancel, activate_roots,
  exists_member,
}
use crono.Orchestration.NodeMoves.{
  stage, AllMet, AllMet-Kept, Acts, Acts-refl, Acts-trans, has_open, IsStarted, closed-Kept, opens,
}
use crono.Orchestration.Operations.{Linked, Linked-Acts, stored-Acts}
use crono.Orchestration.Steps.{advance-Acts, roots-Acts}
use crono.Orchestration.Operations.{cancel-Acts}

-- A transaction that commits: the reconciler's, a cancellation, or any other one, which leaves the
-- invocation alone and may change the dispatch tables.
pub data Step (v : Invocation) : Invocation → Type 0 where
  advanced :
      (now : ℕ) (fresh : ℕ → Fresh) (fuel : ℕ) (affected : List ℕ) (w : Invocation)
      → advance now fresh fuel affected v ≡ some (ok w)
      → Step v w
  cancelled : (now : ℕ) → Step v (cancel now v)
  dispatched : (s : Store) → Step v (record v { store = s })

pub data Steps (u : Invocation) : Invocation → Type 0 where
  none_yet : Steps u u
  after : (v w : Invocation) → Steps u v → Step v w → Steps u w

-- what `start` has inserted when it activates the roots
pub record IsNew (v : Invocation) : Type 0 where
  pub runs : is_running v.state ≡ true
  pub blank : (k : ℕ) (n : NodeRun) → v.nodes k ≡ some n → is_none n.started_at ≡ true
  pub linked : Linked v

-- an invocation that was launched, and what became of it
pub data Reached (w : Invocation) : Type 0 where
  launched :
      (now : ℕ) (fresh : ℕ → Fresh) (u v : Invocation)
      → IsNew u
      → activate_roots now fresh u.members u ≡ ok v
      → Steps v w
      → Reached w

record IsSound (w : Invocation) : Type 0 where
  linked : Linked w
  joined : (k : ℕ) → IsStarted w.nodes k → AllMet w.nodes w.edges k
  ended : is_running w.state ≡ false → has_open w ≡ false

Step-Acts : (v w : Invocation) → Linked v → Step v w → Acts v w
Step-Acts v w linked (advanced now fresh fuel affected u h) =
    advance-Acts now fresh fuel affected v u linked h
Step-Acts v w linked (cancelled now) = cancel-Acts now v
Step-Acts v w linked (dispatched s) = stored-Acts v v s (Acts-refl v)

Steps-Acts : (u w : Invocation) → Linked u → Steps u w → Acts u w
Steps-Acts u w linked none_yet = Acts-refl u
Steps-Acts u w linked (after v x steps step) =
    let before = Steps-Acts u v linked steps in
    Acts-trans u v x before (Step-Acts v x (Linked-Acts u v before linked) step)

Acts-IsSound : (v w : Invocation) → Acts v w → IsSound v → IsSound w
Acts-IsSound v w acts sound = record {
  linked = Linked-Acts v w acts sound.linked;
  joined = λ k begun. elim (acts.fair k begun) [
    | inl earlier ↦
        rw acts.edges (AllMet-Kept v.nodes w.nodes v.edges k acts.moves (sound.joined k earlier))
    | inr met ↦ rw acts.edges met
  ];
  ended = λ over. elim (acts.closing over) [
    | inr closed ↦ closed
    | inl earlier ↦
        rw acts.members
          (closed-Kept v.members v.nodes w.nodes acts.moves acts.keys (sound.ended earlier))
  ];
}

IsNew-IsSound : (v : Invocation) → IsNew v → IsSound v
IsNew-IsSound v new = record {
  linked = new.linked;
  joined = λ k (n, at, begun). absurd (ground (arith, new.blank k n at));
  ended = λ over. absurd (ground (arith, new.runs));
}

Reached-IsSound : (w : Invocation) → Reached w → IsSound w
Reached-IsSound w (launched now fresh u v new roots steps) =
    let acts = roots-Acts now fresh u.members u v roots in
    let sound = Acts-IsSound u v acts (IsNew-IsSound u new) in
    Acts-IsSound v w (Steps-Acts v w sound.linked steps) sound

both : (a b : Bool) → (a && b) ≡ true → (a ≡ true) × (b ≡ true)
both a b h = (ground arith, ground arith)

-- After any sequence of operations on a launched invocation, a node that has been started has all
-- its predecessors ended, each in the way that its edge asks.
pub Reached-IsStarted :
    (w : Invocation) (k : ℕ) (n : NodeRun) (e : RunEdge)
    → Reached w
    → w.nodes k ≡ some n
    → is_none n.started_at ≡ false
    → Memᴰ e w.edges
    → e.to_node_run_id ≡ k
    → (m : NodeRun) × (w.nodes e.from_node_run_id ≡ some m)
      × (is_terminal m.state ≡ true)
      × (matches e.condition m.state ≡ true)
Reached-IsStarted w k n e reached at begun listed into =
    let all = (Reached-IsSound w reached).joined k (n, at, begun) in
    let open_edge = All-at (λ e. opens w.nodes k e ≡ true) e w.edges all listed in
    let (m, there, good) =
      affects-inv w.nodes e.from_node_run_id
        (λ m. is_terminal m.state && matches e.condition m.state) (ground arith) in
    let (over, fits) = both (is_terminal m.state) (matches e.condition m.state) good in
    (m, there, over, fits)

closed-at :
    (members : List ℕ) (w : Invocation) (k : ℕ) (n : NodeRun)
    → exists_member (λ s. not (is_terminal s)) w.nodes members ≡ false
    → Memᴰ k members
    → w.nodes k ≡ some n
    → is_terminal n.state ≡ true
closed-at [] w k n h listed at = elim listed [ ]
closed-at (j ∷ members) w k n h (Memᴰ.head same) at =
    let here : w.nodes j ≡ some n = ap w.nodes (sym same) ∙ at in ground arith
closed-at (j ∷ members) w k n h (Memᴰ.tail rest) at = closed-at members w k n (ground arith) rest at

-- After any sequence of operations on a launched invocation, all its nodes have ended if it has.
pub Reached-ended :
    (w : Invocation) (k : ℕ) (n : NodeRun)
    → Reached w
    → is_running w.state ≡ false
    → Memᴰ k w.members
    → w.nodes k ≡ some n
    → is_terminal n.state ≡ true
Reached-ended w k n reached over listed at =
    closed-at w.members w k n ((Reached-IsSound w reached).ended over) listed at

-- Whatever sequence of operations follows, a node of a launched invocation goes forward only, its
-- row stays as it is when it has ended, and it is started once: when it is past pending and ready,
-- the instant of its start stays.
pub Steps-forward_node :
    (v w : Invocation) (k : ℕ) (n : NodeRun)
    → Reached v
    → Steps v w
    → v.nodes k ≡ some n
    → (m : NodeRun) × (w.nodes k ≡ some m)
      × (stage n.state ≤ stage m.state)
      × ((is_terminal n.state ≡ false) ⊎ (m ≡ n))
      × ((is_startable n.state ≡ true) ⊎ (m.started_at ≡ n.started_at))
Steps-forward_node v w k n reached steps at =
    let acts = Steps-Acts v w (Reached-IsSound v reached).linked steps in
    let (m, there, move) = acts.moves k n at in
    (
      m,
      there,
      move.forward,
      elim (Bool-cases (is_terminal n.state)) [
        | inl over ↦ inr (move.final over)
        | inr live ↦ inl live
      ],
      elim (Bool-cases (is_startable n.state)) [
        | inl waits ↦ inl waits
        | inr begun ↦ inr (move.started begun)
      ],
    )

-- The result of a launched invocation that has ended does not change, whatever sequence of
-- operations follows.
pub Steps-final :
    (v w : Invocation) → Reached v → Steps v w → is_running v.state ≡ false → w.state ≡ v.state
Steps-final v w reached steps over =
    (Steps-Acts v w (Reached-IsSound v reached).linked steps).final over

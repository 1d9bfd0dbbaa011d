-- ===== src/Orchestration/NodeMoves.antt =====
-- What an operation may do to the nodes of an invocation.
use crono.Prelude.{
  ℕ, ◌≤◌, ◌≡◌, ◌⊎◌, inl, inr, refl, sym, ap, ◌∙◌, Bool, true, false, not, ◌&&◌, ◌||◌, Option, none,
  some, List, [], ◌∷◌, ◌==◌, arith, Bool-cases, Option-cases, All, All-imp,
}
use crono.Dispatch.Tables.{Table, update_where, affects, is_none}
use crono.Dispatch.Moves.{Kept, update_where-Kept}
use crono.Dispatch.Soundness.Rows.{affects-inv}
use crono.Workflow.Join.{WorkflowNodeState, is_terminal, matches}
use crono.Orchestration.Invocation.{
  Invocation, NodeRun, RunEdge, is_running, is_startable, exists_member,
}

-- pending, ready, running, ended
unfoldable pub stage : WorkflowNodeState → ℕ
stage WorkflowNodeState.pending = 0
stage WorkflowNodeState.ready = 1
stage WorkflowNodeState.running = 2
stage other = 3

pub record NodeMove (a b : NodeRun) : Type 0 where
  pub final : is_terminal a.state ≡ true → b ≡ a
  pub forward : stage a.state ≤ stage b.state
  pub started : is_startable a.state ≡ false → b.started_at ≡ a.started_at

node_stays : (n : NodeRun) → NodeMove n n
node_stays n = record { final = λ _. refl; forward = omega arith; started = λ _. refl }

settled :
    (a b : WorkflowNodeState) → stage a ≤ stage b → is_startable a ≡ false → is_startable b ≡ false
unfolding stage
settled a b up h = ground arith

move_chain : (a b c : NodeRun) → NodeMove a b → NodeMove b c → NodeMove a c
move_chain a b c f g = record {
  final = λ over.
      let same = f.final over in
      g.final (ap (λ (q : NodeRun). is_terminal q.state) same ∙ over) ∙ same;
  forward = omega (arith, f.forward, g.forward);
  started = λ begun. g.started (settled a.state b.state f.forward begun) ∙ f.started begun;
}

-- the source of the edge has ended the way the edge asks
abbrev pub is_met : Table NodeRun → RunEdge → Bool
is_met nodes e =
    affects nodes e.from_node_run_id (λ m. is_terminal m.state && matches e.condition m.state)

-- an edge into `k` is met
abbrev pub opens : Table NodeRun → ℕ → RunEdge → Bool
opens nodes k e = not (e.to_node_run_id == k) || is_met nodes e

abbrev pub AllMet : Table NodeRun → List RunEdge → ℕ → Type 0
AllMet nodes edges k = All (λ e. opens nodes k e ≡ true) edges

abbrev pub has_open : Invocation → Bool
has_open w = exists_member (λ s. not (is_terminal s)) w.nodes w.members

-- The node has been started.
abbrev pub IsStarted : Table NodeRun → ℕ → Type 0
IsStarted nodes k = (n : NodeRun) × (nodes k ≡ some n) × (is_none n.started_at ≡ false)

pub record Acts (v w : Invocation) : Type 0 where
  pub edges : w.edges ≡ v.edges
  pub members : w.members ≡ v.members
  pub moves : Kept NodeMove v.nodes w.nodes
  pub keys : (k : ℕ) → is_none (w.nodes k) ≡ is_none (v.nodes k)
  -- what is started was started before, or all edges into it are met
  pub fair : (k : ℕ) → IsStarted w.nodes k → IsStarted v.nodes k ⊎ AllMet w.nodes v.edges k
  pub final : is_running v.state ≡ false → w.state ≡ v.state
  pub closing : is_running w.state ≡ false → (is_running v.state ≡ false) ⊎ (has_open w ≡ false)

-- what is met stays met
met-Kept :
    (before after : Table NodeRun) (e : RunEdge)
    → Kept NodeMove before after
    → is_met before e ≡ true
    → is_met after e ≡ true
met-Kept before after e kept h =
    let (m, at, good) = affects-inv before e.from_node_run_id _ h in
    let (n, at', move) = kept e.from_node_run_id m at in
    let same : n ≡ m = move.final (ground arith) in
    let now : after e.from_node_run_id ≡ some m = at' ∙ ap some same in ground arith

pub AllMet-Kept :
    (before after : Table NodeRun) (edges : List RunEdge) (k : ℕ)
    → Kept NodeMove before after
    → AllMet before edges k
    → AllMet after edges k
AllMet-Kept before after edges k kept =
    All-imp _ _ edges (λ e h. let met = met-Kept before after e kept in ground arith)

abbrev is_open_row : Option NodeRun → Bool
is_open_row row = elim row [ none ↦ false | some n ↦ not (is_terminal n.state) ]

open-Kept :
    (before after : Option NodeRun)
    → is_none after ≡ is_none before
    → ((x : NodeRun) → before ≡ some x → (y : NodeRun) × (after ≡ some y) × NodeMove x y)
    → is_open_row before ≡ false
    → is_open_row after ≡ false
open-Kept before none keys kept h = refl
open-Kept none (some n) keys kept h = absurd (cc (keys))
open-Kept (some m) (some n) keys kept h =
    let (y, same, move) = kept m refl in
    let gone : y ≡ m = move.final (ground arith) in
    let now : n ≡ m = cc in ap (λ (q : NodeRun). not (is_terminal q.state)) now ∙ h

pub closed-Kept :
    (members : List ℕ) (before after : Table NodeRun)
    → Kept NodeMove before after
    → ((k : ℕ) → is_none (after k) ≡ is_none (before k))
    → exists_member (λ s. not (is_terminal s)) before members ≡ false
    → exists_member (λ s. not (is_terminal s)) after members ≡ false
closed-Kept [] before after kept keys h = refl
closed-Kept (k ∷ members) before after kept keys h =
    let one = open-Kept (before k) (after k) (keys k) (kept k) (ground arith) in
    let rest = closed-Kept members before after kept keys (ground arith) in rw (one, rest) refl

pub Acts-refl : (w : Invocation) → Acts w w
Acts-refl w = record {
  edges = refl;
  members = refl;
  moves = λ k x e. (x, e, node_stays x);
  keys = λ k. refl;
  fair = λ k begun. inl begun;
  final = λ _. refl;
  closing = λ over. inl over;
}

pub Acts-trans : (u v w : Invocation) → Acts u v → Acts v w → Acts u w
Acts-trans u v w f g = record {
  edges = g.edges ∙ f.edges;
  members = g.members ∙ f.members;
  moves = λ k x e.
      let (y, e', m) = f.moves k x e in
      let (z, e'', m') = g.moves k y e' in (z, e'', move_chain x y z m m');
  keys = λ k. g.keys k ∙ f.keys k;
  fair = λ k begun. elim (g.fair k begun) [
    | inr met ↦ inr (rw (← f.edges) met)
    | inl earlier ↦ elim (f.fair k earlier) [
      | inl first ↦ inl first
      | inr met ↦ inr (AllMet-Kept v.nodes w.nodes u.edges k g.moves met)
    ]
  ];
  final = λ over. g.final (ap is_running (f.final over) ∙ over) ∙ f.final over;
  closing = λ over. elim (g.closing over) [
    | inr closed ↦ inr closed
    | inl earlier ↦ elim (f.closing earlier) [
      | inl first ↦ inl first
      | inr closed ↦
          inr (rw g.members (closed-Kept v.members v.nodes w.nodes g.moves g.keys closed))
    ]
  ];
}

update-fair :
    (w : Invocation) (id : ℕ) (test : NodeRun → Bool) (set : NodeRun → NodeRun)
    → ((n : NodeRun) → test n ≡ true → NodeMove n (set n))
    → ((n : NodeRun)
        → test n ≡ true
        → ((set n).started_at ≡ n.started_at) ⊎ AllMet w.nodes w.edges id)
    → (k : ℕ) → IsStarted (update_where w.nodes id test set) k
    → IsStarted w.nodes k ⊎ AllMet (update_where w.nodes id test set) w.edges k
update-fair w id test set move begin k (y, at, begun) = elim (Option-cases (w.nodes k)) [
  | inl missing ↦ absurd (ground arith)
  | inr (x, there) ↦ elim (Bool-cases (k == id && test x)) [
    | inr apart ↦
        let same : x ≡ y = ground arith in
        inl (x, there, ap (λ (n : NodeRun). is_none n.started_at) same ∙ begun)
    | inl hit ↦
        let now : set x ≡ y = ground arith in
        elim (begin x (ground arith)) [
          | inl kept ↦ inl (
            x,
            there,
            sym (ap is_none kept) ∙ ap (λ (n : NodeRun). is_none n.started_at) now ∙ begun,
          )
          | inr met ↦
              let here : id ≡ k = ground arith in
              inr (
                AllMet-Kept w.nodes (update_where w.nodes id test set) w.edges k
                  (update_where-Kept NodeMove node_stays w.nodes id test set move)
                  (rw (← here) met))
        ]
  ]
]

-- An update of one node.
pub update-Acts :
    (w : Invocation) (id : ℕ) (test : NodeRun → Bool) (set : NodeRun → NodeRun)
    → ((n : NodeRun) → test n ≡ true → NodeMove n (set n))
    → ((n : NodeRun)
        → test n ≡ true
        → ((set n).started_at ≡ n.started_at) ⊎ AllMet w.nodes w.edges id)
    → Acts w (record w { nodes = update_where w.nodes id test set })
update-Acts w id test set move begin =
    let kept = update_where-Kept NodeMove node_stays w.nodes id test set move in
    record {
      edges = refl;
      members = refl;
      moves = kept;
      keys = λ k. ground arith;
      fair = λ k begun. update-fair w id test set move begin k begun;
      final = λ _. refl;
      closing = λ over. inl over;
    }

-- ===== src/Dispatch/Moves.antt =====
-- How the rows of the tables move under every operation, whatever the tables hold: rows stay, and
-- what has ended does not change. The children prove it of each operation.
use Prim.Native.String.{String}
use crono.Prelude.{
  ℕ, ◌≤◌, ◌≡◌, refl, ap, ◌∙◌, Bool, true, false, Option, none, some, arith, ◌==◌, Bool-cases, inl,
  inr, if◌then◌else◌, Result, ok, List, [], ◌∷◌, >>=-ok, ok-inj, leb,
}
use crono.Dispatch.Status.{RunStatus, AttemptStatus, is_terminal, is_finished}
use crono.Dispatch.Tables.{
  Run, Attempt, Outbox, Store, StoreError, Table, update_where, insert_row, is_none,
}
use crono.Dispatch.Reconcile.{for_each}
pub mod Each
pub mod Creation
pub mod Repair
pub mod History

-- pending, queued, running, finished
abbrev pub stage : AttemptStatus → ℕ
stage AttemptStatus.pending_dispatch = 0
stage AttemptStatus.queued = 1
stage AttemptStatus.running = 2
stage _ = 3

pub record RunMoves (r r' : Run) : Type 0 where
  pub final : is_terminal r.status ≡ true → r' ≡ r
  pub snapshot : r'.execution_snapshot ≡ r.execution_snapshot

pub record AttemptMoves (a a' : Attempt) : Type 0 where
  pub final : is_finished a.status ≡ true → a' ≡ a
  pub forward : stage a.status ≤ stage a'.status
  -- a worker that has got the Attempt is the only one
  pub granted : leb 2 (stage a.status) ≡ true → a'.worker_id ≡ a.worker_id
  pub run : a'.run_id ≡ a.run_id
  pub number : a'.attempt ≡ a.attempt
  pub output : a.output_sequence ≤ a'.output_sequence

pub record OutboxMoves (o o' : Outbox) : Type 0 where
  pub attempt : o'.attempt_id ≡ o.attempt_id
  pub run : o'.run_id ≡ o.run_id
  pub published : is_none o.published_at ≡ false → o' ≡ o

abbrev pub Kept : {A : Type 0} → (A → A → Type 0) → Table A → Table A → Type 0
Kept {A = A} R before after =
    (k : ℕ) (x : A) → before k ≡ some x → (y : A) × (after k ≡ some y) × R x y

pub record Moves (s t : Store) : Type 0 where
  pub runs : Kept RunMoves s.runs t.runs
  pub attempts : Kept AttemptMoves s.attempts t.attempts
  pub outbox : Kept OutboxMoves s.outbox t.outbox

pub run_stays : (r : Run) → RunMoves r r
run_stays r = record { final = λ _. refl; snapshot = refl }

pub attempt_stays : (a : Attempt) → AttemptMoves a a
attempt_stays a = record {
  final = λ _. refl;
  forward = omega arith;
  granted = λ _. refl;
  run = refl;
  number = refl;
  output = omega arith;
}

pub outbox_stays : (o : Outbox) → OutboxMoves o o
outbox_stays o = record { attempt = refl; run = refl; published = λ _. refl }

module _ {A : Type 0} (R : A → A → Type 0) (stays : (x : A) → R x x) (table : Table A)
    (key : ℕ) where
  pub unchanged-Kept : Kept R table table
  unchanged-Kept k x e = (x, e, stays x)

  pub update_where-Kept :
      (test : A → Bool) (set : A → A)
      → ((x : A) → test x ≡ true → R x (set x))
      → Kept R table (update_where table key test set)
  update_where-Kept test set moves k x e = elim (Bool-cases (k == key)) [
    | inl same ↦ elim (Bool-cases (test x)) [
      | inl hit ↦ (set x, ground arith, moves x hit)
      | inr miss ↦ (x, ground arith, stays x)
    ]
    | inr apart ↦ (x, ground arith, stays x)
  ]

  pub insert_row-Kept : (row : A) → table key ≡ none → Kept R table (insert_row table key row)
  insert_row-Kept row absent k x e = (x, ground arith, stays x)

-- Doing nothing, and one operation behind the other.
pub Moves-refl : (s : Store) → Moves s s
Moves-refl s = record {
  runs = λ k x e. (x, e, run_stays x);
  attempts = λ k x e. (x, e, attempt_stays x);
  outbox = λ k x e. (x, e, outbox_stays x);
}

run_chain : (a b c : Run) → RunMoves a b → RunMoves b c → RunMoves a c
run_chain a b c f g = record {
  final = λ over.
      let same = f.final over in
      g.final (ap (λ (q : Run). is_terminal q.status) same ∙ over) ∙ same;
  snapshot = g.snapshot ∙ f.snapshot;
}

attempt_chain : (a b c : Attempt) → AttemptMoves a b → AttemptMoves b c → AttemptMoves a c
attempt_chain a b c f g = record {
  final = λ over.
      let same = f.final over in
      g.final (ap (λ (q : Attempt). is_finished q.status) same ∙ over) ∙ same;
  forward = omega (arith, f.forward, g.forward);
  granted = λ started.
      let later : leb 2 (stage b.status) ≡ true = ground (arith, f.forward) in
      g.granted later ∙ f.granted started;
  run = g.run ∙ f.run;
  number = g.number ∙ f.number;
  output = omega (arith, f.output, g.output);
}

outbox_chain : (a b c : Outbox) → OutboxMoves a b → OutboxMoves b c → OutboxMoves a c
outbox_chain a b c f g = record {
  attempt = g.attempt ∙ f.attempt;
  run = g.run ∙ f.run;
  published = λ done.
      let same = f.published done in
      g.published (ap (λ (q : Outbox). is_none q.published_at) same ∙ done) ∙ same;
}

pub Moves-trans : (s t u : Store) → Moves s t → Moves t u → Moves s u
Moves-trans s t u f g = record {
  runs = λ k x e.
      let (y, e', first) = f.runs k x e in
      let (z, e'', next) = g.runs k y e' in (z, e'', run_chain x y z first next);
  attempts = λ k x e.
      let (y, e', first) = f.attempts k x e in
      let (z, e'', next) = g.attempts k y e' in (z, e'', attempt_chain x y z first next);
  outbox = λ k x e.
      let (y, e', first) = f.outbox k x e in
      let (z, e'', next) = g.outbox k y e' in (z, e'', outbox_chain x y z first next);
}

pub for_each-Moves :
    {B : Type 0} (body : B → Store → Result StoreError Store)
    → ((row : B) (s t : Store) → body row s ≡ ok t → Moves s t)
    → (rows : List B) (s t : Store) → for_each body rows s ≡ ok t
    → Moves s t
unfolding for_each
for_each-Moves body moves [] s t h = rw (← ok-inj h) (Moves-refl s)
for_each-Moves body moves (row ∷ rows) s t h =
    let (m, first, rest) = >>=-ok (body row s) (for_each body rows) h in
    Moves-trans s m t (moves row s m first) (for_each-Moves body moves rows m t rest)

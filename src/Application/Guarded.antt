-- ===== src/Application/Guarded.antt =====
-- The programs of application/service.rs that keep to the table of Policy, whatever the authorizer,
-- the store and the clock answer.
pub mod Selections
pub mod Executions
pub mod Catalog
pub mod Targets
pub mod Reads
use crono.Prelude.{
  ℕ, Bool, true, false, List, [], ◌∷◌, Memᴰ, All, ◌≡◌, refl, sym, ap, inl, inr, Bool-cases, Result,
  ok, err, guard,
}
use crono.Dispatch.Tables.{StoreError}
use crono.Authorization.Capabilities.{
  Capability, ResourceScope, PermissionScope, permission_scope, accepts_resource,
}
use crono.Authorization.Grants.{VisibilityScope}
use crono.Authorization.Policy.{AuthorizationError, is_read}
use crono.Application.Program.{
  ApplicationError, Call, Answer, Program, ◌>>=◌, authorized, visible, store, store_or, checked,
}
use crono.Application.Policy.{Event, History, Allowed}
use crono.Application.Trace.{Backend, run, Lawful, Passed, Ends, Fitting}

-- The program fails at once with that error.
abbrev pub Fails : {A : Type 0} → Program A → ApplicationError → Type 0
Fails (Program.done (err failure)) e = failure ≡ e
Fails _ e = ⊥

Fails-bind :
    {A B : Type 0} (p : Program A) (f : A → Program B) (e : ApplicationError)
    → Fails p e
    → Fails (p >>= f) e
Fails-bind (Program.done (err failure)) f e h = h
Fails-bind (Program.done (ok value)) f e h = absurd h
Fails-bind (Program.check result next) f e h = absurd h
Fails-bind (Program.ask capability resource answer) f e h = absurd h
Fails-bind (Program.see capability answer) f e h = absurd h
Fails-bind (Program.call c answer) f e h = absurd h
Fails-bind (Program.now_utc answer) f e h = absurd h

Fails-run :
    {A : Type 0} (b : Backend) (h : History) (p : Program A) (e : ApplicationError)
    → Fails p e
    → run b h p ≡ (h, err e)
unfolding run
Fails-run b h (Program.done (err failure)) e same = ap (λ x. (h, err x)) same
Fails-run b h (Program.done (ok value)) e same = absurd same
Fails-run b h (Program.check result next) e same = absurd same
Fails-run b h (Program.ask capability resource answer) e same = absurd same
Fails-run b h (Program.see capability answer) e same = absurd same
Fails-run b h (Program.call c answer) e same = absurd same
Fails-run b h (Program.now_utc answer) e same = absurd same

-- `Q` holds of the history and the value at the end; a request that fails ends anywhere.
abbrev pub Guarded : {A : Type 0} → (History → A → Type 0) → History → Program A → Type 0
Guarded Q h (Program.check {X} result next) = (x : X) → result ≡ ok x → Guarded Q h (next x)
Guarded Q h (Program.done (ok value)) = Q h value
Guarded Q h (Program.done (err failure)) = Unit
Guarded Q h (Program.ask capability resource answer) =
    (accepts_resource capability resource ≡ true)
    × Guarded Q (Event.asked capability resource (ok tt) ∷ h) (answer (ok tt))
    × ((e : AuthorizationError) → Fails (answer (err e)) (ApplicationError.authorization e))
Guarded Q h (Program.see capability answer) =
    (permission_scope capability ≡ PermissionScope.namespace)
    × (is_read capability ≡ true)
    × ((v : VisibilityScope) → Guarded Q (Event.saw capability (ok v) ∷ h) (answer (ok v)))
    × ((e : AuthorizationError) → Fails (answer (err e)) (ApplicationError.authorization e))
Guarded Q h (Program.call c answer) =
    Allowed h c
    × ((a : Answer c) → Guarded Q (Event.called c (ok a) ∷ h) (answer (ok a)))
    × ((e : StoreError) → Guarded Q (Event.called c (err e) ∷ h) (answer (err e)))
Guarded Q h (Program.now_utc answer) = (t : ℕ) → Guarded Q h (answer t)

-- nothing about the end
abbrev pub Anything : {A : Type 0} → History → A → Type 0
Anything h value = Unit

module _ {A B : Type 0} (Q : History → A → Type 0) (R : History → B → Type 0) where
  pub >>=-Guarded :
      (h : History) (p : Program A) (f : A → Program B)
      → Guarded Q h p
      → ((later : History) (a : A) → Q later a → Guarded R later (f a))
      → Guarded R h (p >>= f)
  >>=-Guarded h (Program.done (ok value)) f g k = k h value g
  >>=-Guarded h (Program.done (err failure)) f g k = tt
  >>=-Guarded h (Program.check result next) f g k =
      λ x passed. >>=-Guarded h (next x) f (g x passed) k
  >>=-Guarded h (Program.ask capability resource answer) f g k = (
    g.0,
    >>=-Guarded (Event.asked capability resource (ok tt) ∷ h) (answer (ok tt)) f g.1 k,
    λ e. Fails-bind (answer (err e)) f (ApplicationError.authorization e) (g.2 e),
  )
  >>=-Guarded h (Program.see capability answer) f g k = (
    g.0,
    g.1,
    λ v. >>=-Guarded (Event.saw capability (ok v) ∷ h) (answer (ok v)) f (g.2 v) k,
    λ e. Fails-bind (answer (err e)) f (ApplicationError.authorization e) (g.3 e),
  )
  >>=-Guarded h (Program.call c answer) f g k = (
    g.0,
    λ a. >>=-Guarded (Event.called c (ok a) ∷ h) (answer (ok a)) f (g.1 a) k,
    λ e. >>=-Guarded (Event.called c (err e) ∷ h) (answer (err e)) f (g.2 e) k,
  )
  >>=-Guarded h (Program.now_utc answer) f g k = λ t. >>=-Guarded h (answer t) f (g t) k

-- what a guard leaves behind
pub guard-ok : {E : Type 0} (test : Bool) (e : E) {u : Unit {0}} → guard test e ≡ ok u → test ≡ true
guard-ok true e h = refl
guard-ok false e h = cc

module _ {A : Type 0} (Q : History → A → Type 0) (b : Backend) where
  abbrev pub Kept : History → Program A → Type 0
  Kept h p = Lawful (run b h p).0 × Ends (run b h p).0 (run b h p).1 × All Fitting (run b h p).0

  -- a result at the end of a history without refusals
  Ends-Passed : (h : History) (result : Result ApplicationError A) → All Passed h → Ends h result
  Ends-Passed [] result passed = tt
  Ends-Passed (Event.asked capability resource (ok u) ∷ h) result passed = passed.1
  Ends-Passed (Event.asked capability resource (err e) ∷ h) result passed = absurd passed.0
  Ends-Passed (Event.saw capability (ok v) ∷ h) result passed = passed.1
  Ends-Passed (Event.saw capability (err e) ∷ h) result passed = absurd passed.0
  Ends-Passed (Event.called c r ∷ h) result passed = passed.1

  -- a refusal
  refused-Kept :
      (h : History) (p : Program A) (e : AuthorizationError)
      → Fails p (ApplicationError.authorization e)
      → Lawful h
      → ((r : Result ApplicationError A) → r ≡ err (ApplicationError.authorization e) → Ends h r)
      → All Fitting h
      → Kept h p
  refused-Kept h p e fails lawful ends fitting =
      rw (Fails-run b h p (ApplicationError.authorization e) fails)
        (lawful, ends (err (ApplicationError.authorization e)) refl, fitting)

  -- What a run of such a program leaves behind.
  pub run-Kept :
      (h : History) (p : Program A)
      → Guarded Q h p
      → Lawful h
      → All Passed h
      → All Fitting h
      → Kept h p
  unfolding run
  run-Kept h (Program.done result) g lawful passed fitting =
      (lawful, Ends-Passed h result passed, fitting)
  run-Kept h (Program.check (ok x) next) g lawful passed fitting =
      run-Kept h (next x) (g x refl) lawful passed fitting
  run-Kept h (Program.check (err failure) next) g lawful passed fitting =
      (lawful, Ends-Passed h (err failure) passed, fitting)
  run-Kept h (Program.ask capability resource answer) g lawful passed fitting =
      elim (b.authorize h capability resource)
        as (λ r. Kept (Event.asked capability resource r ∷ h) (answer r)) [
          | ok u ↦
              run-Kept (Event.asked capability resource (ok u) ∷ h) (answer (ok u)) g.1 lawful
                (tt, passed) (g.0, fitting)
          | err e ↦
              refused-Kept (Event.asked capability resource (err e) ∷ h) (answer (err e)) e (g.2 e)
                lawful (λ r same. (same, passed)) (g.0, fitting)
        ]
  run-Kept h (Program.see capability answer) g lawful passed fitting =
      elim (b.visibility h capability) as (λ r. Kept (Event.saw capability r ∷ h) (answer r)) [
        | ok v ↦
            run-Kept (Event.saw capability (ok v) ∷ h) (answer (ok v)) (g.2 v) lawful (tt, passed)
              ((g.0, g.1), fitting)
        | err e ↦
            refused-Kept (Event.saw capability (err e) ∷ h) (answer (err e)) e (g.3 e) lawful
              (λ r same. (same, passed)) ((g.0, g.1), fitting)
      ]
  run-Kept h (Program.call c answer) g lawful passed fitting =
      elim (b.store h c) as (λ r. Kept (Event.called c r ∷ h) (answer r)) [
        | ok a ↦
            run-Kept (Event.called c (ok a) ∷ h) (answer (ok a)) (g.1 a) (g.0, lawful) (tt, passed)
              (tt, fitting)
        | err e ↦
            run-Kept (Event.called c (err e) ∷ h) (answer (err e)) (g.2 e) (g.0, lawful)
              (tt, passed) (tt, fitting)
      ]
  run-Kept h (Program.now_utc answer) g lawful passed fitting =
      run-Kept h (answer (b.now_utc h)) (g (b.now_utc h)) lawful passed fitting

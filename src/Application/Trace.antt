-- ===== src/Application/Trace.antt =====
-- A run of a use case of application/service.rs against an authorizer, a store and a clock, whose
-- answers may depend on everything that happened before.
use crono.Prelude.{ℕ, true, [], ◌∷◌, All, ◌≡◌, Result, ok, err}
use crono.Dispatch.Tables.{StoreError}
use crono.Authorization.Capabilities.{
  Capability, ResourceScope, PermissionScope, permission_scope, accepts_resource,
}
use crono.Authorization.Grants.{VisibilityScope}
use crono.Authorization.Policy.{AuthorizationError, is_read}
use crono.Application.Program.{ApplicationError, Call, Answer, Program}
use crono.Application.Policy.{Event, History, Allowed}

pub record Backend : Type 0 where
  pub authorize : History → Capability → ResourceScope → Result AuthorizationError (Unit {0})
  pub visibility : History → Capability → Result AuthorizationError VisibilityScope
  pub store : History → (c : Call) → Result StoreError (Answer c)
  pub now_utc : History → ℕ

-- the history of the run, and its result
unfoldable pub run :
    {A : Type 0} → Backend → History → Program A → History × Result ApplicationError A
run b h (Program.done result) = (h, result)
run b h (Program.check (ok x) next) = run b h (next x)
run b h (Program.check (err failure) next) = (h, err failure)
run b h (Program.ask capability resource answer) =
    run b (Event.asked capability resource (b.authorize h capability resource) ∷ h)
      (answer (b.authorize h capability resource))
run b h (Program.see capability answer) =
    run b (Event.saw capability (b.visibility h capability) ∷ h)
      (answer (b.visibility h capability))
run b h (Program.call c answer) = run b (Event.called c (b.store h c) ∷ h) (answer (b.store h c))
run b h (Program.now_utc answer) = run b h (answer (b.now_utc h))

-- what holds of every call, over the history when it was made
abbrev pub Each : (History → Call → Type 0) → History → Type 0
Each P [] = Unit
Each P (Event.called c result ∷ h) = P h c × Each P h
Each P (Event.asked capability resource result ∷ h) = Each P h
Each P (Event.saw capability result ∷ h) = Each P h

-- Every call of the store had the permissions that the table asks for when it was made.
abbrev pub Lawful : History → Type 0
Lawful = Each Allowed

-- The authorizer did not refuse.
abbrev pub Passed : Event → Type 0
Passed (Event.asked capability resource (err failure)) = ⊥
Passed (Event.saw capability (err failure)) = ⊥
Passed _ = Unit

-- A refusal is the last event, and it is the result.
abbrev pub Ends : {A : Type 0} → History → Result ApplicationError A → Type 0
Ends [] result = Unit
Ends (Event.asked capability resource (err failure) ∷ h) result =
    (result ≡ err (ApplicationError.authorization failure)) × All Passed h
Ends (Event.saw capability (err failure) ∷ h) result =
    (result ≡ err (ApplicationError.authorization failure)) × All Passed h
Ends (event ∷ h) result = All Passed h

-- A permission is asked for on a kind of resource that it stands for, and a visibility for reading
-- what belongs to Namespaces: the authorizer refuses anything else whatever is granted.
abbrev pub Fitting : Event → Type 0
Fitting (Event.asked capability resource result) = accepts_resource capability resource ≡ true
Fitting (Event.saw capability result) =
    (permission_scope capability ≡ PermissionScope.namespace) × (is_read capability ≡ true)
Fitting (Event.called c result) = Unit

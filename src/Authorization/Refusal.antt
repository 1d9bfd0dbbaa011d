-- ===== src/Authorization/Refusal.antt =====
-- What a refusal tells, and the authority of the fixed development identity.
use crono.Prelude.{
  ℕ, ◌↔◌, ◌≡◌, refl, sym, ap, ◌∙◌, ◌⊎◌, inl, inr, Bool, true, false, if◌then◌else◌, arith,
  Bool-cases, none, List, Result, ok, err, ◌>>=◌, Result-cases,
}
use crono.Authorization.Capabilities.{
  PermissionScope, ResourceScope, Capability, permission_scope, accepts_resource, identifier,
}
use crono.Authorization.Grants.{
  GrantSet, VisibilityScope, contains, development, development_scope, allows_global,
  allows_namespace, visibility,
}
use crono.Authorization.Visible.{Distinct}
use crono.Authorization.Decision.{Permitted, authorize_iff}
use crono.Authorization.Policy.{
  AuthorizationError, Resolver, denial, looked_up, namespace_of, authorize, authorize_scoped,
  authorize_visible, authorize_read,
}

-- the reads that must not tell whether there is anything to read
abbrev pub hides : Capability → Bool
hides Capability.run_read = true
hides Capability.workflow_read = true
hides Capability.workflow_run_read = true
hides _ = false

-- what a refusal says to a caller who lacks the authority
abbrev pub denied_as : Capability → AuthorizationError
denied_as c = if hides c then AuthorizationError.not_found else AuthorizationError.forbidden

-- a resource that needs no lookup
abbrev pub is_namespace : ResourceScope → Bool
is_namespace (ResourceScope.namespace id) = true
is_namespace _ = false

-- The reasons of a refusal. What the lookup says is told only to a caller who holds the capability
-- in some Namespaces, and only of a resource that is not itself a Namespace.
pub data Refusal (g : GrantSet) (resolver : Resolver) (c : Capability) (r : ResourceScope)
    : AuthorizationError → Type 0 where
  denied : Refusal g resolver c r (denied_as c)
  missing :
      (ids : List ℕ)
      → is_namespace r ≡ false
      → visibility g c ≡ VisibilityScope.namespaces ids
      → resolver r ≡ ok none
      → Refusal g resolver c r AuthorizationError.not_found
  failed :
      (ids : List ℕ) {e : AuthorizationError}
      → is_namespace r ≡ false
      → visibility g c ≡ VisibilityScope.namespaces ids
      → resolver r ≡ err e
      → Refusal g resolver c r e

denial-eq : (c : Capability) → denial c ≡ denied_as c
denial-eq Capability.run_read = refl
denial-eq _ = refl

-- a global capability hides nothing
global-denied_as :
    (c : Capability)
    → permission_scope c ≡ PermissionScope.global
    → denied_as c ≡ AuthorizationError.forbidden
global-denied_as Capability.run_read h = cc
global-denied_as _ h = cc

looked_up-err :
    (resolver : Resolver) (r : ResourceScope) (e : AuthorizationError)
    → looked_up resolver r ≡ err e
    → ((e ≡ AuthorizationError.not_found) × (resolver r ≡ ok none)) ⊎ (resolver r ≡ err e)
looked_up-err resolver r e h = ground arith

namespace_of-err :
    (resolver : Resolver) (r : ResourceScope) (e : AuthorizationError)
    → namespace_of resolver r ≡ err e
    → (is_namespace r ≡ false)
      × (((e ≡ AuthorizationError.not_found) × (resolver r ≡ ok none)) ⊎ (resolver r ≡ err e))
namespace_of-err resolver (ResourceScope.namespace id) e h = cc
namespace_of-err resolver ResourceScope.control_plane e h = (refl, looked_up-err resolver _ e h)
namespace_of-err resolver (ResourceScope.queue id) e h = (refl, looked_up-err resolver _ e h)
namespace_of-err resolver (ResourceScope.job id) e h = (refl, looked_up-err resolver _ e h)
namespace_of-err resolver (ResourceScope.target id) e h = (refl, looked_up-err resolver _ e h)
namespace_of-err resolver (ResourceScope.target_set id) e h = (refl, looked_up-err resolver _ e h)
namespace_of-err resolver (ResourceScope.schedule id) e h = (refl, looked_up-err resolver _ e h)
namespace_of-err resolver (ResourceScope.workflow id) e h = (refl, looked_up-err resolver _ e h)
namespace_of-err resolver (ResourceScope.workflow_run id) e h = (refl, looked_up-err resolver _ e h)
namespace_of-err resolver (ResourceScope.run id) e h = (refl, looked_up-err resolver _ e h)

found-err :
    (found : Result AuthorizationError ℕ) (allowed : ℕ → Bool) (refusal e : AuthorizationError)
    → ◌≡◌ {A = Result AuthorizationError (Unit {0})}
        (found >>= λ ns. if allowed ns then ok tt else err refusal)
        (err e)
    → (e ≡ refusal) ⊎ (found ≡ err e)
found-err (ok ns) allowed refusal e h = ground arith
found-err (err x) allowed refusal e h = inr (cc (h))

global-err :
    (allowed : Bool) {e : AuthorizationError}
    → ◌≡◌ {A = Result AuthorizationError (Unit {0})}
        (if allowed then ok tt else err AuthorizationError.forbidden)
        (err e)
    → e ≡ AuthorizationError.forbidden
global-err allowed h = ground arith

module _ (g : GrantSet) (resolver : Resolver) (c : Capability) (r : ResourceScope)
    (e : AuthorizationError) where
  denied-Refusal : e ≡ denied_as c → Refusal g resolver c r e
  denied-Refusal h = rw h denied

  lookup-Refusal :
      (ids : List ℕ)
      → visibility g c ≡ VisibilityScope.namespaces ids
      → namespace_of resolver r ≡ err e
      → Refusal g resolver c r e
  lookup-Refusal ids seen h =
      let (apart, reason) = namespace_of-err resolver r e h in
      elim reason [
        | inl none_there ↦ rw none_there.0 (missing ids apart seen none_there.1)
        | inr failure ↦ failed ids apart seen failure
      ]

  visible-Refusal :
      (v : VisibilityScope)
      → visibility g c ≡ v
      → authorize_visible g resolver c r v ≡ err e
      → Refusal g resolver c r e
  unfolding authorize_visible
  visible-Refusal VisibilityScope.all seen h = cc
  visible-Refusal VisibilityScope.nothing seen h = denied-Refusal (cc (h, denial-eq c))
  visible-Refusal (VisibilityScope.namespaces ids) seen h =
      elim (found-err (namespace_of resolver r) (allows_namespace g c) (denial c) e h) [
        | inl refused ↦ denied-Refusal (refused ∙ denial-eq c)
        | inr stopped ↦ lookup-Refusal ids seen stopped
      ]

  scoped-Refusal :
      (s : PermissionScope)
      → permission_scope c ≡ s
      → authorize_scoped g resolver c r s ≡ err e
      → Refusal g resolver c r e
  unfolding authorize_scoped
  scoped-Refusal PermissionScope.global scoped h =
      denied-Refusal (global-err (allows_global g c) h ∙ sym (global-denied_as c scoped))
  scoped-Refusal PermissionScope.namespace scoped h = visible-Refusal (visibility g c) refl h

-- Whoever asks for a resource of the right kind without the authority is refused, for every
-- capability, under grants that list each scope once. The answer is `NotFound` for the reads of
-- Runs, of Workflows and of Workflow invocations, whether or not there is such a resource, and
-- `Forbidden` for every other capability, with two exceptions for a caller who holds the capability
-- in some Namespaces and asks for something else than a Namespace: `NotFound` where the lookup
-- finds no resource, and the error of a lookup that fails.
pub authorize-Refusal :
    (g : GrantSet) (resolver : Resolver) (capability : Capability) (resource : ResourceScope)
    → Distinct g.assignments
    → accepts_resource capability resource ≡ true
    → ¬ Permitted g resolver capability resource
    → (e : AuthorizationError) × (authorize g resolver capability resource ≡ err e)
      × Refusal g resolver capability resource e
unfolding authorize
authorize-Refusal g resolver capability resource d fits lacks =
    elim (Result-cases (authorize g resolver capability resource)) [
      | inl (u, h) ↦ absurd (lacks ((authorize_iff g resolver capability resource d).0 h).1)
      | inr (e, h) ↦ (e, h, scoped-Refusal g resolver capability resource e _ refl (rw fits at h))
    ]

development-contains :
    (c : Capability) → contains development (development_scope (permission_scope c)) c ≡ true
unfolding contains development
development-contains Capability.namespace_create = refl
development-contains _ = refl

development-visibility :
    (c : Capability)
    → permission_scope c ≡ PermissionScope.namespace
    → visibility development c ≡ VisibilityScope.all
unfolding visibility
development-visibility c scoped =
    rw
      (ap (λ s. contains development (development_scope s) c) (sym scoped) ∙ development-contains c)
      refl

development-global :
    (c : Capability)
    → permission_scope c ≡ PermissionScope.global
    → allows_global development c ≡ true
unfolding allows_global
development-global c global =
    ap (λ s. contains development (development_scope s) c) (sym global) ∙ development-contains c

development-scoped :
    (resolver : Resolver) (c : Capability) (r : ResourceScope) (s : PermissionScope)
    → permission_scope c ≡ s
    → authorize_scoped development resolver c r s ≡ ok tt
unfolding authorize_scoped authorize_visible
development-scoped resolver c r PermissionScope.global e = rw (development-global c e) refl
development-scoped resolver c r PermissionScope.namespace e = rw (development-visibility c e) refl

-- The development identity is authorized for every capability on every kind of resource that the
-- capability can be asked for on, and for nothing else.
pub authorize-development_iff :
    (resolver : Resolver) (capability : Capability) (resource : ResourceScope)
    → (authorize development resolver capability resource ≡ ok tt)
      ↔ (accepts_resource capability resource ≡ true)
unfolding authorize
authorize-development_iff resolver capability resource = (
  λ h. elim (Bool-cases (accepts_resource capability resource)) [
    | inl fits ↦ fits
    | inr misfit ↦ absurd (cc (rw misfit at h))
  ],
  λ fits. rw fits (development-scoped resolver capability resource _ refl),
)

-- the capabilities that read what is in a Namespace
abbrev pub reads : Capability → Bool
reads Capability.namespace_read = true
reads Capability.job_read = true
reads Capability.target_read = true
reads Capability.target_set_read = true
reads Capability.schedule_read = true
reads Capability.workflow_read = true
reads Capability.workflow_run_read = true
reads Capability.run_read = true
reads Capability.overview_read = true
reads _ = false

-- A listing is answered for the nine capabilities that read what is in a Namespace, with the
-- Namespaces visible for that capability, and is forbidden for every other capability, whatever
-- the caller holds.
pub authorize_read-eq :
    (capability : Capability) (g : GrantSet)
    → authorize_read g capability ≡ (
        if reads capability then ok (visibility g capability) else err AuthorizationError.forbidden)
unfolding authorize_read identifier
authorize_read-eq Capability.namespace_create g = refl
authorize_read-eq _ g = refl

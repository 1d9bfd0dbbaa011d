-- ===== src/Authorization/Decision.antt =====
-- What `GrantAuthorizer::authorize` grants, and what its refusals tell.
use crono.Prelude.{
  ℕ, ◌≡◌, ◌≢◌, refl, ◌∙◌, ◌↔◌, ◌⊎◌, inl, inr, Bool, true, false, List, [], ◌∷◌, if◌then◌else◌,
  arith, Bool-cases, Result, ok, err, ◌>>=◌, >>=-ok,
}
use crono.Authorization.Capabilities.{
  PermissionScope, ResourceScope, Capability, permission_scope, accepts_resource,
}
use crono.Authorization.Grants.{
  GrantScope, GrantSet, VisibilityScope, contains, allows_global, allows_namespace, visibility,
  scope_of, visible_ids,
}
use crono.Authorization.Visible.{Distinct, sees, sees-visibility}
use crono.Authorization.Policy.{
  AuthorizationError, Resolver, denial, namespace_of, authorize, authorize_scoped,
  authorize_visible,
}

-- The authority that a decision needs: the capability granted globally, for all Namespaces, or for
-- the Namespace that the resource is known to be in.
pub data Permitted (g : GrantSet) (resolver : Resolver) (c : Capability) (r : ResourceScope)
    : Type 0 where
  globally :
      permission_scope c ≡ PermissionScope.global
      → contains g GrantScope.global c ≡ true
      → Permitted g resolver c r
  everywhere :
      permission_scope c ≡ PermissionScope.namespace
      → contains g GrantScope.all_namespaces c ≡ true
      → Permitted g resolver c r
  within :
      (ns : ℕ)
      → permission_scope c ≡ PermissionScope.namespace
      → namespace_of resolver r ≡ ok ns
      → contains g (GrantScope.namespace ns) c ≡ true
      → Permitted g resolver c r

Scope-cases : (s : PermissionScope) → (s ≡ PermissionScope.global) ⊎ (s ≡ PermissionScope.namespace)
Scope-cases PermissionScope.global = inl refl
Scope-cases PermissionScope.namespace = inr refl

Visibility-cases :
    (v : VisibilityScope)
    → (v ≡ VisibilityScope.all)
      ⊎ ((v ≡ VisibilityScope.nothing) ⊎ ((ids : List ℕ) × (v ≡ VisibilityScope.namespaces ids)))
Visibility-cases VisibilityScope.all = inl refl
Visibility-cases VisibilityScope.nothing = inr (inl refl)
Visibility-cases (VisibilityScope.namespaces ids) = inr (inr (ids, refl))

scope_of-ne-all : (ids : List ℕ) → scope_of ids ≢ VisibilityScope.all
scope_of-ne-all [] h = cc
scope_of-ne-all (id ∷ ids) h = cc

-- seeing all Namespaces is the grant for all
visibility-all :
    (g : GrantSet) (c : Capability)
    → (visibility g c ≡ VisibilityScope.all) ↔ (contains g GrantScope.all_namespaces c ≡ true)
unfolding visibility
visibility-all g c = (
  λ h. elim (Bool-cases (contains g GrantScope.all_namespaces c)) [
    | inl at_all ↦ at_all
    | inr not_all ↦ absurd (scope_of-ne-all (visible_ids c g.assignments) (rw not_all at h))
  ],
  λ h. rw h refl,
)

allowed-within :
    (g : GrantSet) (c : Capability) (ns : ℕ)
    → contains g (GrantScope.namespace ns) c ≡ true
    → allows_namespace g c ns ≡ true
unfolding allows_namespace
allowed-within g c ns h = ground arith

allowed-cases :
    (g : GrantSet) (c : Capability) (ns : ℕ)
    → allows_namespace g c ns ≡ true
    → (contains g GrantScope.all_namespaces c ≡ true)
      ⊎ (contains g (GrantScope.namespace ns) c ≡ true)
unfolding allows_namespace
allowed-cases g c ns h = ground arith

abbrev granted_or : Bool → AuthorizationError → Result AuthorizationError (Unit {0})
granted_or b e = if b then ok tt else err e

granted_if : (b : Bool) (e : AuthorizationError) → granted_or b e ≡ ok tt → b ≡ true
granted_if true e h = refl
granted_if false e h = cc

module _ (g : GrantSet) (resolver : Resolver) (c : Capability) (r : ResourceScope)
    (d : Distinct g.assignments) (scoped : permission_scope c ≡ PermissionScope.namespace) where
  found-Permitted :
      (namespace_of resolver r >>= λ ns. granted_or (allows_namespace g c ns) (denial c)) ≡ ok tt
      → Permitted g resolver c r
  found-Permitted h =
      let (ns, at, rest) = >>=-ok (namespace_of resolver r) _ h in
      elim (allowed-cases g c ns (granted_if _ _ rest)) [
        | inl at_all ↦ Permitted.everywhere scoped at_all
        | inr at_one ↦ Permitted.within ns scoped at at_one
      ]

  visible-Permitted :
      authorize_visible g resolver c r (visibility g c) ≡ ok tt → Permitted g resolver c r
  unfolding authorize_visible
  visible-Permitted h = elim (Visibility-cases (visibility g c)) [
    | inl all ↦ Permitted.everywhere scoped ((visibility-all g c).0 all)
    | inr (inl hidden) ↦ absurd (cc (rw hidden at h))
    | inr (inr (ids, some_places)) ↦ found-Permitted (rw some_places at h)
  ]

  within-visible :
      (ns : ℕ)
      → namespace_of resolver r ≡ ok ns
      → contains g (GrantScope.namespace ns) c ≡ true
      → authorize_visible g resolver c r (visibility g c) ≡ ok tt
  unfolding authorize_visible
  within-visible ns at h =
      let allowed = allowed-within g c ns h in
      let seen : sees (visibility g c) ns ≡ true = sees-visibility g c ns d ∙ allowed in
      elim (Visibility-cases (visibility g c)) [
        | inl all ↦ rw all refl
        | inr (inl hidden) ↦ absurd (cc (rw hidden at seen))
        | inr (inr (ids, some_places)) ↦ rw (some_places, at, allowed) refl
      ]

  Permitted-visible :
      Permitted g resolver c r → authorize_visible g resolver c r (visibility g c) ≡ ok tt
  unfolding authorize_visible
  Permitted-visible (Permitted.globally s h) = absurd (cc (s, scoped))
  Permitted-visible (Permitted.everywhere s h) = rw ((visibility-all g c).1 h) refl
  Permitted-visible (Permitted.within ns s at h) = within-visible ns at h

module _ (g : GrantSet) (resolver : Resolver) (c : Capability) (r : ResourceScope)
    (d : Distinct g.assignments) where
  scoped-Permitted :
      authorize_scoped g resolver c r (permission_scope c) ≡ ok tt → Permitted g resolver c r
  unfolding authorize_scoped allows_global
  scoped-Permitted h = elim (Scope-cases (permission_scope c)) [
    | inl global ↦ Permitted.globally global (granted_if _ _ (rw global at h))
    | inr scoped ↦ visible-Permitted g resolver c r d scoped (rw scoped at h)
  ]

  Permitted-scoped :
      Permitted g resolver c r → authorize_scoped g resolver c r (permission_scope c) ≡ ok tt
  unfolding authorize_scoped allows_global
  Permitted-scoped p = elim (Scope-cases (permission_scope c)) [
    | inl global ↦ rw global (globally_held global p)
    | inr scoped ↦ rw scoped (Permitted-visible g resolver c r d scoped p)
  ]
    where
      globally_held :
          permission_scope c ≡ PermissionScope.global
          → Permitted g resolver c r
          → granted_or (contains g GrantScope.global c) AuthorizationError.forbidden ≡ ok tt
      globally_held global (Permitted.globally s h) = rw h refl
      globally_held global (Permitted.everywhere s h) = absurd (cc (s, global))
      globally_held global (Permitted.within ns s at h) = absurd (cc (s, global))

-- A request is authorized exactly if the capability can be asked for on that kind of resource and
-- the caller holds it: globally for a global capability, and otherwise for all Namespaces or for
-- the Namespace in which the server finds the resource.
pub authorize_iff :
    (g : GrantSet) (resolver : Resolver) (capability : Capability) (resource : ResourceScope)
    → Distinct g.assignments
    → (authorize g resolver capability resource ≡ ok tt)
      ↔ ((accepts_resource capability resource ≡ true) × Permitted g resolver capability resource)
unfolding authorize
authorize_iff g resolver capability resource d = (
  λ h. elim (Bool-cases (accepts_resource capability resource)) [
    | inl fits ↦ (fits, scoped-Permitted g resolver capability resource d (rw fits at h))
    | inr misfit ↦ absurd (cc (rw misfit at h))
  ],
  λ p. rw p.0 (Permitted-scoped g resolver capability resource d p.1),
)

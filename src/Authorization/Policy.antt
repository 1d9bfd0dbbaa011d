-- ===== src/Authorization/Policy.antt =====
-- application/auth/policy.rs: the decision of `GrantAuthorizer`. The port that looks up the
-- Namespace of a resource is an argument, with the answer of the moment.
use crono.Prelude.{
  ℕ, Bool, Option, [], ◌∷◌, ◌++◌, ◌==◌, if◌then◌else◌, Text, codes, same_text, Result, ok, err,
  ok_or, ◌>>=◌,
}
use crono.Authorization.Capabilities.{
  PermissionScope, ResourceScope, Capability, identifier, permission_scope, accepts_resource,
}
use crono.Authorization.Grants.{
  GrantSet, VisibilityScope, allows_global, allows_namespace, visibility,
}

pub data AuthorizationError : Type 0 where
  unauthenticated forbidden not_found unavailable : AuthorizationError

abbrev pub denial : Capability → AuthorizationError
denial Capability.run_read = AuthorizationError.not_found
denial Capability.workflow_read = AuthorizationError.not_found
denial Capability.workflow_run_read = AuthorizationError.not_found
denial _ = AuthorizationError.forbidden

-- `ResourceNamespaceResolver::namespace_for`
abbrev pub Resolver : Type 0
Resolver = ResourceScope → Result AuthorizationError (Option ℕ)

abbrev pub looked_up : Resolver → ResourceScope → Result AuthorizationError ℕ
looked_up resolver resource =
    resolver resource >>= λ found. ok_or found AuthorizationError.not_found

-- the `match resource`
abbrev pub namespace_of : Resolver → ResourceScope → Result AuthorizationError ℕ
namespace_of resolver (ResourceScope.namespace id) = ok id
namespace_of resolver other = looked_up resolver other

-- the `match visibility` and what follows it
unfoldable pub authorize_visible :
    GrantSet
    → Resolver
    → Capability
    → ResourceScope
    → VisibilityScope
    → Result AuthorizationError (Unit {0})
authorize_visible grants resolver capability resource VisibilityScope.nothing =
    err (denial capability)
authorize_visible grants resolver capability resource VisibilityScope.all = ok tt
authorize_visible grants resolver capability resource (VisibilityScope.namespaces ids) =
    namespace_of resolver resource >>= λ namespace.
    if allows_namespace grants capability namespace then ok tt else err (denial capability)

-- by the scope of the capability
unfoldable pub authorize_scoped :
    GrantSet
    → Resolver
    → Capability
    → ResourceScope
    → PermissionScope
    → Result AuthorizationError (Unit {0})
unfolding authorize_visible
authorize_scoped grants resolver capability resource PermissionScope.global =
    if allows_global grants capability then ok tt else err AuthorizationError.forbidden
authorize_scoped grants resolver capability resource PermissionScope.namespace =
    authorize_visible grants resolver capability resource (visibility grants capability)

unfoldable pub authorize :
    GrantSet → Resolver → Capability → ResourceScope → Result AuthorizationError (Unit {0})
unfolding authorize_scoped
authorize grants resolver capability resource =
    if accepts_resource capability resource
    then authorize_scoped grants resolver capability resource (permission_scope capability)
    else err AuthorizationError.forbidden

-- `rsplit('.').next()`: what stands behind the last dot, or the whole text
unfoldable pub last_part : Text → Text → Text
last_part part [] = part
last_part part (c ∷ text) = last_part (if c == b'.' then [] else part ++ c ∷ []) text

abbrev pub is_read : Capability → Bool
is_read capability = same_text (last_part [] (codes (identifier capability))) (codes "read")

unfoldable pub read_visibility :
    GrantSet → Capability → PermissionScope → Result AuthorizationError VisibilityScope
unfolding last_part same_text
read_visibility grants capability PermissionScope.global = err AuthorizationError.forbidden
read_visibility grants capability PermissionScope.namespace =
    if is_read capability
    then ok (visibility grants capability)
    else err AuthorizationError.forbidden

-- `Authorizer::visibility`
unfoldable pub authorize_read : GrantSet → Capability → Result AuthorizationError VisibilityScope
unfolding read_visibility
authorize_read grants capability = read_visibility grants capability (permission_scope capability)

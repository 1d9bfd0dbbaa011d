-- ===== src/Authorization/Grants.antt =====
-- application/auth/grants.rs: the normalized authority of a caller, and the grant document that
-- carries it. `BTreeMap` is the list of its entries, without their order, and `BTreeSet` a list
-- without repetition. `serde_json` is the parameter `Wire`.
use Prim.Native.String.{String}
use crono.Prelude.{
  ℕ, ◌+◌, Bool, true, false, ◌||◌, Option, none, some, List, [], ◌∷◌, any, length, ltb, leb, ◌==◌,
  if◌then◌else◌, Result, ok, err, ok_or, ◌>>=◌,
}
use crono.Authorization.Capabilities.{
  PermissionScope, Capability, all_capabilities, same_capability, identifier, permission_scope,
  from_permission_id,
}

pub data GrantScope : Type 0 where
  global all_namespaces : GrantScope
  namespace : ℕ → GrantScope

abbrev pub same_scope : GrantScope → GrantScope → Bool
same_scope GrantScope.global GrantScope.global = true
same_scope GrantScope.all_namespaces GrantScope.all_namespaces = true
same_scope (GrantScope.namespace a) (GrantScope.namespace b) = a == b
same_scope _ _ = false

pub data GrantError : Type 0 where
  invalid_document unsupported_version unknown_permission incompatible_scope too_large : GrantError

-- `BTreeSet<Capability>`
abbrev pub has : List Capability → Capability → Bool
has set capability = any (λ c. same_capability c capability) set

abbrev pub add : Capability → List Capability → List Capability
add capability set = if has set capability then set else capability ∷ set

-- `BTreeMap<GrantScope, BTreeSet<Capability>>`
abbrev pub Assignments : Type 0
Assignments = List (GrantScope × List Capability)

unfoldable pub get : GrantScope → Assignments → Option (List Capability)
get scope [] = none
get scope ((s, set) ∷ rest) = if same_scope s scope then some set else get scope rest

-- `assignments.entry(scope).or_default().insert(capability)`
unfoldable pub insert : GrantScope → Capability → Assignments → Assignments
insert scope capability [] = (scope, capability ∷ []) ∷ []
insert scope capability ((s, set) ∷ rest) =
    if same_scope s scope
    then (s, add capability set) ∷ rest
    else (s, set) ∷ insert scope capability rest

pub record GrantSet : Type 0 where
  pub assignments : Assignments

abbrev pub max_grant_document_bytes : ℕ
max_grant_document_bytes = 65_536

abbrev pub max_grant_entries : ℕ
max_grant_entries = 256

abbrev pub Entry : Type 0
Entry = GrantScope × List Capability

abbrev pub compatible : GrantScope → PermissionScope → Bool
compatible GrantScope.global PermissionScope.global = true
compatible GrantScope.all_namespaces PermissionScope.namespace = true
compatible (GrantScope.namespace id) PermissionScope.namespace = true
compatible _ _ = false

-- the inner `for` of `GrantSet::new`
unfoldable pub add_permissions :
    GrantScope → List Capability → Assignments → Result GrantError Assignments
add_permissions scope [] assignments = ok assignments
add_permissions scope (c ∷ cs) assignments =
    if compatible scope (permission_scope c)
    then add_permissions scope cs (insert scope c assignments)
    else err GrantError.incompatible_scope

-- the outer `for`
unfoldable pub add_entries : ℕ → List Entry → Assignments → Result GrantError Assignments
add_entries index [] assignments = ok assignments
add_entries index ((scope, permissions) ∷ rest) assignments =
    if leb max_grant_entries index
    then err GrantError.too_large
    else add_permissions scope permissions assignments >>= add_entries (index + 1) rest

-- `GrantSet::new`
unfoldable pub new_grants : List Entry → Result GrantError GrantSet
unfolding add_entries add_permissions
new_grants entries =
    add_entries 0 entries [] >>= λ assignments. ok (record { assignments = assignments })

pub record Assignment : Type 0 where
  pub scope : GrantScope
  pub permissions : List String

pub record GrantDocument : Type 0 where
  pub version : ℕ
  pub grants : List Assignment

-- `serde_json::from_slice` and `serde_json::to_vec` of a `GrantDocument`; a document is its bytes
pub record Wire : Type 0 where
  pub from_slice : List ℕ → Option GrantDocument
  pub to_vec : GrantDocument → Option (List ℕ)

unfoldable pub read_permissions : List String → Result GrantError (List Capability)
read_permissions [] = ok []
read_permissions (text ∷ rest) =
    ok_or (from_permission_id text) GrantError.unknown_permission >>= λ c.
    read_permissions rest >>= λ cs. ok (c ∷ cs)

unfoldable pub read_assignments : List Assignment → Result GrantError (List Entry)
unfolding read_permissions
read_assignments [] = ok []
read_assignments (assignment ∷ rest) = read_permissions assignment.permissions >>= λ permissions.
    read_assignments rest >>= λ entries. ok ((assignment.scope, permissions) ∷ entries)

-- what follows the parse
unfoldable pub read_document : GrantDocument → Result GrantError GrantSet
unfolding read_assignments new_grants
read_document document =
    if document.version == 1
    then if ltb max_grant_entries (length document.grants)
      then err GrantError.too_large
      else read_assignments document.grants >>= new_grants
    else err GrantError.unsupported_version

abbrev pub default_grants : GrantSet
default_grants = record { assignments = [] }

unfoldable pub from_verified_json : Wire → Option (List ℕ) → Result GrantError GrantSet
unfolding read_document
from_verified_json w none = ok default_grants
from_verified_json w (some bytes) =
    if ltb max_grant_document_bytes (length bytes)
    then err GrantError.too_large
    else ok_or (w.from_slice bytes) GrantError.invalid_document >>= read_document

unfoldable pub identifiers : List Capability → List String
identifiers [] = []
identifiers (c ∷ cs) = identifier c ∷ identifiers cs

unfoldable pub written : Assignments → List Assignment
unfolding identifiers
written [] = []
written ((scope, set) ∷ rest) =
    record { scope = scope; permissions = identifiers set } ∷ written rest

unfoldable pub to_json : Wire → GrantSet → Result GrantError (List ℕ)
unfolding written
to_json w g =
    ok_or (w.to_vec (record { version = 1; grants = written g.assignments }))
      GrantError.invalid_document
    >>= λ bytes.
        if ltb max_grant_document_bytes (length bytes) then err GrantError.too_large else ok bytes

-- the scope of a capability in the development grants
abbrev pub development_scope : PermissionScope → GrantScope
development_scope PermissionScope.global = GrantScope.global
development_scope PermissionScope.namespace = GrantScope.all_namespaces

unfoldable pub grant_all : List Capability → Assignments → Assignments
grant_all [] assignments = assignments
grant_all (c ∷ cs) assignments =
    grant_all cs (insert (development_scope (permission_scope c)) c assignments)

unfoldable pub development : GrantSet
unfolding grant_all insert
development = record { assignments = grant_all all_capabilities [] }

unfoldable pub contains : GrantSet → GrantScope → Capability → Bool
unfolding get
contains g scope capability = elim (get scope g.assignments) [
  | none ↦ false
  | some set ↦ has set capability
]

unfoldable pub allows_global : GrantSet → Capability → Bool
unfolding contains
allows_global g capability = contains g GrantScope.global capability

unfoldable pub allows_namespace : GrantSet → Capability → ℕ → Bool
unfolding contains
allows_namespace g capability namespace_id =
    contains g GrantScope.all_namespaces capability
    || contains g (GrantScope.namespace namespace_id) capability

pub data VisibilityScope : Type 0 where
  all : VisibilityScope
  namespaces : List ℕ → VisibilityScope
  nothing : VisibilityScope

-- the Namespaces whose entry holds the capability
unfoldable pub visible_ids : Capability → Assignments → List ℕ
visible_ids capability [] = []
visible_ids capability ((GrantScope.namespace id, set) ∷ rest) =
    let ids = visible_ids capability rest in if has set capability then id ∷ ids else ids
visible_ids capability ((GrantScope.global, set) ∷ rest) = visible_ids capability rest
visible_ids capability ((GrantScope.all_namespaces, set) ∷ rest) = visible_ids capability rest

abbrev pub scope_of : List ℕ → VisibilityScope
scope_of [] = VisibilityScope.nothing
scope_of (id ∷ ids) = VisibilityScope.namespaces (id ∷ ids)

unfoldable pub visibility : GrantSet → Capability → VisibilityScope
unfolding contains visible_ids
visibility g capability =
    if contains g GrantScope.all_namespaces capability
    then VisibilityScope.all
    else scope_of (visible_ids capability g.assignments)

-- ===== src/Tests/Authorization.antt =====
-- A caller that may read Runs and use Jobs in one Namespace.
use crono.Prelude.{ℕ, ◌≤◌, ◌≡◌, ◌↔◌, refl, true, some, List, [], ◌∷◌, All, length, Result, ok, err}
use crono.Authorization.Capabilities.{
  Capability, ResourceScope, identifier, from_permission_id, accepts_resource,
}
use crono.Authorization.Registry.{from_permission_id_iff}
use crono.Authorization.Grants.{
  GrantScope, GrantError, GrantSet, Entry, GrantDocument, Wire, new_grants, contains, visibility,
  allows_namespace, from_verified_json, development, max_grant_entries, max_grant_document_bytes,
  insert,
}
use crono.Authorization.Normal.{granted, contains-new_grants}
use crono.Authorization.Admission.{Fits, new_grants_iff}
use crono.Authorization.Visible.{sees, sees-visibility_new, new_grants-Distinct}
use crono.Authorization.Policy.{AuthorizationError, Resolver, authorize, authorize_read}
use crono.Authorization.Decision.{Permitted, authorize_iff}
use crono.Authorization.Refusal.{
  Refusal, authorize-Refusal, authorize_read-eq, authorize-development_iff,
}
use crono.Authorization.Document.{Listed, from_verified_json-Listed}

abbrev entries : List Entry
entries =
    (GrantScope.namespace 7, Capability.run_read ∷ Capability.job_execute ∷ [])
    ∷ (GrantScope.global, Capability.queue_read ∷ [])
    ∷ (GrantScope.namespace 7, Capability.run_read ∷ [])
    ∷ []

abbrev no_grants : GrantSet
no_grants = record { assignments = [] }

abbrev built : Result GrantError GrantSet → GrantSet
built (ok g) = g
built (err e) = no_grants

abbrev caller : GrantSet
caller = built (new_grants entries)

caller_built : new_grants entries ≡ ok caller
unfolding new_grants insert
caller_built = refl

-- every Run is in Namespace 8
abbrev elsewhere : Resolver
elsewhere resource = ok (some 8)

from_permission_id_iff_example :
    (from_permission_id "crono.run.read" ≡ some Capability.run_read)
    ↔ ("crono.run.read" ≡ identifier Capability.run_read)
from_permission_id_iff_example = from_permission_id_iff "crono.run.read" Capability.run_read

contains-new_grants_example :
    contains caller (GrantScope.namespace 7) Capability.queue_read
    ≡ granted entries (GrantScope.namespace 7) Capability.queue_read
contains-new_grants_example =
    contains-new_grants entries caller (GrantScope.namespace 7) Capability.queue_read caller_built

new_grants_iff_example :
    ((g : GrantSet) × (new_grants entries ≡ ok g))
    ↔ ((length entries ≤ max_grant_entries) × All Fits entries)
new_grants_iff_example = new_grants_iff entries

sees-visibility_new_example :
    sees (visibility caller Capability.run_read) 7 ≡ allows_namespace caller Capability.run_read 7
sees-visibility_new_example = sees-visibility_new entries caller Capability.run_read 7 caller_built

authorize_iff_example :
    (authorize caller elsewhere Capability.run_read (ResourceScope.run 1) ≡ ok tt) ↔ (
      (accepts_resource Capability.run_read (ResourceScope.run 1) ≡ true)
      × Permitted caller elsewhere Capability.run_read (ResourceScope.run 1))
authorize_iff_example =
    authorize_iff caller elsewhere Capability.run_read (ResourceScope.run 1)
      (new_grants-Distinct entries caller caller_built)

run_accepted : accepts_resource Capability.run_read (ResourceScope.run 1) ≡ true
unfolding accepts_resource
run_accepted = refl

run_hidden :
    authorize caller elsewhere Capability.run_read (ResourceScope.run 1)
    ≡ err AuthorizationError.not_found
unfolding authorize accepts_resource visibility allows_namespace new_grants insert
run_hidden = refl

workflow_hidden :
    authorize caller elsewhere Capability.workflow_read (ResourceScope.workflow 1)
    ≡ err AuthorizationError.not_found
unfolding authorize accepts_resource visibility allows_namespace new_grants insert
workflow_hidden = refl

run_lacks : ¬ Permitted caller elsewhere Capability.run_read (ResourceScope.run 1)
run_lacks p = cc (run_hidden, authorize_iff_example.1 (run_accepted, p))

authorize-Refusal_example :
    (e : AuthorizationError) × (authorize caller elsewhere Capability.run_read (ResourceScope.run 1)
      ≡ err e)
    × Refusal caller elsewhere Capability.run_read (ResourceScope.run 1) e
authorize-Refusal_example =
    authorize-Refusal caller elsewhere Capability.run_read (ResourceScope.run 1)
      (new_grants-Distinct entries caller caller_built) run_accepted run_lacks

authorize-development_iff_example :
    (authorize development elsewhere Capability.run_read (ResourceScope.run 1) ≡ ok tt)
    ↔ (accepts_resource Capability.run_read (ResourceScope.run 1) ≡ true)
authorize-development_iff_example =
    authorize-development_iff elsewhere Capability.run_read (ResourceScope.run 1)

abbrev document : GrantDocument
document = record {
  version = 1;
  grants = record { scope = GrantScope.namespace 7; permissions = "crono.run.read" ∷ [] } ∷ [];
}

-- a wire on which every text is that document
abbrev wire : Wire
wire = record { from_slice = λ bytes. some document; to_vec = λ d. some [] }

abbrev reader : GrantSet
reader = built (from_verified_json wire (some (0 ∷ [])))

reader_read : from_verified_json wire (some (0 ∷ [])) ≡ ok reader
unfolding from_verified_json from_permission_id identifier insert
reader_read = refl

reader_reads : contains reader (GrantScope.namespace 7) Capability.run_read ≡ true
unfolding from_verified_json from_permission_id identifier insert contains
reader_reads = refl

from_verified_json-Listed_example :
    (bytes : List ℕ) × (d : GrantDocument) × (some (0 ∷ []) ≡ some bytes)
    × (length bytes ≤ max_grant_document_bytes)
    × (Wire.from_slice wire bytes ≡ some d)
    × (d.version ≡ 1)
    × Listed d (GrantScope.namespace 7) Capability.run_read
from_verified_json-Listed_example =
    from_verified_json-Listed wire (some (0 ∷ [])) reader (GrantScope.namespace 7)
      Capability.run_read reader_read reader_reads

authorize_read-eq_example :
    authorize_read caller Capability.run_read ≡ ok (visibility caller Capability.run_read)
authorize_read-eq_example = authorize_read-eq Capability.run_read caller

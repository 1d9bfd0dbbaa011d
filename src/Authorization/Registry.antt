-- ===== src/Authorization/Registry.antt =====
-- The identifiers of the permissions, and the order of the registry.
use Prim.Native.String.{String}
use text.Mathlib.Text.{◌==◌ as str_eq}
use text.Mathlib.TextEquality.{eq_iff}
use crono.Prelude.{
  some-inj, true, ℕ, zero, suc, ◌≡◌, ◌↔◌, refl, sym, ap, ◌∙◌, arith, Option, none, some, List, [],
  ◌∷◌, Bool-cases, inl, inr,
}
use crono.Authorization.Capabilities.{
  Capability, all_capabilities, number, same_capability, identifier, find_permission,
  from_permission_id,
}

abbrev nth : List Capability → ℕ → Option Capability
nth [] k = none
nth (c ∷ cs) zero = some c
nth (c ∷ cs) (suc k) = nth cs k

-- The number of a capability is its place in the registry, so it tells capabilities apart.
nth-number : (c : Capability) → nth all_capabilities (number c) ≡ some c
nth-number Capability.namespace_create = refl
nth-number Capability.namespace_read = refl
nth-number Capability.namespace_delete = refl
nth-number Capability.queue_create = refl
nth-number Capability.queue_read = refl
nth-number Capability.queue_update = refl
nth-number Capability.queue_delete = refl
nth-number Capability.job_create = refl
nth-number Capability.job_read = refl
nth-number Capability.job_update = refl
nth-number Capability.job_execute = refl
nth-number Capability.target_create = refl
nth-number Capability.target_read = refl
nth-number Capability.target_update = refl
nth-number Capability.target_delete = refl
nth-number Capability.target_use = refl
nth-number Capability.target_set_create = refl
nth-number Capability.target_set_read = refl
nth-number Capability.target_set_update = refl
nth-number Capability.target_set_use = refl
nth-number Capability.schedule_create = refl
nth-number Capability.schedule_read = refl
nth-number Capability.schedule_update = refl
nth-number Capability.workflow_create = refl
nth-number Capability.workflow_read = refl
nth-number Capability.workflow_update = refl
nth-number Capability.workflow_delete = refl
nth-number Capability.workflow_execute = refl
nth-number Capability.workflow_run_read = refl
nth-number Capability.workflow_run_cancel = refl
nth-number Capability.run_create = refl
nth-number Capability.run_read = refl
nth-number Capability.worker_read = refl
nth-number Capability.monitor_read = refl
nth-number Capability.overview_read = refl

pub same_capability_iff : (a b : Capability) → (same_capability a b ≡ true) ↔ (a ≡ b)
same_capability_iff a b = (
  λ h.
      let same : number a ≡ number b = ground arith in
      some-inj (sym (nth-number a) ∙ ap (nth all_capabilities) same ∙ nth-number b),
  λ e. ground arith,
)

found-named :
    (text : String) (cs : List Capability) (c : Capability)
    → find_permission text cs ≡ some c
    → text ≡ identifier c
unfolding find_permission
found-named text [] c h = cc
found-named text (d ∷ cs) c h = elim (Bool-cases (str_eq (identifier d) text)) [
  | inl hit ↦ sym ((eq_iff (identifier d) text).0 hit) ∙ ap identifier (some-inj (rw hit at h))
  | inr miss ↦ found-named text cs c (rw miss at h)
]

identified : (c : Capability) → from_permission_id (identifier c) ≡ some c
unfolding from_permission_id identifier
identified Capability.namespace_create = refl
identified Capability.namespace_read = refl
identified Capability.namespace_delete = refl
identified Capability.queue_create = refl
identified Capability.queue_read = refl
identified Capability.queue_update = refl
identified Capability.queue_delete = refl
identified Capability.job_create = refl
identified Capability.job_read = refl
identified Capability.job_update = refl
identified Capability.job_execute = refl
identified Capability.target_create = refl
identified Capability.target_read = refl
identified Capability.target_update = refl
identified Capability.target_delete = refl
identified Capability.target_use = refl
identified Capability.target_set_create = refl
identified Capability.target_set_read = refl
identified Capability.target_set_update = refl
identified Capability.target_set_use = refl
identified Capability.schedule_create = refl
identified Capability.schedule_read = refl
identified Capability.schedule_update = refl
identified Capability.workflow_create = refl
identified Capability.workflow_read = refl
identified Capability.workflow_update = refl
identified Capability.workflow_delete = refl
identified Capability.workflow_execute = refl
identified Capability.workflow_run_read = refl
identified Capability.workflow_run_cancel = refl
identified Capability.run_create = refl
identified Capability.run_read = refl
identified Capability.worker_read = refl
identified Capability.monitor_read = refl
identified Capability.overview_read = refl

-- A text is read as a permission exactly if it is the published identifier of that permission: no
-- two permissions share an identifier, and unknown texts carry no authority.
pub from_permission_id_iff :
    (text : String) (c : Capability) → (from_permission_id text ≡ some c) ↔ (text ≡ identifier c)
unfolding from_permission_id
from_permission_id_iff text c =
    (found-named text all_capabilities c, λ e. ap from_permission_id e ∙ identified c)

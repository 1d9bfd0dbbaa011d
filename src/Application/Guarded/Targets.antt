-- ===== src/Application/Guarded/Targets.antt =====
-- The use cases of application/service.rs on Targets and Target Sets keep to the table.
use crono.Prelude.{ℕ, Option, List, [], at0, at1, at2, refl, Text, same_text}
use crono.Domain.Json.{Value}
use crono.Authorization.Capabilities.{Capability, identifier, accepts_resource}
use crono.Authorization.Policy.{last_part}
use crono.Application.Guarded.{Guarded, Anything}
use crono.Application.Targets.{
  create_target, update_target, list_targets, get_target, delete_target, list_target_sets,
  get_target_set,
}

pub create_target-Guarded :
    (encoded_len : Value → Option ℕ) (namespace_id : ℕ) (name : Text) (arguments : List Text)
    (inputs : Value)
    → Guarded Anything [] (create_target encoded_len namespace_id name arguments inputs)
unfolding create_target accepts_resource
create_target-Guarded encoded_len namespace_id name arguments inputs =
    λ x _ y _ z _. (refl, (at0, λ a. tt, λ e. tt), λ e. refl)

pub update_target-Guarded :
    (encoded_len : Value → Option ℕ) (id : ℕ) (name : Text) (arguments : List Text) (inputs : Value)
    → Guarded Anything [] (update_target encoded_len id name arguments inputs)
unfolding update_target accepts_resource
update_target-Guarded encoded_len id name arguments inputs = λ x _ y _ z _. (
  refl,
  ((Capability.target_update, at0), λ a. λ u _. (at1, λ a. tt, λ e. tt), λ e. tt),
  λ e. refl,
)

pub list_targets-Guarded :
    (namespace_id : ℕ) (limit : Option ℕ) (after : Option Text)
    → Guarded Anything [] (list_targets namespace_id limit after)
unfolding list_targets accepts_resource last_part same_text identifier
list_targets-Guarded namespace_id limit after = (
  refl,
  (
    refl,
    refl,
    λ v. λ size _ cursor _.
        ((Capability.target_read, at1), λ a. ((at2, at1), λ a. tt, λ e. tt), λ e. tt),
    λ e. refl,
  ),
  λ e. refl,
)

pub get_target-Guarded : (id : ℕ) → Guarded Anything [] (get_target id)
unfolding get_target accepts_resource
get_target-Guarded id = (refl, ((Capability.target_read, at0), λ a. tt, λ e. tt), λ e. refl)

pub delete_target-Guarded : (id : ℕ) → Guarded Anything [] (delete_target id)
unfolding delete_target accepts_resource
delete_target-Guarded id = (
  refl,
  ((Capability.target_delete, at0), λ a. λ u _. (at1, λ a. tt, λ e. tt), λ e. tt),
  λ e. refl,
)

pub list_target_sets-Guarded :
    (namespace_id : ℕ) (limit : Option ℕ) (after : Option Text)
    → Guarded Anything [] (list_target_sets namespace_id limit after)
unfolding list_target_sets accepts_resource last_part same_text identifier
list_target_sets-Guarded namespace_id limit after = (
  refl,
  (
    refl,
    refl,
    λ v. λ size _ cursor _.
        ((Capability.target_set_read, at1), λ a. ((at2, at1), λ a. tt, λ e. tt), λ e. tt),
    λ e. refl,
  ),
  λ e. refl,
)

pub get_target_set-Guarded : (id : ℕ) → Guarded Anything [] (get_target_set id)
unfolding get_target_set accepts_resource
get_target_set-Guarded id = (refl, ((Capability.target_set_read, at0), λ a. tt, λ e. tt), λ e. refl)

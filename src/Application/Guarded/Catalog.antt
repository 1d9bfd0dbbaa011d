-- ===== src/Application/Guarded/Catalog.antt =====
-- The use cases of application/service.rs on Namespaces, Queues and Jobs keep to the table.
use crono.Prelude.{ℕ, Option, [], at0, at1, at2, at3, refl, Text, same_text}
use crono.Domain.Json.{Value}
use crono.Authorization.Capabilities.{Capability, identifier, accepts_resource}
use crono.Authorization.Policy.{last_part}
use crono.Application.Model.{CreateQueueInput, UpdateQueueInput, CreateJobInput}
use crono.Application.Guarded.{Guarded, Anything}
use crono.Application.Catalog.{
  create_namespace, list_namespaces, get_namespace, delete_namespace, create_queue, list_queues,
  get_queue, update_queue, delete_queue, create_job, update_job, list_jobs, get_job,
}

pub create_namespace-Guarded : (value : Text) → Guarded Anything [] (create_namespace value)
unfolding create_namespace accepts_resource
create_namespace-Guarded value = (refl, λ name _. (at0, λ a. tt, λ e. tt), λ e. refl)

pub list_namespaces-Guarded :
    (limit : Option ℕ) (after : Option Text) → Guarded Anything [] (list_namespaces limit after)
unfolding list_namespaces accepts_resource last_part same_text identifier
list_namespaces-Guarded limit after =
    (refl, refl, λ v. λ size _ cursor _. (at0, λ a. tt, λ e. tt), λ e. refl)

pub get_namespace-Guarded : (id : ℕ) → Guarded Anything [] (get_namespace id)
unfolding get_namespace accepts_resource
get_namespace-Guarded id = (refl, ((Capability.namespace_read, at0), λ a. tt, λ e. tt), λ e. refl)

pub delete_namespace-Guarded : (id : ℕ) → Guarded Anything [] (delete_namespace id)
unfolding delete_namespace accepts_resource
delete_namespace-Guarded id = (
  refl,
  ((Capability.namespace_delete, at0), λ a. λ u _. (at1, λ a. tt, λ e. tt), λ e. tt),
  λ e. refl,
)

pub create_queue-Guarded : (input : CreateQueueInput) → Guarded Anything [] (create_queue input)
unfolding create_queue accepts_resource
create_queue-Guarded input = (refl, λ name _ u _ w _. (at0, λ a. tt, λ e. tt), λ e. refl)

pub list_queues-Guarded :
    (limit : Option ℕ) (after : Option Text) → Guarded Anything [] (list_queues limit after)
unfolding list_queues accepts_resource
list_queues-Guarded limit after = (refl, λ size _ cursor _. (at0, λ a. tt, λ e. tt), λ e. refl)

pub get_queue-Guarded : (id : ℕ) → Guarded Anything [] (get_queue id)
unfolding get_queue accepts_resource
get_queue-Guarded id = (refl, ((Capability.queue_read, at0), λ a. tt, λ e. tt), λ e. refl)

pub update_queue-Guarded :
    (id : ℕ) (input : UpdateQueueInput) → Guarded Anything [] (update_queue id input)
unfolding update_queue accepts_resource
update_queue-Guarded id input = λ name _ u _. (
  refl,
  ((Capability.queue_update, at0), λ a. λ u _ w _ z _. (at1, λ a. tt, λ e. tt), λ e. tt),
  λ e. refl,
)

pub delete_queue-Guarded : (id : ℕ) → Guarded Anything [] (delete_queue id)
unfolding delete_queue accepts_resource
delete_queue-Guarded id = (
  refl,
  ((Capability.queue_delete, at0), λ a. λ u _. (at1, λ a. tt, λ e. tt), λ e. tt),
  λ e. refl,
)

pub create_job-Guarded :
    (encoded_len : Value → Option ℕ) (namespace_id : ℕ) (given : CreateJobInput)
    → Guarded Anything [] (create_job encoded_len namespace_id given)
unfolding create_job accepts_resource
create_job-Guarded encoded_len namespace_id given = λ name _ u _. (
  refl,
  (
    refl,
    ((Capability.queue_read, at0), λ a. λ u _. ((at2, at1), λ a. tt, λ e. tt), λ e. tt),
    λ e. refl,
  ),
  λ e. refl,
)

pub update_job-Guarded :
    (encoded_len : Value → Option ℕ) (id : ℕ) (given : CreateJobInput)
    → Guarded Anything [] (update_job encoded_len id given)
unfolding update_job accepts_resource
update_job-Guarded encoded_len id given = λ name _ u _. (
  refl,
  (
    (Capability.job_update, at0),
    λ a. (
      refl,
      ((Capability.queue_read, at0), λ a. λ u _. ((at3, at1), λ a. tt, λ e. tt), λ e. tt),
      λ e. refl,
    ),
    λ e. tt,
  ),
  λ e. refl,
)

pub list_jobs-Guarded :
    (namespace_id : ℕ) (limit : Option ℕ) (after : Option Text)
    → Guarded Anything [] (list_jobs namespace_id limit after)
unfolding list_jobs accepts_resource last_part same_text identifier
list_jobs-Guarded namespace_id limit after = (
  refl,
  (
    refl,
    refl,
    λ v. λ size _ cursor _.
        ((Capability.job_read, at1), λ a. ((at2, at1), λ a. tt, λ e. tt), λ e. tt),
    λ e. refl,
  ),
  λ e. refl,
)

pub get_job-Guarded : (id : ℕ) → Guarded Anything [] (get_job id)
unfolding get_job accepts_resource
get_job-Guarded id = (refl, ((Capability.job_read, at0), λ a. tt, λ e. tt), λ e. refl)

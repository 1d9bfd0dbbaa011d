-- ===== src/Application/Catalog.antt =====
-- application/service.rs: the use cases on Namespaces, Queues and Jobs.
use crono.Prelude.{ℕ, false, not, ◌&&◌, ◌||◌, Option, ◌==◌, Text, codes, same_text, guard}
use crono.Domain.Json.{Value}
use crono.Domain.Entities.{Namespace, Queue}
use crono.Dispatch.Tables.{StoreError}
use crono.Authorization.Capabilities.{Capability, ResourceScope}
use crono.Application.Model.{
  CreateQueueInput, UpdateQueueInput, CreateJobInput, JobDefinition, Page, JobRecord,
}
use crono.Application.Program.{
  ApplicationError, invalid, invalid_request, from_store, Call, Program, ◌>>=◌, authorized, visible,
  store, store_or, checked,
}
use crono.Application.Checks.{
  parsed_name, page_limit, page_cursor, validate_queue_description, ensure_queue_name_available,
}
use crono.Application.JobChecks.{normalize_job_input, validate_job}

unfoldable pub create_namespace : Text → Program Namespace
create_namespace value = do
  _ ← authorized Capability.namespace_create ResourceScope.control_plane
  name ← checked (parsed_name value)
  store (Call.create_namespace name)

unfoldable pub list_namespaces : Option ℕ → Option Text → Program (Page Namespace)
list_namespaces limit after = do
  visibility ← visible Capability.namespace_read
  size ← checked (page_limit limit)
  cursor ← checked (page_cursor after)
  store (Call.list_namespaces visibility size cursor)

unfoldable pub get_namespace : ℕ → Program Namespace
get_namespace id = do
  _ ← authorized Capability.namespace_read (ResourceScope.namespace id)
  store (Call.get_namespace id)

unfoldable pub delete_namespace : ℕ → Program (Unit {0})
delete_namespace id = do
  _ ← authorized Capability.namespace_delete (ResourceScope.namespace id)
  namespace ← store (Call.get_namespace id)
  _ ← checked (guard (not (same_text namespace.name (codes "default"))) invalid_request)
  store (Call.delete_namespace id)

unfoldable pub create_queue : CreateQueueInput → Program Queue
create_queue input = do
  _ ← authorized Capability.queue_create ResourceScope.control_plane
  name ← checked (parsed_name input.name)
  _ ← checked (validate_queue_description input.description)
  _ ← checked (ensure_queue_name_available name false)
  store (Call.create_queue name input.description)

unfoldable pub list_queues : Option ℕ → Option Text → Program (Page Queue)
list_queues limit after = do
  _ ← authorized Capability.queue_read ResourceScope.control_plane
  size ← checked (page_limit limit)
  cursor ← checked (page_cursor after)
  store (Call.list_queues size cursor)

unfoldable pub get_queue : ℕ → Program Queue
get_queue id = do
  _ ← authorized Capability.queue_read (ResourceScope.queue id)
  store (Call.get_queue id)

unfoldable pub update_queue : ℕ → UpdateQueueInput → Program Queue
update_queue id input = do
  name ← checked (parsed_name input.name)
  _ ← checked (validate_queue_description input.description)
  _ ← authorized Capability.queue_update (ResourceScope.queue id)
  current ← store (Call.get_queue id)
  _ ←
      checked
        (guard (not (current.system && not (same_text name current.name))) (invalid (codes "name")))
  _ ← checked (guard (not (current.system && not input.enabled)) (invalid (codes "enabled")))
  _ ← checked (ensure_queue_name_available name current.system)
  store (Call.update_queue id name input.description input.enabled)

unfoldable pub delete_queue : ℕ → Program (Unit {0})
delete_queue id = do
  _ ← authorized Capability.queue_delete (ResourceScope.queue id)
  queue ← store (Call.get_queue id)
  _ ← checked (guard (not queue.system) invalid_request)
  store (Call.delete_queue id)

-- a missing Queue is reported on the field that selects it
abbrev missing_queue : StoreError → ApplicationError
missing_queue StoreError.not_found = invalid (codes "queue_id")
missing_queue failure = from_store failure

abbrev definition_of : CreateJobInput → JobDefinition
definition_of input = record {
  executor = input.executor;
  queue_id = input.queue_id;
  executable = input.executable;
  shell_command = input.shell_command;
  arguments = input.arguments;
  inputs = input.inputs;
  idempotent = input.idempotent;
  dry_run = input.dry_run;
  max_attempts = input.max_attempts;
  retry_initial_seconds = input.retry_initial_seconds;
  retry_max_seconds = input.retry_max_seconds;
  retry_multiplier = input.retry_multiplier;
  retry_jitter = input.retry_jitter;
}

-- the size of an encoding in JSON
module _ (encoded_len : Value → Option ℕ) where
  unfoldable pub create_job : ℕ → CreateJobInput → Program JobRecord
  create_job namespace_id given = do
    let input = normalize_job_input given
    name ← checked (parsed_name input.name)
    _ ← checked (validate_job encoded_len input)
    _ ← authorized Capability.job_create (ResourceScope.namespace namespace_id)
    _ ← authorized Capability.queue_read (ResourceScope.queue input.queue_id)
    queue ← store_or missing_queue (Call.get_queue input.queue_id)
    _ ← checked (guard queue.enabled (invalid (codes "queue_id")))
    store (Call.create_job namespace_id name (definition_of input))

  unfoldable pub update_job : ℕ → CreateJobInput → Program JobRecord
  update_job id given = do
    let input = normalize_job_input given
    name ← checked (parsed_name input.name)
    _ ← checked (validate_job encoded_len input)
    _ ← authorized Capability.job_update (ResourceScope.job id)
    existing ← store (Call.get_job id)
    _ ← authorized Capability.queue_read (ResourceScope.queue input.queue_id)
    queue ← store_or missing_queue (Call.get_queue input.queue_id)
    _ ← checked (
        guard (queue.enabled || input.queue_id == existing.job.queue_id)
          (invalid (codes "queue_id")))
    store (Call.update_job id name (definition_of input))

unfoldable pub list_jobs : ℕ → Option ℕ → Option Text → Program (Page JobRecord)
list_jobs namespace_id limit after = do
  _ ← authorized Capability.job_read (ResourceScope.namespace namespace_id)
  visibility ← visible Capability.job_read
  size ← checked (page_limit limit)
  cursor ← checked (page_cursor after)
  _ ← store (Call.get_namespace namespace_id)
  store (Call.list_jobs namespace_id visibility size cursor)

unfoldable pub get_job : ℕ → Program JobRecord
get_job id = do _ ← authorized Capability.job_read (ResourceScope.job id); store (Call.get_job id)

-- ===== src/Application/Targets.antt =====
-- application/service.rs: the use cases on Targets and Target Sets, and the Targets that an
-- execution selects.
use crono.Prelude.{
  ℕ, Bool, not, ◌&&◌, Option, none, some, List, [], ◌∷◌, ◌==◌, Text, codes, same_text, ok, guard,
}
use crono.Domain.Json.{Value}
use crono.Domain.Schedule.{TargetSelection}
use crono.Domain.Entities.{Target}
use crono.Dispatch.Tables.{StoreError}
use crono.Authorization.Capabilities.{Capability, ResourceScope}
use crono.Application.Model.{Page, TargetRecord, TargetSetRecord}
use crono.Application.Program.{
  ApplicationError, invalid, invalid_request, from_store, Call, Program, ◌>>=◌, authorized, visible,
  store, store_or, checked,
}
use crono.Application.Checks.{
  parsed_name, page_limit, page_cursor, validate_arguments, validate_target_ids,
}
use crono.Application.JobChecks.{validate_input_object}

-- the starter Target `default/default`
abbrev is_starter : TargetRecord → Bool
is_starter current =
    same_text current.namespace (codes "default") && same_text current.target.name (codes "default")

abbrev missing_target : StoreError → ApplicationError
missing_target StoreError.not_found = invalid (codes "target_ids")
missing_target failure = from_store failure

-- the `for id in ids`, which `create_target_set` writes out
unfoldable pub validate_target_members : ℕ → List ℕ → Program (Unit {0})
validate_target_members namespace_id [] = checked (ok tt)
validate_target_members namespace_id (id ∷ ids) = do
  _ ← authorized Capability.target_read (ResourceScope.target id)
  found ← store_or missing_target (Call.get_target id)
  _ ← checked (guard (found.target.namespace_id == namespace_id) (invalid (codes "target_ids")))
  validate_target_members namespace_id ids

-- the `for target in &record.targets`
unfoldable pub authorize_use : List Target → Program (Unit {0})
authorize_use [] = checked (ok tt)
authorize_use (member ∷ members) = do
  _ ← authorized Capability.target_use (ResourceScope.target member.id)
  authorize_use members

unfoldable pub execution_targets : TargetSelection → Program (ℕ × Option Value × List Target)
unfolding authorize_use
execution_targets (TargetSelection.target id) = do
  _ ← authorized Capability.target_use (ResourceScope.target id)
  found ← store (Call.get_target id)
  checked (ok (found.target.namespace_id, none, found.target ∷ []))
execution_targets (TargetSelection.target_set id) = do
  _ ← authorized Capability.target_set_use (ResourceScope.target_set id)
  found ← store (Call.get_target_set id)
  _ ← authorize_use found.targets
  checked (ok (found.target_set.namespace_id, some found.target_set.inputs, found.targets))

-- the size of an encoding in JSON
module _ (encoded_len : Value → Option ℕ) where
  unfoldable pub create_target : ℕ → Text → List Text → Value → Program TargetRecord
  create_target namespace_id value arguments inputs = do
    name ← checked (parsed_name value)
    _ ← checked (validate_arguments arguments)
    _ ← checked (validate_input_object encoded_len inputs)
    _ ← authorized Capability.target_create (ResourceScope.namespace namespace_id)
    store (Call.create_target namespace_id name (record { arguments = arguments; inputs = inputs }))

  unfoldable pub update_target : ℕ → Text → List Text → Value → Program TargetRecord
  update_target id value arguments inputs = do
    name ← checked (parsed_name value)
    _ ← checked (validate_arguments arguments)
    _ ← checked (validate_input_object encoded_len inputs)
    _ ← authorized Capability.target_update (ResourceScope.target id)
    current ← store (Call.get_target id)
    _ ← checked (
        guard (not (is_starter current && not (same_text name (codes "default"))))
          (invalid (codes "name")))
    store (Call.update_target id name (record { arguments = arguments; inputs = inputs }))

  unfoldable pub create_target_set : ℕ → Text → List ℕ → Value → Program TargetSetRecord
  unfolding validate_target_members
  create_target_set namespace_id value target_ids inputs = do
    name ← checked (parsed_name value)
    _ ← checked (validate_input_object encoded_len inputs)
    _ ← checked (validate_target_ids target_ids)
    _ ← authorized Capability.target_set_create (ResourceScope.namespace namespace_id)
    _ ← validate_target_members namespace_id target_ids
    store (Call.create_target_set namespace_id name target_ids inputs)

  unfoldable pub update_target_set : ℕ → Text → List ℕ → Value → Program TargetSetRecord
  unfolding validate_target_members
  update_target_set id value target_ids inputs = do
    name ← checked (parsed_name value)
    _ ← checked (validate_input_object encoded_len inputs)
    _ ← checked (validate_target_ids target_ids)
    _ ← authorized Capability.target_set_update (ResourceScope.target_set id)
    existing ← store (Call.get_target_set id)
    _ ← validate_target_members existing.target_set.namespace_id target_ids
    store (Call.update_target_set id name target_ids inputs)

unfoldable pub list_targets : ℕ → Option ℕ → Option Text → Program (Page TargetRecord)
list_targets namespace_id limit after = do
  _ ← authorized Capability.target_read (ResourceScope.namespace namespace_id)
  visibility ← visible Capability.target_read
  size ← checked (page_limit limit)
  cursor ← checked (page_cursor after)
  _ ← store (Call.get_namespace namespace_id)
  store (Call.list_targets namespace_id visibility size cursor)

unfoldable pub get_target : ℕ → Program TargetRecord
get_target id = do
  _ ← authorized Capability.target_read (ResourceScope.target id)
  store (Call.get_target id)

unfoldable pub delete_target : ℕ → Program (Unit {0})
delete_target id = do
  _ ← authorized Capability.target_delete (ResourceScope.target id)
  current ← store (Call.get_target id)
  _ ← checked (guard (not (is_starter current)) invalid_request)
  store (Call.delete_target id)

unfoldable pub list_target_sets : ℕ → Option ℕ → Option Text → Program (Page TargetSetRecord)
list_target_sets namespace_id limit after = do
  _ ← authorized Capability.target_set_read (ResourceScope.namespace namespace_id)
  visibility ← visible Capability.target_set_read
  size ← checked (page_limit limit)
  cursor ← checked (page_cursor after)
  _ ← store (Call.get_namespace namespace_id)
  store (Call.list_target_sets namespace_id visibility size cursor)

unfoldable pub get_target_set : ℕ → Program TargetSetRecord
get_target_set id = do
  _ ← authorized Capability.target_set_read (ResourceScope.target_set id)
  store (Call.get_target_set id)

-- ===== src/Application/Checks.antt =====
-- application/service.rs: the checks that reach no port.
use mathlib.Core.Option
use Prim.Native.String.{String}
use crono.Prelude.{
  ℕ, Bool, true, false, not, ◌&&◌, ◌||◌, Option, none, some, is_some, List, [], ◌∷◌, length, any,
  leb, ltb, ◌==◌, if◌then◌else◌, Text, codes, trim, same_text, Result, ok, err, ◌>>=◌, guard,
}
use crono.Domain.Name.{validate_resource_name, parse}
use crono.Domain.Schedule.{MisfirePolicy}
use crono.Dispatch.Tail.{byte_len}
use crono.Execution.Inputs.{has_nul}
use crono.Execution.Template.{validate_argument_templates}
use crono.Application.Program.{ApplicationError, invalid, invalid_request}

abbrev default_limit : ℕ
default_limit = 50

abbrev max_limit : ℕ
max_limit = 100

abbrev max_target_set_members : ℕ
max_target_set_members = 1000

abbrev max_queue_description_characters : ℕ
max_queue_description_characters = 500

-- `map_err` to an invalid input
abbrev pub or_invalid : {E A : Type 0} → String → Result E A → Result ApplicationError A
or_invalid field (ok value) = ok value
or_invalid field (err failure) = err (invalid (codes field))

-- a name with the padding removed, or `invalid_name`
unfoldable pub parsed_name : Text → Result ApplicationError Text
unfolding parse
parsed_name value = or_invalid "name" (parse (trim value))

unfoldable pub ensure_queue_name_available : Text → Bool → Result ApplicationError (Unit {0})
ensure_queue_name_available name is_system_queue =
    if same_text name (codes "default") && not is_system_queue
    then err ApplicationError.conflict
    else ok tt

unfoldable pub page_cursor : Option Text → Result ApplicationError (Option Text)
unfolding validate_resource_name
page_cursor none = ok none
page_cursor (some cursor) =
    or_invalid "after" (validate_resource_name cursor) >>= λ _. ok (some cursor)

abbrev or_missing : {E A : Type 0} → Result E A → Result ApplicationError A
or_missing (ok value) = ok value
or_missing (err failure) = err ApplicationError.not_found

unfoldable pub stored_worker_id : Text → Result ApplicationError Text
unfolding validate_resource_name
stored_worker_id worker_id = or_missing (validate_resource_name worker_id) >>= λ _. ok worker_id

unfoldable pub page_limit : Option ℕ → Result ApplicationError ℕ
page_limit limit =
    let size = Option.get_or limit default_limit in
    if size == 0 || ltb max_limit size then err (invalid (codes "limit")) else ok size

abbrev description_ok : Option Text → Bool
description_ok none = true
description_ok (some value) =
    not (has_nul value || ltb max_queue_description_characters (length value))

unfoldable pub validate_queue_description : Option Text → Result ApplicationError (Unit {0})
validate_queue_description description =
    guard (description_ok description) (invalid (codes "description"))

unfoldable pub validate_arguments : List Text → Result ApplicationError (Unit {0})
unfolding validate_argument_templates
validate_arguments arguments =
    if ltb 128 (length arguments) || any (λ a. ltb 4096 (byte_len a) || has_nul a) arguments
    then err (invalid (codes "arguments"))
    else or_invalid "arguments" (validate_argument_templates arguments)

-- whether the `BTreeSet` of the identifiers has fewer of them
unfoldable pub has_duplicates : List ℕ → Bool
has_duplicates [] = false
has_duplicates (id ∷ ids) = any (λ other. id == other) ids || has_duplicates ids

unfoldable pub validate_target_ids : List ℕ → Result ApplicationError (Unit {0})
unfolding has_duplicates
validate_target_ids target_ids = do
  _ ←
      guard (ltb 0 (length target_ids) && leb (length target_ids) max_target_set_members)
        (invalid (codes "target_ids"))
  guard (not (has_duplicates target_ids)) (invalid (codes "target_ids"))

-- `matches!(policy, MisfirePolicy::GracePeriod) == grace_seconds.is_some()`
abbrev matching : MisfirePolicy → Option ℕ → Bool
matching MisfirePolicy.grace_period grace_seconds = is_some grace_seconds
matching _ grace_seconds = not (is_some grace_seconds)

-- it fits an `i32`
abbrev storable : Option ℕ → Bool
storable none = true
storable (some seconds) = leb seconds 2147483647

unfoldable pub validate_schedule_policy :
    MisfirePolicy → Option ℕ → ℕ → ℕ → Result ApplicationError (Unit {0})
validate_schedule_policy policy grace_seconds max_catchup_runs max_catchup_age_seconds = do
  _ ← guard (matching policy grace_seconds) (invalid (codes "misfire_grace_seconds"))
  _ ← guard (storable grace_seconds) (invalid (codes "misfire_grace_seconds"))
  guard
      ((leb 1 max_catchup_runs && leb max_catchup_runs 1000)
        && leb 60 max_catchup_age_seconds
        && leb max_catchup_age_seconds 31536000)
      invalid_request

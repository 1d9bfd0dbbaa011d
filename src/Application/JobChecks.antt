-- ===== src/Application/JobChecks.antt =====
-- application/service.rs: the checks of inputs, of a Job and of what an execution renders.
use crono.Prelude.{
  ℕ, Bool, false, not, ◌&&◌, ◌||◌, Option, none, some, is_some, List, [], ◌∷◌, ◌++◌, leb, ltb, ◌==◌,
  Text, codes, trim, is_blank, Result, ok, err, ◌>>=◌, guard,
}
use mathlib.Core.Option
use crono.Domain.Json.{Value, Members}
use crono.Domain.Numbers.{is_finite, below_one, in_unit}
use crono.Domain.Entities.{ExecutorKind, Job, Target}
use crono.Dispatch.Tail.{byte_len}
use crono.Execution.Inputs.{has_nul, validate_inputs, merge_inputs}
use crono.Execution.Template.{find_pair, render_arguments}
use crono.Application.Model.{CreateJobInput}
use crono.Application.Program.{ApplicationError, invalid, invalid_request}
use crono.Application.Checks.{or_invalid, validate_arguments}

-- the bounds of the attempts and of the retry policy
unfoldable pub validate_retry : CreateJobInput → Result ApplicationError (Unit {0})
validate_retry input = do
  _ ←
      guard (leb 1 input.max_attempts && leb input.max_attempts 100)
        (invalid (codes "max_attempts"))
  guard
      (leb 1 input.retry_initial_seconds
        && leb input.retry_initial_seconds 86400
        && leb input.retry_initial_seconds input.retry_max_seconds
        && leb input.retry_max_seconds 86400
        && is_finite input.retry_multiplier
        && not (below_one input.retry_multiplier)
        && is_finite input.retry_jitter
        && in_unit input.retry_jitter)
      invalid_request

abbrev path_valid : Option Text → Bool
path_valid none = false
path_valid (some []) = false
path_valid (some (first ∷ rest)) =
    first == b'/' && not (has_nul (first ∷ rest)) && leb (byte_len (first ∷ rest)) 4096

-- the script of a Shell Job
unfoldable pub validate_script : Option Text → Result ApplicationError (Unit {0})
validate_script none = err (invalid (codes "shell_command"))
validate_script (some script) = do
  _ ←
      guard (not (is_blank (trim script) || ltb 65536 (byte_len script) || has_nul script))
        (invalid (codes "shell_command"))
  guard (not (is_some (find_pair b'{' script))) (invalid (codes "shell_command"))

-- the `match input.executor`
unfoldable pub validate_command :
    ExecutorKind → Option Text → Option Text → Result ApplicationError (Unit {0})
unfolding validate_script
validate_command ExecutorKind.noop executable shell_command =
    guard (not (is_some executable) && not (is_some shell_command)) (invalid (codes "executable"))
validate_command ExecutorKind.process executable shell_command =
    guard (path_valid executable && not (is_some shell_command)) (invalid (codes "executable"))
validate_command ExecutorKind.shell executable shell_command = do
  _ ← guard (path_valid executable) (invalid (codes "executable"))
  validate_script shell_command

unfoldable pub normalize_job_input : CreateJobInput → CreateJobInput
normalize_job_input input = record input { executable = Option.map trim input.executable }

-- the size of an encoding in JSON
module _ (encoded_len : Value → Option ℕ) where
  unfoldable pub validate_input_object : Value → Result ApplicationError (Unit {0})
  validate_input_object inputs = or_invalid "inputs" (validate_inputs encoded_len inputs)

  unfoldable pub validate_job : CreateJobInput → Result ApplicationError (Unit {0})
  unfolding validate_retry validate_command validate_input_object
  validate_job input = do
    _ ← validate_arguments input.arguments
    _ ← validate_input_object input.inputs
    _ ← validate_retry input
    validate_command input.executor input.executable input.shell_command

  unfoldable pub validate_rendered_execution :
      Job → Option Value → Target → Value → Result ApplicationError (Unit {0})
  validate_rendered_execution job target_set_inputs target invocation_inputs = do
    merged ← or_invalid "inputs" (
        merge_inputs encoded_len (
          job.inputs
          ∷ Option.get_or target_set_inputs (Value.object Members.end)
          ∷ target.inputs
          ∷ invocation_inputs
          ∷ []))
    _ ←
        or_invalid "arguments"
          (render_arguments encoded_len (job.arguments ++ target.arguments) merged)
    ok tt

  -- the `for selected_target in &targets`
  unfoldable pub validate_renderings :
      Job → Option Value → List Target → Value → Result ApplicationError (Unit {0})
  unfolding validate_rendered_execution
  validate_renderings job target_set_inputs [] invocation_inputs = ok tt
  validate_renderings job target_set_inputs (target ∷ targets) invocation_inputs = do
    _ ← validate_rendered_execution job target_set_inputs target invocation_inputs
    validate_renderings job target_set_inputs targets invocation_inputs

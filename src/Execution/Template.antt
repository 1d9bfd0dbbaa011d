-- ===== src/Execution/Template.antt =====
-- crates/execution/src/lib.rs: the argument templates. The byte positions of the source stand
-- between characters, so a text is cut into what is before the mark and what is behind it.
pub mod Search
pub mod Paths
pub mod Fuel
pub mod Pieces
pub mod Rendering
use mathlib.Core.Option
use crono.Prelude.{
  ℕ, zero, suc, Bool, true, false, ◌&&◌, not, Option, none, some, List, [], ◌∷◌, ◌++◌, all, length,
  ◌==◌, if◌then◌else◌, Text, codes, trim, is_blank, Result, ok, err, ◌>>=◌, guard, ok_or,
}
use crono.Domain.Json.{Value}
use crono.Execution.Inputs.{InputError, valid_segment, get_member, validate_inputs}

-- the text behind two `c`
unfoldable pub strip_pair : ℕ → Text → Option Text
strip_pair c (a ∷ b ∷ text) = if (a == c) && (b == c) then some text else none
strip_pair c _ = none

abbrev pub found_here : Option Text → Option (Text × Text) → Option (Text × Text)
found_here (some rest) later = some ([], rest)
found_here none later = later

-- `find` of two `c`: the text before the first of them, and the text behind
unfoldable pub find_pair : ℕ → Text → Option (Text × Text)
unfolding strip_pair
find_pair c [] = none
find_pair c (a ∷ text) =
    let later = Option.map (λ found. (a ∷ found.0, found.1)) (find_pair c text) in
    found_here (strip_pair c (a ∷ text)) later

abbrev pub cons_first : ℕ → Option Text → Option Text
cons_first a rest = Option.map (λ found. a ∷ found) rest

-- `strip_suffix('\\')`
unfoldable pub strip_backslash : Text → Option Text
strip_backslash [] = none
strip_backslash (a ∷ []) = if a == 0x5c then some [] else none
strip_backslash (a ∷ b ∷ text) = cons_first a (strip_backslash (b ∷ text))

abbrev pub push_front : ℕ → List Text → List Text
push_front c [] = (c ∷ []) ∷ []
push_front c (part ∷ parts) = (c ∷ part) ∷ parts

-- `split('.')`
unfoldable pub split_dots : Text → List Text
split_dots [] = [] ∷ []
split_dots (c ∷ text) =
    let parts = split_dots text in if c == b'.' then [] ∷ parts else push_front c parts

unfoldable pub validate_path : Text → Result InputError (Unit {0})
unfolding split_dots valid_segment
validate_path path =
    guard (not (is_blank path) && all valid_segment (split_dots path)) InputError.invalid_template

-- `as_object().and_then(|object| object.get(segment))`
abbrev child : Text → Value → Option Value
child segment (Value.object members) = get_member segment members
child segment _ = none

-- the `for segment in path.split('.')`
unfoldable pub walk : Text → List Text → Value → Result InputError Value
unfolding get_member
walk path [] value = ok value
walk path (segment ∷ segments) value =
    ok_or (child segment value) (InputError.missing_variable path) >>= walk path segments

-- the `match value` of `render_path`
unfoldable pub render_scalar : Text → Value → Result InputError Text
render_scalar path (Value.string text) = ok text
render_scalar path (Value.number text) = ok text
render_scalar path (Value.bool b) = ok (if b then codes "true" else codes "false")
render_scalar path _ = err (InputError.non_scalar_variable path)

unfoldable pub render_path : Value → Text → Result InputError Text
unfolding walk render_scalar
render_path inputs path = walk path (split_dots path) inputs >>= render_scalar path

abbrev pub open_mark : Text
open_mark = b'{' ∷ b'{' ∷ []

abbrev pub close_mark : Text
close_mark = b'}' ∷ b'}' ∷ []

-- what a placeholder adds to the output
unfoldable pub placeholder : Option Value → Text → Result InputError Text
unfolding render_path
placeholder (some values) path = render_path values path
placeholder none path = ok (open_mark ++ path ++ close_mark)

-- One round of the `while let`, with the rounds behind it as an argument.
module _ (inputs : Option Value) (again : Text → Text → Result InputError Text) where
  -- a placeholder behind what is already put out
  unfoldable pub close_placeholder : Text → Text → Result InputError Text
  unfolding validate_path placeholder
  close_placeholder output after_open = do
    (inside, behind) ← ok_or (find_pair b'}' after_open) InputError.invalid_template
    let path = trim inside
    _ ← validate_path path
    rendered ← placeholder inputs path
    again (output ++ rendered) behind

  -- the mark behind a prefix, which a backslash escapes
  unfoldable pub open_placeholder : Text → Text → Text → Option Text → Result InputError Text
  unfolding close_placeholder
  open_placeholder output prefix after_open (some literal_prefix) =
      again (output ++ literal_prefix ++ open_mark) after_open
  open_placeholder output prefix after_open none = close_placeholder (output ++ prefix) after_open

  unfoldable pub round : Text → Text → Option (Text × Text) → Result InputError Text
  unfolding open_placeholder strip_backslash
  round output remaining none = ok (output ++ remaining)
  round output remaining (some (prefix, after_open)) =
      open_placeholder output prefix after_open (strip_backslash prefix)

-- The loop behind the output so far. Each round takes off two characters or more, so the length of
-- the template bounds their number.
unfoldable pub parse_loop : ℕ → Option Value → Text → Text → Result InputError Text
unfolding find_pair round
parse_loop zero inputs output remaining = ok (output ++ remaining)
parse_loop (suc fuel) inputs output remaining =
    round inputs (parse_loop fuel inputs) output remaining (find_pair b'{' remaining)

unfoldable pub parse_template : Text → Option Value → Result InputError Text
unfolding parse_loop
parse_template template inputs = parse_loop (length template) inputs [] template

-- the `for argument in arguments`
unfoldable pub validate_argument_templates : List Text → Result InputError (Unit {0})
unfolding parse_template
validate_argument_templates [] = ok tt
validate_argument_templates (argument ∷ arguments) =
    parse_template argument none >>= λ _. validate_argument_templates arguments

-- the `collect` of the rendered arguments
unfoldable pub render_all : List Text → Value → Result InputError (List Text)
unfolding parse_template
render_all [] inputs = ok []
render_all (argument ∷ arguments) inputs = do
  rendered ← parse_template argument (some inputs)
  rest ← render_all arguments inputs
  ok (rendered ∷ rest)

unfoldable pub render_arguments :
    (Value → Option ℕ) → List Text → Value → Result InputError (List Text)
unfolding validate_inputs render_all
render_arguments encoded_len arguments inputs =
    validate_inputs encoded_len inputs >>= λ _. render_all arguments inputs

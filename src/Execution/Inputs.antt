-- ===== src/Execution/Inputs.antt =====
-- crates/execution/src/lib.rs: the validation and the merge of execution inputs. An object of
-- `serde_json` is a map that is ordered by its keys. The size of the encoding is an argument, with
-- `none` where `to_vec` fails.
use crono.Prelude.{
  ℕ, Bool, true, false, ◌&&◌, ◌||◌, Option, none, some, List, [], ◌∷◌, any, all, leb, ltb, ◌==◌,
  if◌then◌else◌, Text, same_text, earlier_text, Result, ok, err, ◌>>=◌, ◌>>◌, guard, ok_or,
}
use crono.Domain.Json.{Value, Values, Members}

-- the messages of `InvalidTemplate` are left out
pub data InputError : Type 0 where
  not_object too_large : InputError
  invalid_key : Text → InputError
  nul_character invalid_template : InputError
  missing_variable non_scalar_variable : Text → InputError

abbrev pub max_input_bytes : ℕ
max_input_bytes = 65536

unfoldable pub is_segment_character : ℕ → Bool
is_segment_character c =
    (leb b'a' c && leb c b'z') || (leb b'0' c && leb c b'9') || c == b'_' || c == b'-'

unfoldable pub valid_segment : Text → Bool
unfolding is_segment_character
valid_segment [] = false
valid_segment (first ∷ rest) =
    ((leb b'a' first && leb first b'z') || first == b'_') && all is_segment_character rest

-- `text.contains('\0')`
abbrev pub has_nul : Text → Bool
has_nul text = any (λ c. c == 0) text

unfoldable mutual
  unfolding valid_segment

  pub validate_entries : Value → Result InputError (Unit {0})
  validate_entries (Value.object values) = validate_members values
  validate_entries (Value.array values) = validate_values values
  validate_entries (Value.string text) =
      if has_nul text then err InputError.nul_character else ok tt
  validate_entries Value.null = ok tt
  validate_entries (Value.bool b) = ok tt
  validate_entries (Value.number n) = ok tt

  pub validate_members : Members → Result InputError (Unit {0})
  validate_members Members.end = ok tt
  validate_members (Members.member key nested rest) =
      guard (valid_segment key) (InputError.invalid_key key)
      >> validate_entries nested
      >> validate_members rest

  pub validate_values : Values → Result InputError (Unit {0})
  validate_values Values.nil = ok tt
  validate_values (Values.cons nested rest) = validate_entries nested >> validate_values rest

abbrev pub is_object : Value → Bool
is_object (Value.object values) = true
is_object _ = false

-- `Map::get`
unfoldable pub get_member : Text → Members → Option Value
get_member key Members.end = none
get_member key (Members.member name value rest) =
    if same_text name key then some value else get_member key rest

-- `Map::insert`, and the write through `get_mut`: the key keeps its place, or takes it.
unfoldable pub put_member : Text → Value → Members → Members
put_member key value Members.end = Members.member key value Members.end
put_member key value (Members.member name old rest) =
    let behind = put_member key value rest in
    if same_text name key
    then Members.member key value rest
    else if earlier_text key name
    then Members.member key value (Members.member name old rest)
    else Members.member name old behind

unfoldable mutual
  unfolding get_member put_member

  -- what the write of `overlay` leaves where there was an entry or none
  pub merge_entry : Value → Option Value → Value
  merge_entry (Value.object overlay) (some (Value.object base)) =
      Value.object (merge_members base overlay)
  merge_entry overlay _ = overlay

  -- the `for (key, value) in overlay_values`
  pub merge_members : Members → Members → Members
  merge_members base Members.end = base
  merge_members base (Members.member key value rest) =
      merge_members (put_member key (merge_entry value (get_member key base)) base) rest

unfoldable pub merge_value : Value → Value → Value
unfolding merge_entry
merge_value base overlay = merge_entry overlay (some base)

module _ (encoded_len : Value → Option ℕ) where
  unfoldable pub validate_inputs : Value → Result InputError (Unit {0})
  unfolding validate_entries
  validate_inputs value = do
    _ ← guard (is_object value) InputError.not_object
    _ ← validate_entries value
    size ← ok_or (encoded_len value) InputError.invalid_template
    if ltb max_input_bytes size then err InputError.too_large else ok tt

  -- the `for layer in layers`
  unfoldable pub merge_layers : Value → List Value → Result InputError Value
  unfolding validate_inputs merge_value
  merge_layers merged [] = ok merged
  merge_layers merged (layer ∷ layers) = do
    _ ← validate_inputs layer
    merge_layers (merge_value merged layer) layers

  unfoldable pub merge_inputs : List Value → Result InputError Value
  unfolding merge_layers
  merge_inputs layers = do
    merged ← merge_layers (Value.object Members.end) layers
    _ ← validate_inputs merged
    ok merged

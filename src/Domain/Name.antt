-- ===== src/Domain/Name.antt =====
-- domain/name.rs and `validate_resource_name` of crates/api/src/lib.rs. A `NamespaceName`, a
-- `ResourceName` and a `QueueName` are the text that they wrap.
use crono.Prelude.{
  ℕ, ◌+◌, Bool, ◌&&◌, ◌||◌, [], ◌∷◌, leb, ltb, ◌==◌, if◌then◌else◌, Text, Result, ok, err, ◌>>=◌,
}
use crono.Dispatch.Tail.{utf8_len, byte_len}

pub data ResourceNameError : Type 0 where
  empty invalid_boundary : ResourceNameError
  -- the position in bytes, and the character
  invalid_character : ℕ → ℕ → ResourceNameError
  too_long : ResourceNameError

abbrev pub resource_name_max_length : ℕ
resource_name_max_length = 63

unfoldable pub is_name_boundary : ℕ → Bool
is_name_boundary c = (leb b'a' c && leb c b'z') || (leb b'0' c && leb c b'9')

unfoldable pub is_name_character : ℕ → Bool
unfolding is_name_boundary
is_name_character c = is_name_boundary c || c == b'-'

-- the characters behind the first one; `last` is the one before them
unfoldable pub validate_rest : ℕ → ℕ → Text → Result ResourceNameError (Unit {0})
unfolding is_name_character
validate_rest position last [] =
    if is_name_boundary last then ok tt else err ResourceNameError.invalid_boundary
validate_rest position last (c ∷ rest) =
    if is_name_character c
    then validate_rest (position + utf8_len c) c rest
    else err (ResourceNameError.invalid_character position c)

unfoldable pub validate_characters : Text → Result ResourceNameError (Unit {0})
unfolding validate_rest
validate_characters [] = err ResourceNameError.empty
validate_characters (first ∷ rest) =
    if is_name_boundary first
    then validate_rest (utf8_len first) first rest
    else err ResourceNameError.invalid_boundary

unfoldable pub validate_resource_name : Text → Result ResourceNameError (Unit {0})
unfolding validate_characters byte_len
validate_resource_name value =
    if ltb resource_name_max_length (byte_len value)
    then err ResourceNameError.too_long
    else validate_characters value

-- `NamespaceName::parse`, `ResourceName::parse` and `QueueName::parse`
unfoldable pub parse : Text → Result ResourceNameError Text
unfolding validate_resource_name
parse value = validate_resource_name value >>= λ _. ok value

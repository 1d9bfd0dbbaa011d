-- ===== src/Dispatch/Tail.antt =====
-- `bounded_tail` and `bounded_error` of infrastructure/postgres.rs. A text is its code points; its
-- length in bytes is that of UTF-8, and a character boundary stands between two code points.
pub mod Bounds
use crono.Prelude.{ℕ, zero, suc, ◌+◌, ◌-◌, [], ◌∷◌, leb, ltb, if◌then◌else◌, Text}

abbrev pub utf8_len : ℕ → ℕ
utf8_len c = if ltb c 0x80 then 1 else if ltb c 0x800 then 2 else if ltb c 0x10000 then 3 else 4

unfoldable pub byte_len : Text → ℕ
byte_len [] = 0
byte_len (c ∷ text) = utf8_len c + byte_len text

-- The text from the first character boundary at or behind `start` bytes: the `while
-- !is_char_boundary` loop together with the slice.
unfoldable pub from_boundary : ℕ → Text → Text
from_boundary zero text = text
from_boundary (suc start) [] = []
from_boundary (suc start) (c ∷ text) = from_boundary (suc start - utf8_len c) text

-- the last `limit` bytes of a text, from a character boundary on
unfoldable pub tail_of : ℕ → Text → Text
unfolding byte_len from_boundary
tail_of limit text =
    if leb (byte_len text) limit then text else from_boundary (byte_len text - limit) text

abbrev pub tail_limit : ℕ
tail_limit = 65_536

unfoldable pub bounded_tail : Text → Text
unfolding tail_of
bounded_tail text = tail_of tail_limit text

-- `value.chars().take(limit)`
unfoldable pub take_chars : ℕ → Text → Text
take_chars zero text = []
take_chars (suc limit) [] = []
take_chars (suc limit) (c ∷ text) = c ∷ take_chars limit text

abbrev pub error_limit : ℕ
error_limit = 1024

unfoldable pub bounded_error : Text → Text
unfolding take_chars
bounded_error value = take_chars error_limit value

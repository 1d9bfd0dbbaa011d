-- ===== src/Prelude/Strings.antt =====
-- A Rust `str` as the list of its code points.
use Prim.Native.Nat.{ℕ}
use Prim.Native.Char.{code}
use Prim.Native.String.{String}
use mathlib.Core.Bool.{Bool, ◌||◌}
use mathlib.Core.List.{List, [], ◌∷◌}
use mathlib.Core.Path.{◌≡◌, refl}
use native.Mathlib.Omega.{arith}
use mathlib.Core.Bool.{true, false, ◌&&◌}
use crono.Prelude.Lists.{any}
use crono.Prelude.Tests.{ltb, leb, ◌==◌, if◌then◌else◌}

abbrev pub Text : Type 0
Text = List ℕ

-- The code points of a literal.
abbrev pub codes : String → Text
codes String.[] = []
codes (String.◌∷◌ c s) = code c ∷ codes s

-- `char::is_whitespace`: the Unicode property White_Space.
unfoldable pub is_whitespace : ℕ → Bool
is_whitespace c =
    (leb 0x09 c && leb c 0x0d)
    || c == 0x20
    || c == 0x85
    || c == 0xa0
    || c == 0x1680
    || (leb 0x2000 c && leb c 0x200a)
    || c == 0x2028
    || c == 0x2029
    || c == 0x202f
    || c == 0x205f
    || c == 0x3000

abbrev push_word : Text → List Text → List Text
push_word [] words = words
push_word (c ∷ w) words = (c ∷ w) ∷ words

-- The word that the text begins with, and the words behind it.
words_of : Text → Text × List Text
unfolding is_whitespace
words_of [] = ([], [])
words_of (c ∷ rest) =
    let (word, words) = words_of rest in
    if is_whitespace c then ([], push_word word words) else (c ∷ word, words)

-- `str::split_whitespace().collect()`
unfoldable pub split_whitespace : Text → List Text
unfolding words_of
split_whitespace text = let (word, words) = words_of text in push_word word words

trim_start : Text → Text
trim_start [] = []
trim_start (c ∷ text) = if is_whitespace c then trim_start text else c ∷ text

-- a character in front of what is left of the text behind it
abbrev keep : ℕ → Text → Text
keep c [] = if is_whitespace c then [] else c ∷ []
keep c (d ∷ text) = c ∷ d ∷ text

trim_end : Text → Text
trim_end [] = []
trim_end (c ∷ text) = keep c (trim_end text)

-- `str::trim`
unfoldable pub trim : Text → Text
unfolding trim_start trim_end
trim text = trim_end (trim_start text)

-- `==` of texts
unfoldable pub same_text : Text → Text → Bool
same_text [] [] = true
same_text (a ∷ s) (b ∷ t) = if a == b then same_text s t else false
same_text _ _ = false

-- `<` of texts: that of their bytes in UTF-8 is that of their code points
unfoldable pub earlier_text : Text → Text → Bool
earlier_text _ [] = false
earlier_text [] (b ∷ t) = true
earlier_text (a ∷ s) (b ∷ t) = ltb a b || (a == b && earlier_text s t)

pub same_text_refl : (s : Text) → same_text s s ≡ true
unfolding same_text
same_text_refl [] = refl
same_text_refl (a ∷ s) = ground (arith, same_text_refl s)

pub same_text-eq : (s t : Text) → same_text s t ≡ true → s ≡ t
unfolding same_text
same_text-eq [] [] h = refl
same_text-eq [] (b ∷ t) h = cc
same_text-eq (a ∷ s) [] h = cc
same_text-eq (a ∷ s) (b ∷ t) h = grind (arith, same_text-eq s t)

-- A text without whitespace is not changed by `trim`.
trim_end-solid : (text : Text) → any is_whitespace text ≡ false → trim_end text ≡ text
unfolding trim_end
trim_end-solid [] h = refl
trim_end-solid (c ∷ []) h = ground (arith)
trim_end-solid (c ∷ d ∷ text) h = rw (trim_end-solid (d ∷ text) (ground (arith))) refl

pub trim-solid : (text : Text) → any is_whitespace text ≡ false → trim text ≡ text
unfolding trim trim_start
trim-solid [] h = refl
trim-solid (c ∷ text) h =
    let solid : is_whitespace c ≡ false = ground (arith) in rw solid (trim_end-solid (c ∷ text) h)

abbrev pub is_blank : Text → Bool
is_blank [] = true
is_blank (c ∷ text) = false

-- ===== src/Execution/Template/Paths.antt =====
-- crates/execution/src/lib.rs: the path of a variable, put together from input keys.
use crono.Prelude.{
  ℕ, Bool, true, false, ◌||◌, List, [], ◌∷◌, ◌++◌, all, any, All, ◌==◌, ◌≡◌, ◌≤◌, refl, ap, ◌∙◌,
  arith, Text, trim, trim-solid, is_blank, is_whitespace, ok,
}
use crono.Execution.Inputs.{valid_segment, is_segment_character}
use crono.Execution.Template.{split_dots, push_front, validate_path}
use crono.Execution.Template.Search.{Free}

abbrev pub path_of : Text → List Text → Text
path_of segment [] = segment
path_of segment (next ∷ segments) = segment ++ b'.' ∷ path_of next segments

abbrev pub Keys : List Text → Type 0
Keys segments = All (λ s. valid_segment s ≡ true) segments

segment-characters : (s : Text) → valid_segment s ≡ true → all is_segment_character s ≡ true
unfolding valid_segment
segment-characters [] h = cc
segment-characters (a ∷ s) h = ground arith

-- the characters of a path
abbrev path_character : ℕ → Bool
path_character a = is_segment_character a || a == b'.'

all-weaken :
    (p q : ℕ → Bool) (text : Text)
    → ((a : ℕ) → p a ≡ true → q a ≡ true)
    → all p text ≡ true
    → all q text ≡ true
all-weaken p q [] f h = refl
all-weaken p q (a ∷ text) f h = grind (arith, f a, all-weaken p q text f)

all-append :
    (p : ℕ → Bool) (front text : Text)
    → all p front ≡ true
    → all p text ≡ true
    → all p (front ++ text) ≡ true
all-append p [] text f h = h
all-append p (a ∷ front) text f h = grind (arith, all-append p front text)

none-of :
    (p q : ℕ → Bool) (text : Text)
    → ((a : ℕ) → p a ≡ true → q a ≡ false)
    → all p text ≡ true
    → any q text ≡ false
none-of p q [] f h = refl
none-of p q (a ∷ text) f h = grind (arith, f a, none-of p q text f)

character-bounds : (a : ℕ) → path_character a ≡ true → (45 ≤ a) × (a ≤ 122)
unfolding is_segment_character
character-bounds a h = ground arith

brace-free : (a : ℕ) → path_character a ≡ true → (a == b'}') ≡ false
brace-free a h = let b = character-bounds a h in ground arith

not_whitespace : (a : ℕ) → 45 ≤ a → a ≤ 122 → is_whitespace a ≡ false
unfolding is_whitespace
not_whitespace a low high = ground arith

solid-character : (a : ℕ) → path_character a ≡ true → is_whitespace a ≡ false
solid-character a h = let b = character-bounds a h in not_whitespace a b.0 b.1

segment-character : (a : ℕ) → is_segment_character a ≡ true → path_character a ≡ true
segment-character a h = rw h refl

dot-free : (a : ℕ) → is_segment_character a ≡ true → (a == b'.') ≡ false
unfolding is_segment_character
dot-free a h = ground arith

segment-path : (s : Text) → valid_segment s ≡ true → all path_character s ≡ true
segment-path s h =
    all-weaken is_segment_character path_character s segment-character (segment-characters s h)

segment-Free : (s : Text) → valid_segment s ≡ true → Free b'.' s
segment-Free s h = none-of is_segment_character (λ a. a == b'.') s dot-free (segment-characters s h)

path_of-characters :
    (segment : Text) (segments : List Text)
    → Keys (segment ∷ segments)
    → all path_character (path_of segment segments) ≡ true
path_of-characters segment [] keys = segment-path segment keys.0
path_of-characters segment (next ∷ segments) keys =
    all-append path_character segment (b'.' ∷ path_of next segments) (segment-path segment keys.0)
      (ground (arith, path_of-characters next segments keys.1))

pub path_of-Free :
    (segment : Text) (segments : List Text)
    → Keys (segment ∷ segments)
    → Free b'}' (path_of segment segments)
path_of-Free segment segments keys =
    none-of path_character (λ a. a == b'}') (path_of segment segments) brace-free
      (path_of-characters segment segments keys)

pub path_of-trim :
    (segment : Text) (segments : List Text)
    → Keys (segment ∷ segments)
    → trim (path_of segment segments) ≡ path_of segment segments
path_of-trim segment segments keys = trim-solid (path_of segment segments) (
    none-of path_character is_whitespace (path_of segment segments) solid-character
      (path_of-characters segment segments keys))

split_dots-Free : (text : Text) → Free b'.' text → split_dots text ≡ text ∷ []
unfolding split_dots
split_dots-Free [] h = refl
split_dots-Free (a ∷ text) h =
    let other : (a == b'.') ≡ false = ground arith in
    rw other (ap (push_front a) (split_dots-Free text (ground arith)))

split_dots-append :
    (front text : Text)
    → Free b'.' front
    → split_dots (front ++ b'.' ∷ text) ≡ front ∷ split_dots text
unfolding split_dots
split_dots-append [] text h = refl
split_dots-append (a ∷ front) text h =
    let other : (a == b'.') ≡ false = ground arith in
    rw other (ap (push_front a) (split_dots-append front text (ground arith)))

pub split_dots-path_of :
    (segment : Text) (segments : List Text)
    → Keys (segment ∷ segments)
    → split_dots (path_of segment segments) ≡ segment ∷ segments
split_dots-path_of segment [] keys = split_dots-Free segment (segment-Free segment keys.0)
split_dots-path_of segment (next ∷ segments) keys =
    split_dots-append segment (path_of next segments) (segment-Free segment keys.0)
    ∙ ap (λ rest. segment ∷ rest) (split_dots-path_of next segments keys.1)

path_of-filled :
    (segment : Text) (segments : List Text)
    → valid_segment segment ≡ true
    → is_blank (path_of segment segments) ≡ false
unfolding valid_segment
path_of-filled [] segments h = cc
path_of-filled (a ∷ s) [] h = refl
path_of-filled (a ∷ s) (next ∷ segments) h = refl

all-Keys : (segments : List Text) → Keys segments → all valid_segment segments ≡ true
all-Keys [] keys = refl
all-Keys (s ∷ segments) keys = rw keys.0 (all-Keys segments keys.1)

pub validate_path-path_of :
    (segment : Text) (segments : List Text)
    → Keys (segment ∷ segments)
    → validate_path (path_of segment segments) ≡ ok tt
unfolding validate_path
validate_path-path_of segment segments keys =
    rw (path_of-filled segment segments keys.0)
      (rw (split_dots-path_of segment segments keys) (rw (all-Keys (segment ∷ segments) keys) refl))

-- ===== src/Execution/Template/Search.antt =====
-- crates/execution/src/lib.rs: the searches of the template parser on a text that is put together.
use mathlib.Core.Option
use crono.Prelude.{
  ℕ, true, false, Option, none, some, [], ◌∷◌, ◌++◌, any, ◌==◌, ◌≡◌, refl, ap, ◌∙◌, sym, arith,
  Text,
}
use crono.Execution.Template.{strip_pair, found_here, find_pair, strip_backslash, cons_first}

-- no character of the text is `c`
abbrev pub Free : ℕ → Text → Type 0
Free c text = any (λ a. a == c) text ≡ false

abbrev pub prepended : Text → Option (Text × Text) → Option (Text × Text)
prepended front found = Option.map (λ f. (front ++ f.0, f.1)) found

abbrev pub prepended_text : Text → Option Text → Option Text
prepended_text front found = Option.map (λ f. front ++ f) found

before-nothing : (found : Option (Text × Text)) → prepended [] found ≡ found
before-nothing none = refl
before-nothing (some f) = refl

before-cons :
    (a : ℕ) (front : Text) (found : Option (Text × Text))
    → prepended (a ∷ []) (prepended front found) ≡ prepended (a ∷ front) found
before-cons a front none = refl
before-cons a front (some f) = refl

strip_pair-skip : (c a : ℕ) (text : Text) → (a == c) ≡ false → strip_pair c (a ∷ text) ≡ none
unfolding strip_pair
strip_pair-skip c a [] h = refl
strip_pair-skip c a (b ∷ text) h = rw h refl

pub find_pair-skip :
    (c : ℕ) (front text : Text)
    → Free c front
    → find_pair c (front ++ text) ≡ prepended front (find_pair c text)
unfolding find_pair
find_pair-skip c [] text free = sym (before-nothing (find_pair c text))
find_pair-skip c (a ∷ front) text free =
    let other : (a == c) ≡ false = ground arith in
    let rest : Free c front = ground arith in
    ap (λ s. found_here s (prepended (a ∷ []) (find_pair c (front ++ text))))
      (strip_pair-skip c a (front ++ text) other)
    ∙ ap (prepended (a ∷ [])) (find_pair-skip c front text rest)
    ∙ before-cons a front (find_pair c text)

pub strip_backslash-Free : (text : Text) → Free 0x5c text → strip_backslash text ≡ none
unfolding strip_backslash
strip_backslash-Free [] free = refl
strip_backslash-Free (a ∷ []) free = ground arith
strip_backslash-Free (a ∷ b ∷ text) free = rw (strip_backslash-Free (b ∷ text) (ground arith)) refl

before_text-nothing : (found : Option Text) → prepended_text [] found ≡ found
before_text-nothing none = refl
before_text-nothing (some f) = refl

before_text-cons :
    (a : ℕ) (front : Text) (found : Option Text)
    → cons_first a (prepended_text front found) ≡ prepended_text (a ∷ front) found
before_text-cons a front none = refl
before_text-cons a front (some f) = refl

before_text-one : (a : ℕ) (found : Option Text) → cons_first a found ≡ prepended_text (a ∷ []) found
before_text-one a none = refl
before_text-one a (some f) = refl

-- what is in front of a text that is not blank
pub strip_backslash-append :
    (front : Text) (a : ℕ) (text : Text)
    → strip_backslash (front ++ a ∷ text) ≡ prepended_text front (strip_backslash (a ∷ text))
unfolding strip_backslash
strip_backslash-append [] a text = sym (before_text-nothing (strip_backslash (a ∷ text)))
strip_backslash-append (b ∷ []) a text = before_text-one b (strip_backslash (a ∷ text))
strip_backslash-append (b ∷ d ∷ front) a text =
    rw (strip_backslash-append (d ∷ front) a text)
      (before_text-cons b (d ∷ front) (strip_backslash (a ∷ text)))

strip_pair-here : (c : ℕ) (text : Text) → strip_pair c (c ∷ c ∷ text) ≡ some text
unfolding strip_pair
strip_pair-here c text = let same : (c == c) ≡ true = ground arith in rw same refl

pub find_pair-here : (c : ℕ) (text : Text) → find_pair c (c ∷ c ∷ text) ≡ some ([], text)
unfolding find_pair
find_pair-here c text =
    ap (λ s. found_here s (prepended (c ∷ []) (find_pair c (c ∷ text)))) (strip_pair-here c text)

-- what is in front of the first mark
pub find_pair-close :
    (c : ℕ) (front text : Text)
    → Free c front
    → find_pair c (front ++ c ∷ c ∷ text) ≡ some (front ++ [], text)
find_pair-close c front text free =
    find_pair-skip c front (c ∷ c ∷ text) free ∙ ap (prepended front) (find_pair-here c text)

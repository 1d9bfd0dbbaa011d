-- ===== src/Workflow/Counting.antt =====
-- How often a name occurs in a list of names.
use Prim.Native.String.{String}
use text.Mathlib.Text.{◌==◌ as str_eq}
use text.Mathlib.TextEquality.{eq_iff}
use text.Mathlib.TextPositions.{eq_refl}
use crono.Prelude.{
  ℕ, suc, ◌+◌, ◌≤◌, ◌<◌, ◌≡◌, refl, ap, inl, inr, true, false, List, [], ◌∷◌, ◌++◌, length, ltb,
  if◌then◌else◌, arith, Bool, Bool-cases,
}
use crono.Workflow.Graph.{member}

abbrev pub one_if : Bool → ℕ
one_if true = 1
one_if false = 0

unfoldable pub occ : String → List String → ℕ
occ v [] = 0
occ v (x ∷ xs) = one_if (str_eq x v) + occ v xs

pub str_eq-sym : (a b : String) → str_eq a b ≡ str_eq b a
str_eq-sym a b = ground (arith, eq_iff a b, eq_iff b a)

-- equal names are interchangeable
pub str_eq-left : (a b c : String) → str_eq a b ≡ true → str_eq a c ≡ str_eq b c
str_eq-left a b c h = ap (λ s. str_eq s c) ((eq_iff a b).0 h)

pub occ-same : (a b : String) (xs : List String) → str_eq a b ≡ true → occ a xs ≡ occ b xs
occ-same a b xs h = ap (λ s. occ s xs) ((eq_iff a b).0 h)

pub member-occ : (v : String) (xs : List String) → member v xs ≡ ltb 0 (occ v xs)
unfolding occ
member-occ v [] = refl
member-occ v (x ∷ xs) = ground (arith, member-occ v xs)

pub occ-append : (v : String) (xs ys : List String) → occ v (xs ++ ys) ≡ occ v xs + occ v ys
unfolding occ
occ-append v [] ys = omega arith
occ-append v (x ∷ xs) ys = omega (arith, occ-append v xs ys)

erase : String → List String → List String
erase x [] = []
erase x (y ∷ ys) = if str_eq y x then ys else y ∷ erase x ys

length-erase :
    (x : String) (ys : List String) → 0 < occ x ys → length ys ≡ suc (length (erase x ys))
unfolding occ erase
length-erase x [] h = absurd (omega arith)
length-erase x (y ∷ ys) h = ground (arith, length-erase x ys)

occ-erase :
    (v x : String) (ys : List String)
    → 0 < occ x ys
    → occ v (erase x ys) + one_if (str_eq x v) ≡ occ v ys
unfolding occ erase
occ-erase v x [] h = absurd (omega arith)
occ-erase v x (y ∷ ys) h = elim (Bool-cases (str_eq y x)) [
  | inl same ↦ let alike = str_eq-left y x v same in ground arith
  | inr other ↦ ground (arith, occ-erase v x ys)
]

-- A list whose names occur no more often than in another is no longer.
pub length-le_of_occ :
    (xs ys : List String) → ((v : String) → occ v xs ≤ occ v ys) → length xs ≤ length ys
unfolding occ
length-le_of_occ [] ys fewer = omega arith
length-le_of_occ (x ∷ xs) ys fewer =
    let there : 0 < occ x ys = ground (arith, fewer x, eq_refl x) in
    let rest =
      length-le_of_occ xs (erase x ys) (λ v. omega (arith, fewer v, occ-erase v x ys there)) in
    omega (arith, rest, length-erase x ys there)

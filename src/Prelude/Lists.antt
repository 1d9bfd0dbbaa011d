-- ===== src/Prelude/Lists.antt =====
-- Lists over the native numbers: length, positions and predicates.
use Prim.Native.Nat.{ℕ, suc, ◌+◌}
use mathlib.Core.Path.{◌≡◌}
use mathlib.Core.Bool.{Bool, true, false, ◌&&◌, ◌||◌}
use mathlib.Core.List.{List, [], ◌∷◌, ◌++◌, Memᴰ}
use native.Mathlib.Omega.{arith}

module _ {ℓ} {A : Type ℓ} where
  abbrev pub length : List A → ℕ
  length [] = 0
  length (x ∷ xs) = suc (length xs)

  pub length-append : (xs ys : List A) → length (xs ++ ys) ≡ length xs + length ys
  length-append [] ys = omega arith
  length-append (x ∷ xs) ys = omega (arith, length-append xs ys)

  -- `iter().any` and `iter().all`
  abbrev pub any : (A → Bool) → List A → Bool
  any p [] = false
  any p (x ∷ xs) = p x || any p xs

  abbrev pub all : (A → Bool) → List A → Bool
  all p [] = true
  all p (x ∷ xs) = p x && all p xs

-- A predicate on every item; it computes to tuples.
abbrev pub All {ℓ κ} : {A : Type ℓ} → (A → Type κ) → List A → Type κ
All holds [] = Unit
All holds (item ∷ items) = holds item × All holds items

module _ {ℓ κ} {A : Type ℓ} where
  pub All-append :
      (holds : A → Type κ) (front back : List A)
      → All holds front
      → All holds back
      → All holds (front ++ back)
  All-append holds [] back none_first second = second
  All-append holds (item ∷ front) back (one, first) second =
      (one, All-append holds front back first second)

  pub All-imp : (P Q : A → Type κ) (xs : List A) → ((a : A) → P a → Q a) → All P xs → All Q xs
  All-imp P Q [] f h = h
  All-imp P Q (x ∷ xs) f h = (f x h.0, All-imp P Q xs f h.1)

-- A relation between every item and every later one.
abbrev pub Pairwise {ℓ κ} : {A : Type ℓ} → (A → A → Type κ) → List A → Type (ℓ ⊔ κ)
Pairwise R [] = Unit
Pairwise R (x ∷ xs) = All (R x) xs × Pairwise R xs

pub All-at {ℓ κ} : {A : Type ℓ} (P : A → Type κ) (a : A) (xs : List A) → All P xs → Memᴰ a xs → P a
All-at P a [] h m = elim m [ ]
All-at P a (x ∷ xs) h (Memᴰ.head same) = rw same h.0
All-at P a (x ∷ xs) h (Memᴰ.tail rest) = All-at P a xs h.1 rest

-- what holds of every member
pub All-of {ℓ κ} :
    {A : Type ℓ} (P : A → Type κ) (xs : List A) → ((a : A) → Memᴰ a xs → P a) → All P xs
All-of P [] f = tt
All-of P (x ∷ xs) f = (f x (Memᴰ.head (λ i. x)), All-of P xs (λ a m. f a (Memᴰ.tail m)))

-- membership of the first items
module _ {ℓ} {A : Type ℓ} {a : A} where
  pub at0 : {xs : List A} → Memᴰ a (a ∷ xs)
  at0 = Memᴰ.head (λ i. a)

  pub at1 : {x : A} {xs : List A} → Memᴰ a (x ∷ a ∷ xs)
  at1 = Memᴰ.tail at0

  pub at2 : {x y : A} {xs : List A} → Memᴰ a (x ∷ y ∷ a ∷ xs)
  at2 = Memᴰ.tail at1

  pub at3 : {x y z : A} {xs : List A} → Memᴰ a (x ∷ y ∷ z ∷ a ∷ xs)
  at3 = Memᴰ.tail at2

  pub at4 : {x y z w : A} {xs : List A} → Memᴰ a (x ∷ y ∷ z ∷ w ∷ a ∷ xs)
  at4 = Memᴰ.tail at3

  pub at5 : {x y z w v : A} {xs : List A} → Memᴰ a (x ∷ y ∷ z ∷ w ∷ v ∷ a ∷ xs)
  at5 = Memᴰ.tail at4

  pub at6 : {x y z w v u : A} {xs : List A} → Memᴰ a (x ∷ y ∷ z ∷ w ∷ v ∷ u ∷ a ∷ xs)
  at6 = Memᴰ.tail at5

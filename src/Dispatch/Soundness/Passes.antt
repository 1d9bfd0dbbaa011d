-- ===== src/Dispatch/Soundness/Passes.antt =====
-- The passes of `reconcile`: rows that are selected first and treated one by one.
use crono.Prelude.{
  ℕ, zero, suc, ◌≡◌, refl, Option, none, some, List, [], ◌∷◌, Option-cases, inl, inr, All, Pairwise,
  Result, ok, >>=-ok, ok-inj,
}
use crono.Dispatch.Tables.{StoreError, Store, select_rows}
use crono.Dispatch.Reconcile.{for_each}

module _ {A B : Type 0} (pick : A → Option B) where
  skips :
      (limit : ℕ) (key : A) (scan : List A)
      → pick key ≡ none
      → select_rows (suc limit) pick (key ∷ scan) ≡ select_rows (suc limit) pick scan
  unfolding select_rows
  skips limit key scan e = rw (e, select_rows) refl

  takes :
      (limit : ℕ) (key : A) (scan : List A) (row : B)
      → pick key ≡ some row
      → select_rows (suc limit) pick (key ∷ scan) ≡ row ∷ select_rows limit pick scan
  unfolding select_rows
  takes limit key scan row e = rw (e, select_rows) refl

  -- What holds of every row that can be picked holds of the selected ones.
  pub select_rows-All :
      (P : B → Type 0)
      → ((key : A) (row : B) → pick key ≡ some row → P row)
      → (limit : ℕ) (scan : List A) → All P (select_rows limit pick scan)
  unfolding select_rows
  select_rows-All P good zero scan = tt
  select_rows-All P good (suc limit) [] = tt
  select_rows-All P good (suc limit) (key ∷ scan) = elim (Option-cases (pick key)) [
    | inl e ↦ rw (skips limit key scan e) (select_rows-All P good (suc limit) scan)
    | inr (row, e) ↦
        rw (takes limit key scan row e) (good key row e, select_rows-All P good limit scan)
  ]

  module _ (R : A → A → Type 0) (S : B → B → Type 0)
      (carried : (j k : A) (x y : B) → R j k → pick j ≡ some x → pick k ≡ some y → S x y) where
    later :
        (j : A) (x : B)
        → pick j ≡ some x
        → (limit : ℕ) (scan : List A) → All (R j) scan
        → All (S x) (select_rows limit pick scan)
    unfolding select_rows
    later j x e zero scan h = tt
    later j x e (suc limit) [] h = tt
    later j x e (suc limit) (key ∷ scan) h = elim (Option-cases (pick key)) [
      | inl e' ↦ rw (skips limit key scan e') (later j x e (suc limit) scan h.1)
      | inr (row, e') ↦
          rw (takes limit key scan row e')
            (carried j key x row h.0 e e', later j x e limit scan h.1)
    ]

    pub select_rows-Pairwise :
        (limit : ℕ) (scan : List A) → Pairwise R scan → Pairwise S (select_rows limit pick scan)
    unfolding select_rows
    select_rows-Pairwise zero scan h = tt
    select_rows-Pairwise (suc limit) [] h = tt
    select_rows-Pairwise (suc limit) (key ∷ scan) h = elim (Option-cases (pick key)) [
      | inl e ↦ rw (skips limit key scan e) (select_rows-Pairwise (suc limit) scan h.1)
      | inr (row, e) ↦
          rw (takes limit key scan row e)
            (later key row e limit scan h.0, select_rows-Pairwise limit scan h.1)
    ]

-- A pass keeps `P` if each row that is still valid keeps it, and leaves the rows apart from it valid.
module _ {B : Type 0} (body : B → Store → Result StoreError Store) (P : Store → Type 0)
    (Valid : Store → B → Type 0) (Apart : B → B → Type 0)
    (treat : (row : B) (s t : Store)
      → P s
      → Valid s row
      → body row s ≡ ok t
      → P t × ((other : B) → Apart row other → Valid s other → Valid t other)) where
  still_valid :
      (row : B) (s t : Store)
      → ((other : B) → Apart row other → Valid s other → Valid t other)
      → (rows : List B) → All (Apart row) rows
      → All (Valid s) rows
      → All (Valid t) rows
  still_valid row s t f [] a v = tt
  still_valid row s t f (x ∷ rows) a v = (f x a.0 v.0, still_valid row s t f rows a.1 v.1)

  pub for_each-keeps :
      (rows : List B) (s t : Store)
      → P s
      → All (Valid s) rows
      → Pairwise Apart rows
      → for_each body rows s ≡ ok t
      → P t
  unfolding for_each
  for_each-keeps [] s t p v a h = rw (← ok-inj h) p
  for_each-keeps (row ∷ rows) s t p v a h =
      let (m, first, rest) = >>=-ok (body row s) (for_each body rows) h in
      let (p', kept) = treat row s m p v.0 first in
      for_each-keeps rows m t p' (still_valid row s m kept rows a.0 v.1) a.1 rest

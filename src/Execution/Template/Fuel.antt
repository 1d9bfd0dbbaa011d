-- ===== src/Execution/Template/Fuel.antt =====
-- crates/execution/src/lib.rs: the rounds of the template parser and their fuel.
use crono.Prelude.{
  ℕ, zero, suc, ◌≤◌, ◌≡◌, refl, ap, ◌∙◌, sym, inl, inr, Option, none, some, some-inj, Option-cases,
  Bool-cases, ◌&&◌, ◌==◌, [], ◌∷◌, ◌++◌, length, arith, Text, trim, Result, ok, err, ok_or,
  ok_or-ok, min, ◌>>=◌,
}
use crono.Domain.Json.{Value}
use crono.Execution.Inputs.{InputError}
use crono.Execution.Template.{
  strip_pair, found_here, find_pair, strip_backslash, validate_path, placeholder, close_placeholder,
  open_placeholder, round, parse_loop,
}
use crono.Execution.Template.Search.{prepended}

strip_pair-length :
    (c : ℕ) (text rest : Text) → strip_pair c text ≡ some rest → suc (length rest) ≤ length text
unfolding strip_pair
strip_pair-length c [] rest h = cc
strip_pair-length c (a ∷ []) rest h = cc
strip_pair-length c (a ∷ b ∷ text) rest h = elim (Bool-cases ((a == c) && (b == c))) [
  | inl pair ↦ let same : text ≡ rest = some-inj (rw pair at h) in omega (arith, ap length same)
  | inr other ↦ absurd (cc (rw other at h))
]

shorter :
    (a : ℕ) (text front rest : Text) (later : Option (Text × Text))
    → ((p r : Text) → later ≡ some (p, r) → suc (length r) ≤ length text)
    → prepended (a ∷ []) later ≡ some (front, rest)
    → suc (length rest) ≤ length (a ∷ text)
shorter a text front rest none f h = cc
shorter a text front rest (some (p, r)) f h =
    omega (arith, f p r refl, ap (λ (f : Text × Text). length f.1) (some-inj h))

find_pair-length :
    (c : ℕ) (text front rest : Text)
    → find_pair c text ≡ some (front, rest)
    → suc (length rest) ≤ length text
unfolding find_pair
find_pair-length c [] front rest h = cc
find_pair-length c (a ∷ text) front rest h = elim (Option-cases (strip_pair c (a ∷ text))) [
  | inl other ↦
      shorter a text front rest (find_pair c text) (λ p r g. find_pair-length c text p r g)
        (sym (ap (λ found. found_here found (prepended (a ∷ []) (find_pair c text))) other) ∙ h)
  | inr (found, here) ↦
      let same =
        some-inj (sym (ap (λ s. found_here s (prepended (a ∷ []) (find_pair c text))) here) ∙ h) in
      omega (
        arith,
        strip_pair-length c (a ∷ text) found here,
        ap (λ (f : Text × Text). length f.1) same,
      )
]

>>=-agree :
    {A B : Type 0} (r : Result InputError A) (f g : A → Result InputError B)
    → ((a : A) → r ≡ ok a → f a ≡ g a)
    → (r >>= f) ≡ (r >>= g)
>>=-agree (ok a) f g h = h a refl
>>=-agree (err e) f g h = refl

-- Two continuations that agree on everything shorter make no difference to a round.
module _ (inputs : Option Value) (f g : Text → Text → Result InputError Text) (bound : ℕ)
    (agree : (output rest : Text) → length rest ≤ bound → f output rest ≡ g output rest) where
  close-agree :
      (output after : Text)
      → length after ≤ bound
      → close_placeholder inputs f output after ≡ close_placeholder inputs g output after
  unfolding close_placeholder
  close-agree output after short =
      >>=-agree (ok_or (find_pair b'}' after) InputError.invalid_template) _ _ (λ found h.
        let at = ok_or-ok (find_pair b'}' after) InputError.invalid_template h in
        >>=-agree (validate_path (trim found.0)) _ _ (λ u _.
          >>=-agree (placeholder inputs (trim found.0)) _ _ (λ rendered _.
            agree (output ++ rendered) found.1
              (omega (arith, find_pair-length b'}' after found.0 found.1 at)))))

  open-agree :
      (output front after : Text) (kept : Option Text)
      → length after ≤ bound
      → open_placeholder inputs f output front after kept
        ≡ open_placeholder inputs g output front after kept
  unfolding open_placeholder
  open-agree output front after (some literal) short = agree _ after short
  open-agree output front after none short = close-agree (output ++ front) after short

  round-agree :
      (output remaining : Text) (found : Option (Text × Text))
      → ((p r : Text) → found ≡ some (p, r) → length r ≤ bound)
      → round inputs f output remaining found ≡ round inputs g output remaining found
  unfolding round
  round-agree output remaining none short = refl
  round-agree output remaining (some (front, after)) short =
      open-agree output front after (strip_backslash front) (short front after refl)

-- Any two amounts of fuel that are not below the length of the rest give the same result.
pub parse_loop_enough :
    (n m : ℕ) (inputs : Option Value) (output remaining : Text)
    → length remaining ≤ n
    → length remaining ≤ m
    → parse_loop n inputs output remaining ≡ parse_loop m inputs output remaining
unfolding parse_loop round find_pair
parse_loop_enough zero zero inputs output remaining low high = refl
parse_loop_enough zero (suc m) inputs output [] low high = refl
parse_loop_enough zero (suc m) inputs output (a ∷ rest) low high = absurd (omega arith)
parse_loop_enough (suc n) zero inputs output [] low high = refl
parse_loop_enough (suc n) zero inputs output (a ∷ rest) low high = absurd (omega arith)
parse_loop_enough (suc n) (suc m) inputs output remaining low high =
    round-agree inputs (parse_loop n inputs) (parse_loop m inputs) (min n m)
      (λ o r short. parse_loop_enough n m inputs o r (omega arith) (omega arith)) output remaining
      (find_pair b'{' remaining) (λ p r at. omega (arith, find_pair-length b'{' remaining p r at))

-- ===== src/Dispatch/Tail/Bounds.antt =====
-- What `bounded_tail` keeps of an output.
use crono.Prelude.{
  ℕ, zero, suc, ◌+◌, ◌-◌, ◌≤◌, ◌<◌, ◌≡◌, ◌⊎◌, refl, ap, [], ◌∷◌, ◌++◌, leb, arith, Text, Bool-cases,
  inl, inr,
}
use crono.Dispatch.Tail.{utf8_len, byte_len, from_boundary, tail_of, tail_limit, bounded_tail}

utf8_len-bounds : (c : ℕ) → (1 ≤ utf8_len c) × (utf8_len c ≤ 4)
utf8_len-bounds c = ground arith

byte_len-append : (a b : Text) → byte_len (a ++ b) ≡ byte_len a + byte_len b
unfolding byte_len
byte_len-append [] b = omega arith
byte_len-append (c ∷ a) b = omega (arith, byte_len-append a b)

-- The part that is cut off: at least `start` bytes, and no character more than it takes.
cut :
    (start : ℕ) (text : Text)
    → start ≤ byte_len text
    → (front : Text) × (text ≡ front ++ from_boundary start text)
      × (start ≤ byte_len front)
      × (byte_len front ≤ start + 3)
      × (start ≡ 0 → byte_len front ≡ 0)
unfolding byte_len from_boundary
cut zero text h = ([], refl, omega arith, omega arith, λ _. refl)
cut (suc start) [] h = absurd (omega arith)
cut (suc start) (c ∷ text) h =
    let (front, split, long, short, exact) =
      cut (suc start - utf8_len c) text (omega (arith, utf8_len-bounds c)) in
    (
      c ∷ front,
      ap (λ rest. c ∷ rest) split,
      omega arith,
      ground (arith, utf8_len-bounds c),
      λ e. absurd (omega arith),
    )

-- The tail of an output is what is left when a front part is cut off. It has 65 536 bytes at most;
-- nothing is cut off an output that has no more, and of a longer output at most three bytes less
-- are kept, so that no character is split.
pub bounded_tail-bounds :
    (text : Text)
    → (front : Text) × (text ≡ front ++ bounded_tail text)
      × (byte_len (bounded_tail text) ≤ tail_limit)
      × (((byte_len text ≤ tail_limit) × (bounded_tail text ≡ text))
          ⊎ ((tail_limit < byte_len text) × (tail_limit ≤ byte_len (bounded_tail text) + 3)))
unfolding bounded_tail tail_of
bounded_tail-bounds text = elim (Bool-cases (leb (byte_len text) tail_limit)) [
  | inl fits ↦ rw fits ([], refl, ground arith, inl (ground arith, refl))
  | inr long ↦
      let (front, split, at_least, at_most, _) =
        cut (byte_len text - tail_limit) text (omega arith) in
      let total = ap byte_len split in
      let sum = byte_len-append front (from_boundary (byte_len text - tail_limit) text) in
      rw long (front, split, ground arith, inr (ground arith, ground arith))
]

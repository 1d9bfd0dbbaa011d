-- ===== src/Execution/Template/Rendering.antt =====
-- crates/execution/src/lib.rs: what the parser makes of a template that is put together from pieces.
use mathlib.Core.List.{append_assoc, append-nil}
use crono.Prelude.{
  ℕ, zero, suc, ◌≤◌, Option, none, some, List, [], ◌∷◌, ◌++◌, All, length, length-append, ◌≡◌, refl,
  ap, ◌∙◌, sym, arith, Text, trim, Result, ok, err, ◌>>=◌,
}
use crono.Domain.Json.{Value}
use crono.Execution.Inputs.{InputError}
use crono.Execution.Template.{
  find_pair, strip_backslash, validate_path, walk, render_scalar, render_path, placeholder,
  open_mark, close_mark, close_placeholder, open_placeholder, round, parse_loop, parse_template,
}
use crono.Execution.Template.Search.{
  Free, prepended, prepended_text, find_pair-skip, find_pair-close, strip_backslash-Free,
  strip_backslash-append,
}
use crono.Execution.Template.Paths.{
  path_of, Keys, path_of-Free, path_of-trim, split_dots-path_of, validate_path-path_of,
}
use crono.Execution.Template.Pieces.{Piece, print_all, Plain, piece_value, render_pieces}

module _ (inputs : Option Value) (again : Text → Text → Result InputError Text) where
  opened-skip :
      (output front prefix after : Text) (found : Option Text)
      → open_placeholder inputs again output (front ++ prefix) after (prepended_text front found)
        ≡ open_placeholder inputs again (output ++ front) prefix after found
  unfolding open_placeholder
  opened-skip output front prefix after none =
      ap (λ t. close_placeholder inputs again t after) (sym (append_assoc output front prefix))
  opened-skip output front prefix after (some kept) =
      ap (λ t. again (t ++ open_mark) after) (sym (append_assoc output front kept))

  open-skip :
      (output front prefix after : Text)
      → Free 0x5c front
      → open_placeholder inputs again output
          (front ++ prefix)
          after
          (strip_backslash (front ++ prefix))
        ≡ open_placeholder inputs again (output ++ front) prefix after (strip_backslash prefix)
  unfolding open_placeholder strip_backslash
  open-skip output front [] after free =
      ap (λ t. open_placeholder inputs again output t after (strip_backslash t)) (append-nil front)
      ∙ ap (open_placeholder inputs again output front after) (strip_backslash-Free front free)
      ∙ ap (λ t. close_placeholder inputs again t after) (sym (append-nil (output ++ front)))
  open-skip output front (a ∷ prefix) after free =
      ap (open_placeholder inputs again output (front ++ a ∷ prefix) after)
        (strip_backslash-append front a prefix)
      ∙ opened-skip output front (a ∷ prefix) after (strip_backslash (a ∷ prefix))

  round-skip :
      (output front remaining : Text) (found : Option (Text × Text))
      → Free 0x5c front
      → round inputs again output (front ++ remaining) (prepended front found)
        ≡ round inputs again (output ++ front) remaining found
  unfolding round
  round-skip output front remaining none free = ap ok (sym (append_assoc output front remaining))
  round-skip output front remaining (some (prefix, after)) free =
      open-skip output front prefix after free

-- A plain text is put out as it stands.
loop-literal :
    (n : ℕ) (inputs : Option Value) (output front remaining : Text)
    → Free b'{' front
    → Free 0x5c front
    → parse_loop n inputs output (front ++ remaining)
      ≡ parse_loop n inputs (output ++ front) remaining
unfolding parse_loop
loop-literal zero inputs output front remaining no_mark no_escape =
    ap ok (sym (append_assoc output front remaining))
loop-literal (suc n) inputs output front remaining no_mark no_escape =
    ap (round inputs (parse_loop n inputs) output (front ++ remaining))
      (find_pair-skip b'{' front remaining no_mark)
    ∙ round-skip inputs (parse_loop n inputs) output front remaining (find_pair b'{' remaining)
        no_escape

-- An escaped mark loses its backslash.
loop-braces :
    (n : ℕ) (inputs : Option Value) (output remaining : Text)
    → parse_loop (suc n) inputs output (0x5c ∷ open_mark ++ remaining)
      ≡ parse_loop n inputs (output ++ open_mark) remaining
unfolding parse_loop round open_placeholder strip_backslash
loop-braces n inputs output remaining =
    ap (λ t. parse_loop n inputs (t ++ open_mark) remaining) (append-nil output)

closed :
    (path remaining : Text)
    → Free b'}' path
    → find_pair b'}' (path ++ close_mark ++ remaining) ≡ some (path, remaining)
closed path remaining free =
    ap (find_pair b'}') (append_assoc path close_mark remaining)
    ∙ find_pair-close b'}' path remaining free
    ∙ ap (λ t. some (t, remaining)) (append-nil path)

-- A placeholder is replaced by the value of its path.
loop-variable :
    (n : ℕ) (values : Value) (output path remaining : Text)
    → Free b'}' path
    → trim path ≡ path
    → validate_path path ≡ ok tt
    → parse_loop (suc n) (some values) output (open_mark ++ (path ++ close_mark) ++ remaining)
      ≡ (render_path values path >>= λ text. parse_loop n (some values) (output ++ text) remaining)
unfolding parse_loop round open_placeholder strip_backslash close_placeholder placeholder
loop-variable n values output path remaining free solid valid =
    rw (closed path remaining free) (rw solid (rw valid (rw (append-nil output) refl)))

-- the value of one more piece in front
after_text :
    (output text : Text) (result : Result InputError Text)
    → (result >>= λ rest. ok (output ++ text ++ rest))
      ≡ (result >>= (λ rest. ok (text ++ rest)) >>= λ rest. ok (output ++ rest))
after_text output text (ok rest) = ap ok (append_assoc output text rest)
after_text output text (err failure) = refl

after_value :
    (output : Text) (first result : Result InputError Text) (f : Text → Result InputError Text)
    → ((text : Text) → f text ≡ (result >>= λ rest. ok (output ++ text ++ rest)))
    → (first >>= f)
      ≡ (first >>= (λ text. result >>= λ rest. ok (text ++ rest)) >>= λ rest. ok (output ++ rest))
after_value output (ok text) result f h = h text ∙ after_text output text result
after_value output (err failure) result f h = refl

render_path-value :
    (inputs : Value) (segment : Text) (segments : List Text)
    → Keys (segment ∷ segments)
    → render_path inputs (path_of segment segments)
      ≡ piece_value (Piece.variable segment segments) inputs
unfolding render_path
render_path-value inputs segment segments keys =
    ap
      (λ parts.
        walk (path_of segment segments) parts inputs >>= render_scalar (path_of segment segments))
      (split_dots-path_of segment segments keys)

unchanged : (result : Result InputError Text) → (result >>= λ text. ok ([] ++ text)) ≡ result
unchanged (ok text) = refl
unchanged (err failure) = refl

loop-pieces :
    (pieces : List Piece) (n : ℕ) (inputs : Value) (output : Text)
    → All Plain pieces
    → length (print_all pieces) ≤ n
    → parse_loop n (some inputs) output (print_all pieces)
      ≡ (render_pieces pieces inputs >>= λ text. ok (output ++ text))
unfolding parse_loop round find_pair
loop-pieces [] zero inputs output plain enough = refl
loop-pieces [] (suc n) inputs output plain enough = refl
loop-pieces (Piece.literal text ∷ pieces) n inputs output plain enough =
    loop-literal n (some inputs) output text (print_all pieces) plain.0.0 plain.0.1
    ∙ loop-pieces pieces n inputs (output ++ text) plain.1
        (omega (arith, length-append text (print_all pieces)))
    ∙ after_text output text (render_pieces pieces inputs)
loop-pieces (Piece.braces ∷ pieces) zero inputs output plain enough = absurd (omega arith)
loop-pieces (Piece.braces ∷ pieces) (suc n) inputs output plain enough =
    loop-braces n (some inputs) output (print_all pieces)
    ∙ loop-pieces pieces n inputs (output ++ open_mark) plain.1 (omega arith)
    ∙ after_text output open_mark (render_pieces pieces inputs)
loop-pieces (Piece.variable segment segments ∷ pieces) zero inputs output plain enough =
    absurd (omega arith)
loop-pieces (Piece.variable segment segments ∷ pieces) (suc n) inputs output plain enough =
    loop-variable n inputs output (path_of segment segments) (print_all pieces)
      (path_of-Free segment segments plain.0) (path_of-trim segment segments plain.0)
      (validate_path-path_of segment segments plain.0)
    ∙ ap (λ first. first >>= λ text. parse_loop n (some inputs) (output ++ text) (print_all pieces))
        (render_path-value inputs segment segments plain.0)
    ∙ after_value output (piece_value (Piece.variable segment segments) inputs)
        (render_pieces pieces inputs)
        (λ text. parse_loop n (some inputs) (output ++ text) (print_all pieces))
        (λ text. loop-pieces pieces n inputs (output ++ text) plain.1 (
          omega (arith, length-append (path_of segment segments ++ close_mark) (print_all pieces))))

-- A template that is put together from plain pieces renders to the values of the pieces, one behind
-- the other, or fails as the first piece that fails.
pub parse_template-render_pieces :
    (pieces : List Piece) (inputs : Value)
    → All Plain pieces
    → parse_template (print_all pieces) (some inputs) ≡ render_pieces pieces inputs
unfolding parse_template
parse_template-render_pieces pieces inputs plain =
    loop-pieces pieces (length (print_all pieces)) inputs [] plain (omega arith)
    ∙ unchanged (render_pieces pieces inputs)

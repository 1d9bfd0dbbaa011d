-- ===== src/Execution/Template/Pieces.antt =====
-- crates/execution/src/lib.rs: templates that are put together from pieces, and their values.
use crono.Prelude.{List, [], ◌∷◌, ◌++◌, Text, Result, ok, ◌>>=◌}
use crono.Domain.Json.{Value}
use crono.Execution.Inputs.{InputError}
use crono.Execution.Template.{walk, render_scalar, open_mark, close_mark}
use crono.Execution.Template.Search.{Free}
use crono.Execution.Template.Paths.{path_of, Keys}

-- a text as it stands, two escaped braces, or a variable: the segments of its path
pub data Piece : Type 0 where
  literal : Text → Piece
  braces : Piece
  variable : Text → List Text → Piece

abbrev pub print : Piece → Text
print (Piece.literal text) = text
print Piece.braces = 0x5c ∷ open_mark
print (Piece.variable segment segments) = open_mark ++ (path_of segment segments ++ close_mark)

abbrev pub print_all : List Piece → Text
print_all [] = []
print_all (piece ∷ pieces) = print piece ++ print_all pieces

-- A text without an opening brace and without a backslash, and a path of input keys.
abbrev pub Plain : Piece → Type 0
Plain (Piece.literal text) = Free b'{' text × Free 0x5c text
Plain Piece.braces = Unit
Plain (Piece.variable segment segments) = Keys (segment ∷ segments)

abbrev pub piece_value : Piece → Value → Result InputError Text
piece_value (Piece.literal text) inputs = ok text
piece_value Piece.braces inputs = ok open_mark
piece_value (Piece.variable segment segments) inputs =
    walk (path_of segment segments) (segment ∷ segments) inputs
    >>= render_scalar (path_of segment segments)

-- the values of the pieces, one behind the other, or the first failure
abbrev pub render_pieces : List Piece → Value → Result InputError Text
render_pieces [] inputs = ok []
render_pieces (piece ∷ pieces) inputs =
    piece_value piece inputs >>= λ text. render_pieces pieces inputs >>= λ rest. ok (text ++ rest)

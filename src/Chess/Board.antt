-- ===== src/Chess/Board.antt =====
-- MyIVR/ChessFigure/GameData.swift: the board, the start position and the moves of pieces.
pub mod Start
pub mod Complete
use ivr_repo.Base.{zero, ◌==◌, ◌+◌, if◌then◌else◌, suc, some, Option, ℕ, none}
use ivr_repo.Chess.Piece.{queen, king, bishop, white, knight, pawn, empty, rook, black, Piece}
use ivr_repo.Chess.Piece.{PieceType, Color}

-- `boardA`. Its keys are numbers of squares; no method stores at a negative one.
abbrev pub Board : Type 0
Board = ℕ → Option Piece

abbrev pub no_squares : Board
no_squares i = none

-- `boardA[i] = v`
abbrev pub put : Board → ℕ → Option Piece → Board
put board i v j = if j == i then v else board j

abbrev pub new_piece : PieceType → ℕ → Color → Piece
new_piece piece_type position color = record {
  piece_type = piece_type;
  position = position;
  color = color;
}

abbrev pub place : PieceType → Color → ℕ → Board → Board
place piece_type color i board = put board i (some (new_piece piece_type i color))

-- `for i in first...last`, for `count` squares
abbrev pub fill : PieceType → Color → ℕ → ℕ → Board → Board
fill piece_type color zero i board = board
fill piece_type color (suc count) i board =
    fill piece_type color count (i + 1) (place piece_type color i board)

-- The eight pieces behind the pawns
abbrev pub back_row : Color → ℕ → Board → Board
back_row color i board = place rook color (i + 7) (
    place knight color (i + 6) (
      place bishop color (i + 5) (
        place king color (i + 4) (
          place queen color (i + 3)
            (place bishop color (i + 2) (place knight color (i + 1) (place rook color i board)))))))

unfoldable pub init_board_a : Board → Board
init_board_a board =
    back_row black 56
      (fill pawn black 9 48 (fill empty white 33 16 (fill pawn white 9 8 (back_row white 0 board))))

unfoldable pub go_to : Board → ℕ → ℕ → Board
go_to board position next_position =
    put (put board next_position (board position)) position (some (new_piece empty position white))

unfoldable pub kill : Board → ℕ → ℕ → Board
kill board position next_position =
    put (put board next_position (board position)) position (some (new_piece empty position white))

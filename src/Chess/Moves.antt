-- ===== src/Chess/Moves.antt =====
-- MyIVR/ChessFigure/GameData.swift: `CanGoTo` and `canKill`.
pub mod Diagonal
pub mod Rook
pub mod Stuck
pub mod Ends
pub mod Kill
pub mod Queen
pub mod Bishop
use ivr_repo.Base.{some, ◌-◌, zero, ◌*◌, not, false, ◌%◌, true, min, ◌||◌, ◌==◌, ◌/◌, ◌+◌, ◌&&◌}
use ivr_repo.Base.{suc, ltb, ℕ, Bool, if◌then◌else◌}
use Prim.Native.Nat.{max}
use ivr_repo.Chess.Board.{new_piece, put, Board}
use ivr_repo.Chess.Int.{next, square, is_number, negsuc, pos, ℤ}
use ivr_repo.Chess.Piece.{empty, same_color, crash, stuck, ◌>>=◌, is_empty, err, unwrap, ok}
use ivr_repo.Chess.Piece.{Result, PieceType, Piece, Color, white, black, rook, pawn, king, queen}
use ivr_repo.Chess.Piece.{bishop, knight}

-- `boardA[i]!` at a number of a square that may be negative
abbrev pub at_square : Board → ℤ → Result Piece
at_square board (pos i) = unwrap (board i)
at_square board (negsuc i) = err crash

-- Whether the square is empty, looked up only if the line is the one that is tried
abbrev pub clear_if : Board → Bool → ℕ → Result Bool
clear_if board false i = ok true
clear_if board true i = unwrap (board i) >>= λ p. ok (is_empty p.piece_type)

-- The rest of a loop, unless it returned false before
abbrev pub and_then : Result Bool → Result Bool → Result Bool
and_then (ok true) k = k
and_then (ok false) k = ok false
and_then (err e) k = err e

-- The piece on the square `i` is printed before false is returned.
abbrev pub printing : Board → ℕ → Result Bool → Result Bool
printing board i (ok true) = ok true
printing board i (ok false) = unwrap (board i) >>= λ p. ok false
printing board i (err e) = err e

-- The numbers that the loop over `need[0]...need[1]` has
abbrev pub span : ℕ → ℕ → ℕ
span a b = suc (max a b - min a b)

-- The variable `j` of the rook's loop
abbrev pub clamped : ℕ → ℕ
clamped i = if i == 0 then 1 else if i == 8 then 7 else i

-- A move as `CanGoTo` sees it: the rows and columns of both squares
pub record Move : Type 0 where
  pub row : ℕ
  pub col : ℕ
  pub row1 : ℕ
  pub col1 : ℕ

abbrev pub move_of : ℕ → ℕ → Move
move_of position next_position = record {
  row = position / 8;
  col = position % 8;
  row1 = next_position / 8;
  col1 = next_position % 8;
}

abbrev pub is_straight : Move → Bool
is_straight m = m.col == m.col1 || m.row == m.row1

abbrev pub distance : ℕ → ℕ → ℕ
distance a b = max a b - min a b

abbrev pub is_diagonal : Move → Bool
is_diagonal m = distance m.row m.row1 == distance m.col m.col1

-- `need[0]` and the number of rounds
abbrev pub need : Move → ℕ × ℕ
need m =
    if m.row == m.row1
    then (min m.col m.col1, span m.col m.col1)
    else (min m.row m.row1, span m.row m.row1)

-- The rook's loop, from `i` on
unfoldable pub rook_loop : Board → Move → ℕ → ℕ → Result Bool
rook_loop board m zero i = ok true
rook_loop board m (suc count) i =
    and_then
      (printing board (m.row1 * 8 + clamped i)
        (clear_if board (m.col == m.col1) ((m.row + clamped i) * 8 + clamped i)))
      (and_then (clear_if board (m.row == m.row1) (clamped i * 8 + m.col))
        (rook_loop board m count (i + 1)))

unfoldable pub rook_can : Board → Move → Piece → Piece → Result Bool
rook_can board m piece target =
    if is_straight m && (is_empty target.piece_type || not (same_color target.color piece.color))
    then rook_loop board m (need m).1 (need m).0
    else ok false

-- `row + direction * n == row1`
abbrev pub ahead : Color → ℕ → Move → Bool
ahead white n m = m.row + n == m.row1
ahead black n m = m.row == m.row1 + n

abbrev pub start_row : Color → ℕ
start_row white = 1
start_row black = 6

abbrev pub pawn_can : Move → Piece → Piece → Bool
pawn_can m piece target =
    (ahead piece.color 1 m && is_empty target.piece_type)
    || (start_row piece.color == m.row && (ahead piece.color 2 m && is_empty target.piece_type))

-- The queen's loop along a row or a column
unfoldable pub queen_loop : Board → Move → ℕ → ℕ → Result Bool
queen_loop board m zero i = ok true
queen_loop board m (suc count) i =
    and_then (clear_if board (m.col == m.col1) (m.row1 * 8 + i)) (
      and_then (clear_if board (m.row == m.row1) (i * 8 + m.col))
        (queen_loop board m count (i + 1)))

-- The loop along a diagonal to the square of `m`, in the directions `up` and `right`. On a board of
-- 64 squares ten rounds are enough.
unfoldable pub diagonal_loop : Board → Move → Bool → Bool → ℕ → ℤ → ℤ → Result Bool
diagonal_loop board m up right zero r c = err stuck
diagonal_loop board m up right (suc fuel) r c = elim (is_number r m.row1 && is_number c m.col1) [
  | true ↦ ok true
  | false ↦ at_square board (square (next up r) (next right c)) >>= λ p.
      elim (is_empty p.piece_type) [
        | true ↦ diagonal_loop board m up right fuel (next up r) (next right c)
        | false ↦ ok false
      ]
]

unfoldable pub queen_can : Board → Move → Piece → Result Bool
queen_can board m target =
    if not (is_empty target.piece_type)
    then ok false
    else if is_straight m
    then queen_loop board m (need m).1 (need m).0
    else diagonal_loop board m (ltb m.row1 m.row) (ltb m.col1 m.col) 10 (pos m.row) (pos m.col)

unfoldable pub bishop_can : Board → Move → Result Bool
bishop_can board m =
    if is_diagonal m
    then diagonal_loop board m (ltb m.row m.row1) (ltb m.col m.col1) 10 (pos m.row) (pos m.col)
    else ok false

abbrev pub apart : ℕ → ℕ → ℕ → Bool
apart n a b = a == b + n || a + n == b

abbrev pub is_knight_move : Move → Bool
is_knight_move m =
    (apart 2 m.row1 m.row && apart 1 m.col1 m.col) || (apart 1 m.row1 m.row && apart 2 m.col1 m.col)

-- The `case` of the switch for a type. The target is looked up where the code does, behind the
-- conditions that stand before it.
unfoldable pub can_go_as : PieceType → Board → Move → Piece → ℕ → Result Bool
can_go_as rook board m piece next_position =
    unwrap (board next_position) >>= λ target. rook_can board m piece target
can_go_as pawn board m piece next_position =
    unwrap (board next_position) >>= λ target. ok (pawn_can m piece target)
can_go_as king board m piece next_position = ok false
can_go_as queen board m piece next_position =
    if is_diagonal m || is_straight m
    then (unwrap (board next_position) >>= λ target. queen_can board m target)
    else ok false
can_go_as bishop board m piece next_position = bishop_can board m
can_go_as knight board m piece next_position =
    if is_knight_move m
    then (unwrap (board next_position) >>= λ target. ok (is_empty target.piece_type))
    else ok false
can_go_as empty board m piece next_position = ok false

unfoldable pub can_go_to : Board → ℕ → ℕ → Result Bool
can_go_to board position next_position = unwrap (board position) >>= λ piece.
    can_go_as piece.piece_type board (move_of position next_position) piece next_position

-- `canKill`: what it returns and the board that it leaves. The target is taken off while `CanGoTo`
-- looks, and put back.
unfoldable pub can_kill : Board → ℕ → ℕ → Result (Bool × Board)
can_kill board position next_position = unwrap (board next_position) >>= λ a.
    unwrap (board position) >>= λ piece.
    if same_color a.color piece.color
    then ok (false, board)
    else (can_go_to emptied position next_position >>= λ can.
        ok (can, put emptied next_position (board next_position)))
  where
    emptied : Board
    emptied = put board next_position (some (new_piece empty next_position white))

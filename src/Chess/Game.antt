-- ===== src/Chess/Game.antt =====
-- MyIVR/Controllers/TwoPlayerGame.swift: the loop of `startNewGame`, on the squares that are tapped.
mod Keeps
pub mod Valid
pub mod Progress
pub mod Steps
pub mod Pieces
pub mod Ends
use ivr_repo.Base.{◌||◌, zero, ◌&&◌, ◌%◌, ◌+◌, suc, some, not, ◌==◌, ◌*◌, true, none, false, ◌/◌}
use ivr_repo.Base.{Bool, ℕ, Option, List, if◌then◌else◌, [], ◌∷◌}
use ivr_repo.Chess.Board.{kill, go_to, no_squares, init_board_a, Board}
use ivr_repo.Chess.Moves.{distance, can_kill, can_go_to}
use ivr_repo.Chess.Piece.{same_color, is_empty, ◌>>=◌, unwrap, ok, Result, Piece, Color}
use ivr_repo.Chess.Piece.{PieceType, white, black, king}

-- `color` is 0 for white and 1 for black.
pub record GameState : Type 0 where
  pub board : Board
  pub winner : Bool
  pub color : ℕ
  pub moves : ℕ

unfoldable pub start_new_game : GameState
start_new_game = record { board = init_board_a no_squares; winner = true; color = 0; moves = 0 }

-- `row * 8 + col` of a tapped number
abbrev pub tapped : ℕ → ℕ
tapped number = number / 8 * 8 + number % 8

abbrev pub color_of : ℕ → Color
color_of color = if color == 1 then black else white

-- Whether a square does not hold a piece of the color; a missing one does not.
abbrev pub not_own : Option Piece → Color → Bool
not_own none color = true
not_own (some p) color = is_empty p.piece_type || not (same_color p.color color)

-- The taps up to the first one on an own piece
unfoldable pub choose_from : Board → Color → List ℕ → Option (ℕ × List ℕ)
choose_from board color [] = none
choose_from board color (number ∷ taps) = elim (not_own (board (tapped number)) color) [
  | true ↦ choose_from board color taps
  | false ↦ some (tapped number, taps)
]

-- `CanGoTo || canKill`, with the board behind them
unfoldable pub can_move : Board → ℕ → ℕ → Result (Bool × Board)
can_move board position next_position = can_go_to board position next_position >>= λ go.
    if go then ok (true, board) else can_kill board position next_position

-- A square to go to, with the board and the taps behind it
abbrev pub Choice : Type 0
Choice = ℕ × Board × List ℕ

-- The taps up to the first one on a square that the piece can go to
unfoldable pub choose_to : Board → ℕ → List ℕ → Result (Option Choice)
choose_to board position [] = ok none
choose_to board position (number ∷ taps) = can_move board position (tapped number) >>= λ r.
    elim r.0 [ true ↦ ok (some (tapped number, r.1, taps)) | false ↦ choose_to r.1 position taps ]

unfoldable pub make_move : Board → ℕ → ℕ → Result Board
make_move board position next_position = can_go_to board position next_position >>= λ go.
    if go
    then ok (go_to board position next_position)
    else (can_kill board position next_position >>= λ r.
        ok (if r.0 then kill r.1 position next_position else r.1))

-- `check`
unfoldable pub check : Board → ℕ → ℕ → Bool
check board position killer_position = false

abbrev pub is_king : PieceType → Bool
is_king king = true
is_king _ = false

-- Whether a piece is a king of another color than the piece at the square
abbrev pub is_other_king : Board → ℕ → Piece → Result Bool
is_other_king board next_position p =
    if is_king p.piece_type
    then (unwrap (board next_position) >>= λ q. ok (not (same_color p.color q.color)))
    else ok false

-- The loop over the squares from `i` on, which sets `winner`
unfoldable pub look_for_kings : Board → ℕ → Bool → ℕ → ℕ → Result Bool
look_for_kings board next_position winner zero i = ok winner
look_for_kings board next_position winner (suc count) i = unwrap (board i) >>= λ p.
    is_other_king board next_position p >>= λ other.
    look_for_kings board next_position
      (if other && check board i next_position then false else winner) count (i + 1)

-- The part of a round behind both choices
unfoldable pub finish_turn : GameState → ℕ → Choice → Result (GameState × List ℕ)
finish_turn game position (next_position, board, taps) =
    make_move board position next_position >>= λ board'.
    look_for_kings board' next_position game.winner 64 0 >>= λ winner. ok (
      record {
        board = board';
        winner = winner;
        color = distance game.color 1;
        moves = game.moves + 1;
      },
      taps,
    )

-- A round of the loop: the state and the taps behind it, or nothing while it waits for a tap.
unfoldable pub turn : GameState → List ℕ → Result (Option (GameState × List ℕ))
turn game taps = elim (choose_from game.board (color_of game.color) taps) [
  | none ↦ ok none
  | some (position, rest) ↦ choose_to game.board position rest >>= λ choice. elim choice [
    | none ↦ ok none
    | some c ↦ finish_turn game position c >>= λ r. ok (some r)
  ]
]

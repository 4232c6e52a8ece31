-- ===== src/Chess/Examples.antt =====
-- The theorems on the game at positions that come up in it.
use ivr_repo.Base.{◌≤◌, lt→ltb, ==→eq, sym, inr, ◌==◌, refl, inl, arith, Bool-cases, ◌∷◌, some}
use ivr_repo.Base.{if◌then◌else◌, false, ◌≡◌, ◌<◌, true, ℕ, [], Option, none}
use ivr_repo.Chess.Board.{new_piece, put, no_squares, go_to, init_board_a, Board}
use ivr_repo.Chess.Board.Complete.{init_board_a-IsComplete, put-IsComplete, IsComplete}
use ivr_repo.Chess.Board.Start.{init_board_a-start_piece}
use ivr_repo.Chess.Game.{turn, start_new_game, GameState}
use ivr_repo.Chess.Game.Ends.{turn-is_stuck}
use ivr_repo.Chess.Game.Pieces.{Plays-count_pieces, count_pieces}
use ivr_repo.Chess.Game.Progress.{turn-CanMove}
use ivr_repo.Chess.Game.Steps.{turn-Step, Step}
use ivr_repo.Chess.Game.Valid.{Plays, begin, next_turn, Plays-IsValid, IsValid}
use ivr_repo.Chess.Moves.{can_go_as, can_kill, can_go_to}
use ivr_repo.Chess.Moves.Bishop.{can_go_to-bishop}
use ivr_repo.Chess.Moves.Kill.{can_kill-put_back, board_of}
use ivr_repo.Chess.Moves.Queen.{can_go_to-queen_diagonal, accepts}
use ivr_repo.Chess.Moves.Rook.{can_go_to-rook_crash}
use ivr_repo.Chess.Moves.Stuck.{is_stuck}
use ivr_repo.Chess.Piece.{black, knight, white, empty, crash, ok, err, ◌>>=◌, rook, queen, bishop}
use ivr_repo.Chess.Piece.{PieceType}
use ivr_repo.Chess.Int.{pos}
use ivr_repo.Chess.Saves.{load_squares, load_game, Value, same_text, save_game, Text, Database}
use ivr_repo.Chess.Saves.RoundTrip.{load_squares-save_game, load_game-save_game_crash, relocated}
use mathlib.Core.Path.{ap₂}

-- The start position with one piece more
abbrev start : Board
start = init_board_a no_squares

abbrev with_piece : PieceType → ℕ → Board
with_piece piece_type i = put start i (some (new_piece piece_type i white))

with_piece-IsComplete :
    (piece_type : PieceType) (i : ℕ) → i < 64 → IsComplete (with_piece piece_type i)
with_piece-IsComplete piece_type i h =
    put-IsComplete start i _ init_board_a-IsComplete (sym (lt→ltb i 64 h))

-- A bishop in the middle goes two squares along the diagonal.
can_go_to-bishop_example : can_go_to (with_piece bishop 27) 27 45 ≡ ok true
unfolding init_board_a
can_go_to-bishop_example =
    can_go_to-bishop (with_piece bishop 27) 27 45 (new_piece bishop 27 white)
      (with_piece-IsComplete bishop 27 (omega arith)) refl refl (omega arith)

-- A queen in the middle, and an empty square beside it on the diagonal
can_go_to-queen_diagonal_example : accepts (can_go_to (with_piece queen 27) 27 36) ≡ false
unfolding init_board_a
can_go_to-queen_diagonal_example =
    can_go_to-queen_diagonal (with_piece queen 27) 27 36 (new_piece queen 27 white) refl refl refl

-- A knight takes a black pawn.
can_kill-put_back_example :
    board_of (can_kill (with_piece knight 36) 36 53) (with_piece knight 36)
    ≡ ok (with_piece knight 36)
unfolding can_kill can_go_to can_go_as init_board_a
can_kill-put_back_example = can_kill-put_back (with_piece knight 36) 36 53

-- A rook in the sixth row, and the empty square before it
can_go_to-rook_crash_example : can_go_to (with_piece rook 40) 40 32 ≡ err crash
unfolding init_board_a
can_go_to-rook_crash_example =
    can_go_to-rook_crash (with_piece rook 40) 40 32 (new_piece rook 40 white)
      (new_piece empty 32 white) (with_piece-IsComplete rook 40 (omega arith)) refl refl refl refl
      refl (omega arith) (omega arith)

init_board_a-start_piece_example : init_board_a no_squares 3 ≡ some (new_piece queen 3 white)
init_board_a-start_piece_example = init_board_a-start_piece no_squares 3

-- The game behind the first move of a pawn
abbrev behind_pawn : GameState
behind_pawn = record { board = go_to start 8 16; winner = true; color = 1; moves = 1 }

Plays-behind_pawn : Plays behind_pawn
unfolding start_new_game can_go_to can_go_as init_board_a
Plays-behind_pawn =
    next_turn (8 ∷ 16 ∷ []) [] behind_pawn begin ((omega arith), ((omega arith), tt))
      (turn-CanMove 8 16 [] begin (omega arith) (omega arith) refl (inl refl))

Plays-IsValid_example : IsValid behind_pawn
Plays-IsValid_example = Plays-IsValid Plays-behind_pawn

Plays-count_pieces_example : count_pieces black 64 behind_pawn.board ≤ 16
Plays-count_pieces_example = Plays-count_pieces black Plays-behind_pawn

turn-Step_example : Step start_new_game behind_pawn
unfolding start_new_game can_go_to can_go_as init_board_a
turn-Step_example =
    turn-Step (8 ∷ 16 ∷ []) [] behind_pawn begin ((omega arith), ((omega arith), tt))
      (turn-CanMove 8 16 [] begin (omega arith) (omega arith) refl (inl refl))

-- The pawn goes one square, and a tap is left.
turn-CanMove_example : turn start_new_game (8 ∷ 16 ∷ 5 ∷ []) ≡ ok (some (behind_pawn, 5 ∷ []))
unfolding start_new_game can_go_to can_go_as init_board_a
turn-CanMove_example = turn-CanMove 8 16 (5 ∷ []) begin (omega arith) (omega arith) refl (inl refl)

turn-is_stuck_example : is_stuck (turn start_new_game (8 ∷ 16 ∷ [])) ≡ false
turn-is_stuck_example = turn-is_stuck (8 ∷ 16 ∷ []) begin ((omega arith), ((omega arith), tt))

same_text-same : (t : Text) → same_text t t ≡ true
same_text-same [] = refl
same_text-same (c ∷ t) = rw (same_text-same t) (ground arith)

same_text→eq : (s t : Text) → same_text s t ≡ true → s ≡ t
same_text→eq [] [] h = refl
same_text→eq [] (y ∷ ys) h = ground (arith, h)
same_text→eq (x ∷ xs) [] h = ground (arith, h)
same_text→eq (x ∷ xs) (y ∷ ys) h = elim (Bool-cases (x == y)) [
  | inl same ↦ ap₂ (λ c t. c ∷ t) (==→eq x y same) (same_text→eq xs ys (ground (arith, same, h)))
  | inr other ↦ ground (arith, other, h)
]

-- A database that is a function
abbrev notes : Database
notes = record {
  Node = Text → Option Value;
  new_node = λ k. none;
  update = λ node k v k'. if same_text k k' then some v else node k';
  value = λ node k. node k;
  value_same = λ node k v. rw (same_text-same k) refl;
  value_other = λ node k k' v ne. elim (Bool-cases (same_text k k')) [
    | inl same ↦ elim (ne (same_text→eq k k' same)) [ ]
    | inr other ↦ rw other refl
  ];
}

-- The start position, saved and read
load_squares-save_game_example :
    (save_game notes (pos 2) (pos 0) (pos 0) start [] >>= λ node.
    load_squares notes node 64 0 no_squares)
    ≡ ok (λ j. relocated j (start j))
load_squares-save_game_example =
    load_squares-save_game notes (pos 2) (pos 0) (pos 0) start [] init_board_a-IsComplete

load_game-save_game_crash_example :
    (save_game notes (pos 2) (pos 0) (pos 0) start [] >>= λ node. load_game notes node) ≡ err crash
load_game-save_game_crash_example =
    load_game-save_game_crash notes (pos 2) (pos 0) (pos 0) start [] init_board_a-IsComplete

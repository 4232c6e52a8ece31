-- ===== src/Chess/Moves/Kill.antt =====
-- `canKill` and the board.
use ivr_repo.Base.{none, false, if◌then◌else◌, refl, inr, ==→eq, sym, inl, ◌==◌, some, ap}
use ivr_repo.Base.{Bool-cases, Option}
use ivr_repo.Chess.Board.{new_piece, put, Board}
use ivr_repo.Chess.Moves.{can_go_to, same_color, unwrap, white, empty, err, Piece, ok, ℕ, Bool}
use ivr_repo.Chess.Moves.{can_kill}
use ivr_repo.Chess.Piece.{◌>>=◌, Result}
use mathlib.Core.Path.{◌≡◌, fun_ext}

put_back : (board : Board) (i : ℕ) (v : Option Piece) → put (put board i v) i (board i) ≡ board
put_back board i v = fun_ext λ j. elim (Bool-cases (j == i)) [
  | inl same ↦ rw same (ap board (sym (==→eq j i same)))
  | inr other ↦ rw other refl
]

abbrev pub board_of : Result (Bool × Board) → Board → Result Board
board_of (ok r) board = ok r.1
board_of (err e) board = err e

abbrev pub unchanged : Result (Bool × Board) → Board → Result Board
unchanged (ok r) board = ok board
unchanged (err e) board = err e

-- What `canKill` returns behind `CanGoTo`
abbrev finish : Board → ℕ → Option Piece → Bool → Result (Bool × Board)
finish board q v can = ok (can, put (put board q v) q (board q))

-- Whatever the board and the squares: unless it crashes, `canKill` leaves the board as it was.
pub can_kill-put_back :
    (board : Board) (position next_position : ℕ)
    → board_of (can_kill board position next_position) board
      ≡ unchanged (can_kill board position next_position) board
unfolding can_kill
can_kill-put_back board p q = by_target (board q) (board p)
  where
    by_can :
        (v : Option Piece) (r : Result Bool)
        → board_of (r >>= finish board q v) board ≡ unchanged (r >>= finish board q v) board
    by_can v (ok can) = ap ok (put_back board q v)
    by_can v (err e) = refl

    taken : Board
    taken = put board q (some (new_piece empty q white))

    by_color : Piece → Piece → Result (Bool × Board)
    by_color a piece =
        if same_color a.color piece.color
        then ok (false, board)
        else can_go_to taken p q >>= finish board q (some (new_piece empty q white))

    by_target :
        (a piece : Option Piece)
        → board_of (unwrap a >>= λ a. unwrap piece >>= by_color a) board
          ≡ unchanged (unwrap a >>= λ a. unwrap piece >>= by_color a) board
    by_target none piece = refl
    by_target (some a) none = refl
    by_target (some a) (some piece) = elim (Bool-cases (same_color a.color piece.color)) [
      | inl same ↦ rw same refl
      | inr other ↦ rw other (
          by_can (some (new_piece empty q white))
            (can_go_to (put board q (some (new_piece empty q white))) p q))
    ]

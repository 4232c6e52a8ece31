-- ===== src/Chess/Moves/Ends.antt =====
-- The rounds of the loops in `CanGoTo`.
use ivr_repo.Base.{◌||◌, ltb, ◌%◌, not, ◌/◌, inr, inl, Bool-cases, ◌∙◌, ◌&&◌, sym, ltb→lt, ap}
use ivr_repo.Base.{zero, ◌==◌, ◌*◌, none, ◌+◌, suc, some, refl, arith, ◌<◌, true, false, ◌≡◌, ℕ}
use ivr_repo.Base.{Option, Bool}
use ivr_repo.Chess.Board.{Board}
use ivr_repo.Chess.Board.Complete.{is_some, IsComplete}
use ivr_repo.Chess.Int.{next-false, neg_part, pos_part, is_number, next-true, square-parts}
use ivr_repo.Chess.Int.{negsuc}
use ivr_repo.Chess.Moves.{is_knight_move, need, is_diagonal, is_straight, PieceType, rook_can}
use ivr_repo.Chess.Moves.{queen_can, bishop_can, can_go_as, move_of, is_empty, can_go_to}
use ivr_repo.Chess.Moves.{at_square, diagonal_loop, Piece, next, pos, ok, square, ℤ, unwrap, err}
use ivr_repo.Chess.Moves.{Move, rook_loop, queen_loop}
use ivr_repo.Chess.Moves.Diagonal.{square-pos}
use ivr_repo.Chess.Moves.Stuck.{unwrap-is_stuck, clear_if-is_stuck, if-is_stuck, bind-is_stuck}
use ivr_repo.Chess.Moves.Stuck.{and_then-is_stuck, printing-is_stuck, is_stuck}
use ivr_repo.Chess.Piece.{◌>>=◌, Result, stuck, rook, pawn, king, queen, bishop, knight, empty}

rook_loop-is_stuck :
    (board : Board) (m : Move) (count i : ℕ) → is_stuck (rook_loop board m count i) ≡ false
unfolding rook_loop
rook_loop-is_stuck board m zero i = refl
rook_loop-is_stuck board m (suc count) i =
    and_then-is_stuck _ _
      (printing-is_stuck board _ _ (clear_if-is_stuck board (m.col == m.col1) _))
      (and_then-is_stuck _ _ (clear_if-is_stuck board (m.row == m.row1) _)
        (rook_loop-is_stuck board m count (i + 1)))

queen_loop-is_stuck :
    (board : Board) (m : Move) (count i : ℕ) → is_stuck (queen_loop board m count i) ≡ false
unfolding queen_loop
queen_loop-is_stuck board m zero i = refl
queen_loop-is_stuck board m (suc count) i =
    and_then-is_stuck _ _ (clear_if-is_stuck board (m.col == m.col1) _) (
      and_then-is_stuck _ _ (clear_if-is_stuck board (m.row == m.row1) _)
        (queen_loop-is_stuck board m count (i + 1)))

-- Rounds that are left, at the square `n`: each of them moves seven squares at least.
abbrev Room : Bool → ℕ → ℕ → Type 0
Room true n fuel = 63 < n + 7 * fuel
Room false n fuel = n < 7 * fuel

Room-zero : (up : Bool) (n : ℕ) → n < 64 → Room up n 0 → is_stuck {A = Bool} (err stuck) ≡ false
Room-zero true n h room = absurd (omega arith)
Room-zero false n h room = absurd (omega arith)

square-next :
    (up right : Bool) (r c : ℤ) (n n' fuel : ℕ)
    → square r c ≡ pos n
    → square (next up r) (next right c) ≡ pos n'
    → Room up n (suc fuel)
    → Room up n' fuel
square-next true true r c n n' fuel here there room = omega (
  arith,
  square-parts r c,
  square-parts (next true r) (next true c),
  next-true r,
  next-true c,
  ap pos_part here,
  ap neg_part here,
  ap pos_part there,
  ap neg_part there,
)
square-next true false r c n n' fuel here there room = omega (
  arith,
  square-parts r c,
  square-parts (next true r) (next false c),
  next-true r,
  next-false c,
  ap pos_part here,
  ap neg_part here,
  ap pos_part there,
  ap neg_part there,
)
square-next false true r c n n' fuel here there room = omega (
  arith,
  square-parts r c,
  square-parts (next false r) (next true c),
  next-false r,
  next-true c,
  ap pos_part here,
  ap neg_part here,
  ap pos_part there,
  ap neg_part there,
)
square-next false false r c n n' fuel here there room = omega (
  arith,
  square-parts r c,
  square-parts (next false r) (next false c),
  next-false r,
  next-false c,
  ap pos_part here,
  ap neg_part here,
  ap pos_part there,
  ap neg_part there,
)

module _ (board : Board) (complete : IsComplete board) where
  on_board : (i : ℕ) (p : Piece) → board i ≡ some p → i < 64
  on_board i p there = ltb→lt i 64 (sym (complete.keys i) ∙ ap is_some there)

  -- The square that the loop looks at, and the rest of the loop `k`
  look :
      (z : ℤ) (k : Result Bool)
      → ((n : ℕ) → z ≡ pos n → n < 64 → is_stuck k ≡ false)
      → is_stuck (
          at_square board z >>= λ p. elim (is_empty p.piece_type) as (λ _. Result Bool) [
            | true ↦ k
            | false ↦ ok false
          ])
        ≡ false
  look (negsuc i) k rest = refl
  look (pos i) k rest = found (board i) refl
    where
      found :
          (v : Option Piece)
          → board i ≡ v
          → is_stuck (
              unwrap v >>= λ p. elim (is_empty p.piece_type) as (λ _. Result Bool) [
                | true ↦ k
                | false ↦ ok false
              ])
            ≡ false
      found none there = refl
      found (some p) there = by_test (is_empty p.piece_type)
        where
          by_test :
              (b : Bool)
              → is_stuck (elim b as (λ _. Result Bool) [ true ↦ k | false ↦ ok false ]) ≡ false
          by_test true = rest i refl (on_board i p there)
          by_test false = refl

  -- On a board of 64 squares, from the square `n`
  diagonal_loop-is_stuck :
      (m : Move) (up right : Bool) (fuel : ℕ) (r c : ℤ) (n : ℕ)
      → square r c ≡ pos n
      → n < 64
      → Room up n fuel
      → is_stuck (diagonal_loop board m up right fuel r c) ≡ false
  unfolding diagonal_loop
  diagonal_loop-is_stuck m up right zero r c n here h room = Room-zero up n h room
  diagonal_loop-is_stuck m up right (suc fuel) r c n here h room =
      elim (Bool-cases (is_number r m.row1 && is_number c m.col1)) [
        | inl end ↦ rw (diagonal_loop, end) refl
        | inr more ↦
            rw (diagonal_loop, more)
              (look (square (next up r) (next right c)) _ (λ n' there h'.
                diagonal_loop-is_stuck m up right fuel (next up r) (next right c) n' there h'
                  (square-next up right r c n n' fuel here there room)))
      ]

square_of : (p : ℕ) → square (pos (p / 8)) (pos (p % 8)) ≡ pos p
square_of p =
    let whole : p / 8 * 8 + p % 8 ≡ p = omega arith in square-pos (p / 8) (p % 8) ∙ ap pos whole

enough : (up : Bool) (p : ℕ) → p < 64 → Room up p 10
enough true p h = omega arith
enough false p h = omega arith

module _ (board : Board) (m : Move) where
  rook_can-is_stuck : (piece target : Piece) → is_stuck (rook_can board m piece target) ≡ false
  unfolding rook_can
  rook_can-is_stuck piece target =
      if-is_stuck (is_straight m && _) _ _ (rook_loop-is_stuck board m (need m).1 (need m).0) refl

  module _
      (diagonal : (up right : Bool)
        → is_stuck (diagonal_loop board m up right 10 (pos m.row) (pos m.col)) ≡ false) where
    queen_can-is_stuck : (target : Piece) → is_stuck (queen_can board m target) ≡ false
    unfolding queen_can
    queen_can-is_stuck target = if-is_stuck (not (is_empty target.piece_type)) _ _ refl (
        if-is_stuck (is_straight m) _ _ (queen_loop-is_stuck board m (need m).1 (need m).0)
          (diagonal (ltb m.row1 m.row) (ltb m.col1 m.col)))

    can_go_as-is_stuck :
        (t : PieceType) (piece : Piece) (q : ℕ) → is_stuck (can_go_as t board m piece q) ≡ false
    unfolding can_go_as bishop_can
    can_go_as-is_stuck rook piece q =
        bind-is_stuck (unwrap (board q)) _ (unwrap-is_stuck (board q)) (rook_can-is_stuck piece)
    can_go_as-is_stuck pawn piece q =
        bind-is_stuck (unwrap (board q)) _ (unwrap-is_stuck (board q)) (λ target. refl)
    can_go_as-is_stuck king piece q = refl
    can_go_as-is_stuck queen piece q =
        if-is_stuck (is_diagonal m || is_straight m) _ _
          (bind-is_stuck (unwrap (board q)) _ (unwrap-is_stuck (board q)) queen_can-is_stuck) refl
    can_go_as-is_stuck bishop piece q =
        if-is_stuck (is_diagonal m) _ _ (diagonal (ltb m.row m.row1) (ltb m.col m.col1)) refl
    can_go_as-is_stuck knight piece q =
        if-is_stuck (is_knight_move m) _ _
          (bind-is_stuck (unwrap (board q)) _ (unwrap-is_stuck (board q)) (λ target. refl)) refl
    can_go_as-is_stuck empty piece q = refl

-- On a board of 64 squares the loops of `CanGoTo` come to their end, whatever the squares: ten rounds
-- along a diagonal are enough.
pub can_go_to-is_stuck :
    (board : Board) (position next_position : ℕ)
    → IsComplete board
    → is_stuck (can_go_to board position next_position) ≡ false
unfolding can_go_to
can_go_to-is_stuck board p q complete = by_piece (board p) refl
  where
    diagonal :
        (up right : Bool)
        → p < 64
        → let m = move_of p q in
          is_stuck (diagonal_loop board m up right 10 (pos m.row) (pos m.col)) ≡ false
    diagonal up right h =
        diagonal_loop-is_stuck board complete (move_of p q) up right 10 (pos (p / 8)) (pos (p % 8))
          p (square_of p) h (enough up p h)

    by_piece :
        (v : Option Piece)
        → board p ≡ v
        → is_stuck (unwrap v >>= λ piece. can_go_as piece.piece_type board (move_of p q) piece q)
          ≡ false
    by_piece none there = refl
    by_piece (some piece) there =
        can_go_as-is_stuck board (move_of p q)
          (λ up right. diagonal up right (on_board board complete p piece there)) piece.piece_type
          piece q

-- ===== src/Chess/Moves/Queen.antt =====
-- `CanGoTo` for a queen.
use ivr_repo.Base.{none, Option, inr, inl, Bool-cases, refl, zero, ltb, ◌==◌, ◌<◌, true, suc}
use ivr_repo.Base.{some, arith, ◌≡◌, ◌+◌, false, ℕ, Bool}
use ivr_repo.Chess.Int.{pos, square, pos_part, next-false, next-true, neg_part}
use ivr_repo.Chess.Moves.{is_diagonal, unwrap, move_of, at_square, is_straight, is_empty, queen}
use ivr_repo.Chess.Moves.{next, is_number, Piece, ℤ, queen_can, err, Move, ok, can_go_as, Board}
use ivr_repo.Chess.Moves.{diagonal_loop, can_go_to}
use ivr_repo.Chess.Piece.{◌>>=◌, Result}

abbrev pub accepts : Result Bool → Bool
accepts (ok b) = b
accepts (err e) = false

-- A coordinate that has left `a`, away from `b`
abbrev Beyond : Bool → ℕ → ℤ → Type 0
Beyond true b z = b + neg_part z < pos_part z
Beyond false b z = pos_part z < b + neg_part z

Beyond-next : (up : Bool) (b : ℕ) (z : ℤ) → Beyond up b z → Beyond up b (next up z)
Beyond-next true b z h = omega (arith, next-true z)
Beyond-next false b z h = omega (arith, next-false z)

Beyond-is_number : (up : Bool) (b : ℕ) (z : ℤ) → Beyond up b z → is_number z b ≡ false
Beyond-is_number true b z h = ground arith
Beyond-is_number false b z h = ground arith

-- A loop that moves away from its end does not come to it.
diagonal_loop-accepts :
    (board : Board) (m : Move) (up right : Bool) (fuel : ℕ) (r c : ℤ)
    → Beyond up m.row1 r
    → accepts (diagonal_loop board m up right fuel r c) ≡ false
unfolding diagonal_loop
diagonal_loop-accepts board m up right zero r c h = refl
diagonal_loop-accepts board m up right (suc fuel) r c h =
    rw (diagonal_loop, Beyond-is_number up m.row1 r h)
      (look (at_square board (square (next up r) (next right c))) _ (
        diagonal_loop-accepts board m up right fuel (next up r) (next right c)
          (Beyond-next up m.row1 r h)))
  where
    look :
        (found : Result Piece) (k : Result Bool)
        → accepts k ≡ false
        → accepts (
            found >>= λ p. elim (is_empty p.piece_type) as (λ _. Result Bool) [
              | true ↦ k
              | false ↦ ok false
            ])
          ≡ false
    look (err e) k rest = refl
    look (ok p) k rest = by_test (is_empty p.piece_type)
      where
        by_test :
            (b : Bool)
            → accepts (elim b as (λ _. Result Bool) [ true ↦ k | false ↦ ok false ]) ≡ false
        by_test true = rest
        by_test false = refl

away : (a b : ℕ) → (a == b) ≡ false → Beyond (ltb b a) b (pos a)
away a b h = elim (Bool-cases (ltb b a)) [
  | inl up ↦ rw up (ground (arith, up))
  | inr down ↦ rw down (ground (arith, down, h))
]

queen_can-accepts :
    (board : Board) (m : Move) (target : Piece)
    → is_straight m ≡ false
    → accepts (queen_can board m target) ≡ false
unfolding queen_can
queen_can-accepts board m target bent = elim (Bool-cases (is_empty target.piece_type)) [
  | inr taken ↦ rw taken refl
  | inl free ↦
      let other : (m.row == m.row1) ≡ false = ground (arith, bent) in
      rw (free, bent)
        (diagonal_loop-accepts board m (ltb m.row1 m.row) (ltb m.col1 m.col) 10 (pos m.row)
          (pos m.col) (away m.row m.row1 other))
]

-- Whatever the board: a queen cannot go along a diagonal.
pub can_go_to-queen_diagonal :
    (board : Board) (position next_position : ℕ) (piece : Piece)
    → board position ≡ some piece
    → piece.piece_type ≡ queen
    → is_straight (move_of position next_position) ≡ false
    → accepts (can_go_to board position next_position) ≡ false
unfolding can_go_to can_go_as
can_go_to-queen_diagonal board p q piece there kind bent =
    rw (there, kind, bent)
      (elim (Bool-cases (is_diagonal (move_of p q))) [
        | inr other ↦ rw other refl
        | inl diagonal ↦ rw diagonal (by_target (board q))
      ])
  where
    by_target :
        (target : Option Piece)
        → accepts (unwrap target >>= λ target. queen_can board (move_of p q) target) ≡ false
    by_target none = refl
    by_target (some target) = queen_can-accepts board (move_of p q) target bent

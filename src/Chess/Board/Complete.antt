-- ===== src/Chess/Board/Complete.antt =====
-- Boards of 64 squares.
use ivr_repo.Base.{arith, ap, if◌then◌else◌, inr, ==→eq, sym, inl, ◌==◌, none, lt→ltb, ◌∙◌, true}
use ivr_repo.Base.{Bool-cases, some, ltb, ◌≡◌, ◌<◌, false, ℕ, Bool, Option, refl}
use ivr_repo.Chess.Board.{kill, put, Piece, no_squares, init_board_a, go_to, Board}
use ivr_repo.Chess.Board.Start.{start_piece, init_board_a-start_piece}

abbrev pub is_some : {A : Type 0} → Option A → Bool
is_some none = false
is_some (some a) = true

-- The keys of the dictionary are the numbers from 0 to 63.
pub record IsComplete (board : Board) : Type 0 where
  pub keys : (i : ℕ) → is_some (board i) ≡ ltb i 64

pub init_board_a-IsComplete : IsComplete (init_board_a no_squares)
init_board_a-IsComplete = record {
  keys =
      λ i. ap is_some (init_board_a-start_piece no_squares i) ∙ either (ltb i 64) (start_piece i);
}
  where
    either : (b : Bool) (p : Piece) → is_some (if b then some p else no_squares 0) ≡ b
    either true p = refl
    either false p = refl

-- A square that is on the board is overwritten.
pub put-IsComplete :
    (board : Board) (i : ℕ) (v : Option Piece)
    → IsComplete board
    → is_some v ≡ ltb i 64
    → IsComplete (put board i v)
put-IsComplete board i v complete there = record { keys = at_key }
  where
    at_key : (j : ℕ) → is_some (put board i v j) ≡ ltb j 64
    at_key j = elim (Bool-cases (j == i)) [
      | inl same ↦ rw same (there ∙ ap (λ k. ltb k 64) (sym (==→eq j i same)))
      | inr other ↦ rw other (complete.keys j)
    ]

pub go_to-IsComplete :
    (board : Board) (position next_position : ℕ)
    → IsComplete board
    → position < 64
    → next_position < 64
    → IsComplete (go_to board position next_position)
unfolding go_to
go_to-IsComplete board position next_position complete h h' =
    put-IsComplete (put board next_position (board position)) position _
      (put-IsComplete board next_position (board position) complete
        (complete.keys position ∙ lt→ltb position 64 h ∙ sym (lt→ltb next_position 64 h')))
      (sym (lt→ltb position 64 h))

pub kill-IsComplete :
    (board : Board) (position next_position : ℕ)
    → IsComplete board
    → position < 64
    → next_position < 64
    → IsComplete (kill board position next_position)
unfolding kill go_to
kill-IsComplete = go_to-IsComplete

-- The piece on a square
pub record Placed (board : Board) (j : ℕ) : Type 0 where
  pub piece : Piece
  pub there : board j ≡ some piece

pub placed : (board : Board) (j : ℕ) → IsComplete board → j < 64 → Placed board j
placed board j complete h = by_square (board j) refl (complete.keys j ∙ lt→ltb j 64 h)
  where
    by_square : (v : Option Piece) → board j ≡ v → is_some v ≡ true → Placed board j
    by_square none there missing = ground arith
    by_square (some p) there some_p = record { piece = p; there = there }

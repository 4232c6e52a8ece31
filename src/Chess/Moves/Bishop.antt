-- ===== src/Chess/Moves/Bishop.antt =====
-- `CanGoTo` for a bishop.
use ivr_repo.Base.{refl, lt→ltb, inl, inr, Bool-cases, ap, ◌∙◌, sym, ltb→lt, suc, every, ◌&&◌}
use ivr_repo.Base.{==→eq, some, true, ◌≡◌, ltb, arith, ◌≤◌, ◌<◌, ℕ}
use ivr_repo.Chess.Board.{new_piece, put, go_to}
use ivr_repo.Chess.Board.Complete.{is_some, IsComplete}
use ivr_repo.Chess.Moves.{white, empty, ok, bishop, Piece, is_diagonal, Board, move_of, distance}
use ivr_repo.Chess.Moves.{bishop_can, can_go_as, can_go_to}
use ivr_repo.Chess.Moves.Diagonal.{diagonal_loop_start, is_clear, diagonal_square, along}
use mathlib.Core.Path.{fun_ext}

along_bound : (a b d n : ℕ) → a < n → b < n → d ≤ distance a b → along (ltb a b) a d < n
along_bound a b d n ha hb h = ground arith

-- Every square of a diagonal move between squares of the board is on the board.
pub diagonal_square_inside :
    (position next_position d : ℕ)
    → position < 64
    → next_position < 64
    → let m = move_of position next_position in
      is_diagonal m ≡ true → d ≤ distance m.row m.row1 → diagonal_square m d < 64
diagonal_square_inside p q d hp hq diagonal h =
    let m = move_of p q in
    let same = ==→eq (distance m.row m.row1) (distance m.col m.col1) diagonal in
    let row = along_bound m.row m.row1 d 8 (omega arith) (omega arith) h in
    let col = along_bound m.col m.col1 d 8 (omega arith) (omega arith) (omega (arith, same, h)) in
    omega (arith, row, col)

distance_bound : (a b n : ℕ) → a < n → b < n → distance a b < n
distance_bound a b n ha hb = ground arith

-- On a board of 64 squares a bishop can go just to the squares on a diagonal, itself included, with
-- every square behind its own, up to and with the target, empty.
pub can_go_to-bishop :
    (board : Board) (position next_position : ℕ) (piece : Piece)
    → IsComplete board
    → board position ≡ some piece
    → piece.piece_type ≡ bishop
    → next_position < 64
    → let m = move_of position next_position in
      can_go_to board position next_position
      ≡ ok (
          is_diagonal m
          && every (distance m.row m.row1) (λ k. is_clear (board (diagonal_square m (suc k)))))
unfolding can_go_to can_go_as bishop_can
can_go_to-bishop board p q piece complete there kind hq =
    let m = move_of p q in
    let hp : p < 64 = ltb→lt p 64 (sym (complete.keys p) ∙ ap is_some there) in
    elim (Bool-cases (is_diagonal m)) [
      | inr other ↦ rw (there, kind, other) refl
      | inl diagonal ↦
          let same = ==→eq (distance m.row m.row1) (distance m.col m.col1) diagonal in
          rw (there, kind, diagonal)
            (diagonal_loop_start board m same
              (λ d h.
                complete.keys (diagonal_square m d)
                ∙ lt→ltb _ 64 (diagonal_square_inside p q d hp hq diagonal h))
              10 (omega (arith, distance_bound m.row m.row1 8 (omega arith) (omega arith))))
    ]

-- On a board of 64 squares a bishop can go to its own square, and it is gone then: that square is
-- empty, and every other is as it was.
pub go_to-bishop_in_place :
    (board : Board) (position : ℕ) (piece : Piece)
    → IsComplete board
    → board position ≡ some piece
    → piece.piece_type ≡ bishop
    → (can_go_to board position position ≡ ok true)
      × (go_to board position position ≡ put board position (some (new_piece empty position white)))
unfolding go_to
go_to-bishop_in_place board p piece complete there kind =
    let hp : p < 64 = ltb→lt p 64 (sym (complete.keys p) ∙ ap is_some there) in
    let m = move_of p p in
    let none_away : (a : ℕ) → distance a a ≡ 0 = λ a. ground arith in
    (
      can_go_to-bishop board p p piece complete there kind hp
          ∙ rw (none_away m.row, none_away m.col) refl,
      fun_ext λ i. ground arith,
    )

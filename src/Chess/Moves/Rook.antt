-- ===== src/Chess/Moves/Rook.antt =====
-- `CanGoTo` for a rook in a column.
use ivr_repo.Base.{ap, sym, ltb→lt, ◌<◌, le→not_ltb, ◌∙◌, ◌==◌, min, ◌≢◌, true, not, ◌||◌, refl}
use ivr_repo.Base.{none, false, arith, ◌≡◌, ◌*◌, ◌+◌, some, ◌≤◌, ℕ, Option}
use ivr_repo.Chess.Board.Complete.{IsComplete, is_some}
use ivr_repo.Chess.Moves.{crash, err, move_of, same_color, is_empty, Board, rook_loop, clamped}
use ivr_repo.Chess.Moves.{rook_can, can_go_as, Piece, can_go_to}
use ivr_repo.Chess.Piece.{rook}

not_some : (v : Option Piece) → is_some v ≡ false → v ≡ none
not_some none h = refl
not_some (some p) h = ground (arith, h)

-- The first square that the loop looks at in a column
first_square : (row i : ℕ) → i < 8 → 8 ≤ row + i → 64 ≤ (row + clamped i) * 8 + clamped i
first_square row i small h = ground arith

-- On a board of 64 squares, for a rook and another square of its column that is empty or taken by the
-- other color: if the sum of its row and of the lower one of both rows is 8 or more, `CanGoTo`
-- crashes.
pub can_go_to-rook_crash :
    (board : Board) (position next_position : ℕ) (piece target : Piece)
    → IsComplete board
    → board position ≡ some piece
    → board next_position ≡ some target
    → piece.piece_type ≡ rook
    → (is_empty target.piece_type || not (same_color target.color piece.color)) ≡ true
    → let m = move_of position next_position in
      m.col ≡ m.col1
      → m.row ≢ m.row1
      → 8 ≤ m.row + min m.row m.row1
      → can_go_to board position next_position ≡ err crash
unfolding can_go_to can_go_as rook_can rook_loop
can_go_to-rook_crash board p q piece target complete there there' kind free column rows high =
    let m = move_of p q in
    let hp : p < 64 = ltb→lt p 64 (sym (complete.keys p) ∙ ap is_some there) in
    let far = first_square m.row (min m.row m.row1) (omega arith) high in
    let same : (m.col == m.col1) ≡ true = ground (arith, column) in
    let other : (m.row == m.row1) ≡ false = ground (arith, rows) in
    let missing = not_some (board _) (
      complete.keys ((m.row + clamped (min m.row m.row1)) * 8 + clamped (min m.row m.row1))
      ∙ le→not_ltb _ 64 far) in
    rw (there, kind, there', free, same, other, rook_loop, same, missing) refl

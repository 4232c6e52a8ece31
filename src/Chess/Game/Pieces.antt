-- ===== src/Chess/Game/Pieces.antt =====
-- The pieces that are on the board in a game.
use ivr_repo.Base.{◌&&◌, ap, ==→eq, ◌==◌, not, arith, Bool-cases, ◌≤◌, ◌<◌, ◌+◌, refl, ◌≡◌, ℕ}
use ivr_repo.Base.{Option, inl, inr, none, false, zero, suc, some, if◌then◌else◌}
use ivr_repo.Chess.Board.{new_piece, Board, init_board_a, go_to, put}
use ivr_repo.Chess.Game.{same_color, is_empty, Piece, GameState, Color, start_new_game}
use ivr_repo.Chess.Game.Steps.{turn-Step}
use ivr_repo.Chess.Game.Valid.{Plays, begin, next_turn}
use ivr_repo.Chess.Piece.{white, black, empty}

-- Whether a square holds a piece of the color
abbrev pub held : Color → Option Piece → ℕ
held color none = 0
held color (some p) = if not (is_empty p.piece_type) && same_color p.color color then 1 else 0

-- The pieces of a color on the first squares
pub count_pieces : Color → ℕ → Board → ℕ
count_pieces color zero board = 0
count_pieces color (suc n) board = held color (board n) + count_pieces color n board

count_pieces-beyond :
    (color : Color) (n : ℕ) (board : Board) (i : ℕ) (v : Option Piece)
    → n ≤ i
    → count_pieces color n (put board i v) ≡ count_pieces color n board
unfolding count_pieces
count_pieces-beyond color zero board i v h = refl
count_pieces-beyond color (suc n) board i v h =
    let other : (n == i) ≡ false = ground (arith, h) in
    rw (other, count_pieces-beyond color n board i v (omega (arith, h))) refl

count_pieces-put :
    (color : Color) (n : ℕ) (board : Board) (i : ℕ) (v : Option Piece)
    → i < n
    → count_pieces color n (put board i v) + held color (board i)
      ≡ count_pieces color n board + held color v
unfolding count_pieces
count_pieces-put color zero board i v h = absurd (omega (arith, h))
count_pieces-put color (suc n) board i v h = elim (Bool-cases (n == i)) [
  | inl same ↦
      let here : n ≡ i = ==→eq n i same in
      let beyond = count_pieces-beyond color n board i v (omega (arith, here)) in
      let there : held color (board n) ≡ held color (board i) =
        ap (λ k. held color (board k)) here in
      rw same (omega (arith, beyond, there))
  | inr other ↦
      let rest = count_pieces-put color n board i v (ground (arith, h, other)) in
      rw other (omega (arith, rest))
]

-- A move takes the piece on the target off the board, and no other.
count_pieces-go_to :
    (color : Color) (board : Board) (p q : ℕ)
    → p < 64
    → q < 64
    → count_pieces color 64 (go_to board p q) + held color (board q) ≡ count_pieces color 64 board
unfolding go_to
count_pieces-go_to color board p q hp hq =
    let came = count_pieces-put color 64 board q (board p) hq in
    let left =
      count_pieces-put color 64 (put board q (board p)) p (some (new_piece empty p white)) hp in
    let moved : held color (put board q (board p) p) ≡ held color (board p) = by_target in
    omega (arith, came, left, moved)
  where
    by_target : held color (put board q (board p) p) ≡ held color (board p)
    by_target = elim (Bool-cases (p == q)) [ inl same ↦ rw same refl | inr other ↦ rw other refl ]

count_pieces-start : (color : Color) → count_pieces color 64 start_new_game.board ≡ 16
unfolding count_pieces start_new_game init_board_a
count_pieces-start white = refl
count_pieces-start black = refl

-- In every state that a game reaches, with any taps on the board, each color has 16 pieces at most.
pub Plays-count_pieces :
    {game : GameState} (color : Color) → Plays game → count_pieces color 64 game.board ≤ 16
Plays-count_pieces color begin = omega (arith, count_pieces-start color)
Plays-count_pieces color (next_turn {game} taps rest game' before h played) =
    let s = turn-Step taps rest game' before h played in
    let fewer = count_pieces-go_to color game.board s.from s.to s.from_IsTap s.to_IsTap in
    let board : count_pieces color 64 game'.board
        ≡ count_pieces color 64 (go_to game.board s.from s.to) =
      ap (λ g. count_pieces color 64 g.board) s.next in
    omega (arith, Plays-count_pieces color before, fewer, board)

-- ===== src/Chess/Board/Start.antt =====
-- The board that `initBoardA` sets up.
use ivr_repo.Base.{le→not_ltb, not_ltb→le, lt→ltb, ltb→lt, ◌%◌, ltb, if◌then◌else◌, [], ◌∷◌, List}
use ivr_repo.Base.{get_or, refl, zero, ==→eq, ◌==◌, inr, ◌∙◌, Bool-cases, arith, inl, suc, some}
use ivr_repo.Base.{◌⊎◌, ◌+◌, ◌≤◌, ◌≡◌, ◌<◌, ℕ}
use ivr_repo.Chess.Board.{king, black, queen, empty, pawn, bishop, white, knight, rook, back_row}
use ivr_repo.Chess.Board.{place, new_piece, fill, Piece, Color, Board, init_board_a}
use ivr_repo.Chess.Piece.{PieceType}
use mathlib.Core.Path.{subst}

-- The piece that stands first in a column
abbrev officers : List PieceType
officers = rook ∷ knight ∷ bishop ∷ queen ∷ king ∷ bishop ∷ knight ∷ rook ∷ []

abbrev officer : ℕ → PieceType
officer i = get_or officers i rook

-- The start position of chess
abbrev pub start_piece : ℕ → Piece
start_piece i =
    if ltb i 8
    then new_piece (officer i) i white
    else if ltb i 16
    then new_piece pawn i white
    else if ltb i 48
    then new_piece empty i white
    else if ltb i 56
    then new_piece pawn i black
    else new_piece (officer (i % 8)) i black

fill-outside :
    (t : PieceType) (c : Color) (count i j : ℕ) (board : Board)
    → (j < i) ⊎ (i + count ≤ j)
    → fill t c count i board j ≡ board j
fill-outside t c zero i j board h = refl
fill-outside t c (suc count) i j board (inl h) =
    fill-outside t c count (i + 1) j (place t c i board) (inl (omega arith)) ∙ ground arith
fill-outside t c (suc count) i j board (inr h) =
    fill-outside t c count (i + 1) j (place t c i board) (inr (omega arith)) ∙ ground arith

fill-inside :
    (t : PieceType) (c : Color) (count i j : ℕ) (board : Board)
    → i ≤ j
    → j < i + count
    → fill t c count i board j ≡ some (new_piece t j c)
fill-inside t c zero i j board h k = absurd (omega arith)
fill-inside t c (suc count) i j board h k = elim (Bool-cases (i == j)) [
  | inl here ↦
      let same : i ≡ j = ==→eq i j here in
      fill-outside t c count (i + 1) j (place t c i board) (inl (omega arith)) ∙ ground arith
  | inr later ↦
      let behind : i + 1 ≤ j = ground arith in
      fill-inside t c count (i + 1) j (place t c i board) behind (omega arith)
]

back_row-outside :
    (c : Color) (i j : ℕ) (board : Board) → (j < i) ⊎ (i + 8 ≤ j) → back_row c i board j ≡ board j
back_row-outside c i j board (inl h) = ground arith
back_row-outside c i j board (inr h) = ground arith

-- The squares of a row, one by one
back_row-column :
    (c : Color) (i k : ℕ) (board : Board)
    → k < 8
    → back_row c i board (i + k) ≡ some (new_piece (officer k) (i + k) c)
back_row-column c i zero board h = let same : i + 0 ≡ i = omega arith in rw same (ground arith)
back_row-column c i (suc zero) board h = ground arith
back_row-column c i (suc (suc zero)) board h = ground arith
back_row-column c i (suc (suc (suc zero))) board h = ground arith
back_row-column c i (suc (suc (suc (suc zero)))) board h = ground arith
back_row-column c i (suc (suc (suc (suc (suc zero))))) board h = ground arith
back_row-column c i (suc (suc (suc (suc (suc (suc zero)))))) board h = ground arith
back_row-column c i (suc (suc (suc (suc (suc (suc (suc zero))))))) board h = ground arith
back_row-column c i (suc (suc (suc (suc (suc (suc (suc (suc k)))))))) board h = absurd (omega arith)

back_row-inside :
    (c : Color) (i k j : ℕ) (board : Board)
    → k < 8
    → i + k ≡ j
    → back_row c i board j ≡ some (new_piece (officer k) j c)
back_row-inside c i k j board h same =
    subst (λ j. back_row c i board j ≡ some (new_piece (officer k) j c)) same
      (back_row-column c i k board h)

module _ (board : Board) (i : ℕ) where
  abbrev first : Board
  first = back_row white 0 board

  abbrev pawns : Board
  pawns = fill pawn white 9 8 first

  abbrev middle : Board
  middle = fill empty white 33 16 pawns

  abbrev others : Board
  others = fill pawn black 9 48 middle

  white_row : i < 8 → init_board_a board i ≡ some (start_piece i)
  unfolding init_board_a
  white_row h = rw (lt→ltb i 8 h) (
      back_row-outside black 56 i others (inl (omega arith))
      ∙ fill-outside pawn black 9 48 i middle (inl (omega arith))
      ∙ fill-outside empty white 33 16 i pawns (inl (omega arith))
      ∙ fill-outside pawn white 9 8 i first (inl (omega arith))
      ∙ back_row-inside white 0 i i board h (omega arith))

  pawn_rows : 8 ≤ i → i < 56 → init_board_a board i ≡ some (start_piece i)
  unfolding init_board_a
  pawn_rows l h = elim (Bool-cases (ltb i 48)) [
    | inr d ↦
        let l' = not_ltb→le i 48 d in
        rw (le→not_ltb i 8 l, le→not_ltb i 16 (omega arith), d, lt→ltb i 56 h)
          (back_row-outside black 56 i others (inl (omega arith))
            ∙ fill-inside pawn black 9 48 i middle l' (omega arith))
    | inl d ↦
        let h' = ltb→lt i 48 d in
        let late =
          back_row-outside black 56 i others (inl (omega arith))
          ∙ fill-outside pawn black 9 48 i middle (inl h') in
        elim (Bool-cases (ltb i 16)) [
          | inl b ↦
              let h'' = ltb→lt i 16 b in
              rw (le→not_ltb i 8 l, b)
                (late
                  ∙ fill-outside empty white 33 16 i pawns (inl h'')
                  ∙ fill-inside pawn white 9 8 i first l (omega arith))
          | inr b ↦
              rw (le→not_ltb i 8 l, b, d)
                (late ∙ fill-inside empty white 33 16 i pawns (not_ltb→le i 16 b) (omega arith))
        ]
  ]

  black_row : 56 ≤ i → i < 64 → init_board_a board i ≡ some (start_piece i)
  unfolding init_board_a
  black_row l h =
      rw
        (
          le→not_ltb i 8 (omega arith),
          le→not_ltb i 16 (omega arith),
          le→not_ltb i 48 (omega arith),
          le→not_ltb i 56 l,
        )
        (back_row-inside black 56 (i % 8) i others (omega arith) (omega arith))

  beyond : 64 ≤ i → init_board_a board i ≡ board i
  unfolding init_board_a
  beyond l =
      back_row-outside black 56 i others (inr l)
      ∙ fill-outside pawn black 9 48 i middle (inr (omega arith))
      ∙ fill-outside empty white 33 16 i pawns (inr (omega arith))
      ∙ fill-outside pawn white 9 8 i first (inr (omega arith))
      ∙ back_row-outside white 0 i board (inr (omega arith))

-- Whatever stood on the board, `initBoardA` sets up the start position of chess on the squares 0 to
-- 63, and leaves every other key of the dictionary as it is.
pub init_board_a-start_piece :
    (board : Board) (i : ℕ)
    → init_board_a board i ≡ (if ltb i 64 then some (start_piece i) else board i)
init_board_a-start_piece board i = elim (Bool-cases (ltb i 64)) [
  | inr f ↦ rw f (beyond board i (not_ltb→le i 64 f))
  | inl f ↦ elim (Bool-cases (ltb i 8)) [
    | inl a ↦ rw f (white_row board i (ltb→lt i 8 a))
    | inr a ↦ elim (Bool-cases (ltb i 56)) [
      | inl e ↦ rw f (pawn_rows board i (not_ltb→le i 8 a) (ltb→lt i 56 e))
      | inr e ↦ rw f (black_row board i (not_ltb→le i 56 e) (ltb→lt i 64 f))
    ]
  ]
]

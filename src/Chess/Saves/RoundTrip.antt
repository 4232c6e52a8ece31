-- ===== src/Chess/Saves/RoundTrip.antt =====
-- `loadGame` behind `saveGame`.
use ivr_repo.Base.{◌&&◌, leb, ==→eq, ◌==◌, none, if◌then◌else◌, ◌∙◌, sym, ap, ◌≤◌, ◌≢◌, Option}
use ivr_repo.Base.{inr, inl, Bool-cases, true, false, ltb, refl, ◌+◌, some, arith, ◌≡◌, ◌++◌, ◌<◌}
use ivr_repo.Base.{get_or, ℕ, zero, suc}
use ivr_repo.Chess.Board.Complete.{is_some, IsComplete, placed}
use ivr_repo.Chess.Piece.{crash, err, ◌>>=◌, ok, Piece}
use ivr_repo.Chess.Int.{ℤ}
use ivr_repo.Chess.Saves.{number, date_key, turn_key, moves_key, save_game, players_key}
use ivr_repo.Chess.Saves.{
  string_of_int, load_game, Value, no_squares, put, load_squares, text, new_piece,
}
use ivr_repo.Chess.Saves.{color_key, Board, piece_type_key, Database, square_key, Text}
use ivr_repo.Chess.Saves.Keys.{color_of_text-color_text, type_of_text-type_text, not_a_square}
use ivr_repo.Chess.Saves.Writes.{save_squares_saves, Holds}
use mathlib.Core.Path.{fun_ext}

-- A piece as it comes back: its number is that of its square.
abbrev pub relocated : ℕ → Option Piece → Option Piece
relocated i none = none
relocated i (some p) = some (new_piece p.piece_type i p.color)

module _ (db : Database) where
  open db use {Node, new_node, update, value}

  -- What a saved board is read as
  abbrev Read : Board → ℕ → Node → Type 0
  Read board i node = (j : ℕ) (p : Piece) → i ≤ j → j < 64 → board j ≡ some p → Holds db node j p

  -- The squares from `i` on, put on a board the way `loadGame` puts them
  abbrev put_squares : Board → ℕ → ℕ → Board → Board
  put_squares board zero i pieces = pieces
  put_squares board (suc count) i pieces =
      put_squares board count (i + 1) (put pieces i (relocated i (board i)))

  load_squares_reads :
      (board : Board) (node : Node) (count i : ℕ) (pieces : Board)
      → IsComplete board
      → i + count ≡ 64
      → Read board 0 node
      → load_squares db node count i pieces ≡ ok (put_squares board count i pieces)
  unfolding load_squares
  load_squares_reads board node zero i pieces complete total read = refl
  load_squares_reads board node (suc count) i pieces complete total read =
      let h : i < 64 = omega (arith, total) in
      let square = placed board i complete h in
      let p = square.piece in
      let held = read i p (omega arith) h square.there in
      let rest =
        load_squares_reads board node count (i + 1)
          (put pieces i (some (new_piece p.piece_type i p.color))) complete (omega (arith, total))
          read in
      rw
        (
          held.0,
          held.1,
          type_of_text-type_text p.piece_type,
          color_of_text-color_text p.color,
          square.there,
        )
        rest

  put-round :
      (board : Board) (count i : ℕ) (pieces : Board) (j : ℕ)
      → (if leb (i + 1) j && ltb j (i + 1 + count)
          then relocated j (board j)
          else put pieces i (relocated i (board i)) j)
        ≡ (if leb i j && ltb j (i + suc count) then relocated j (board j) else pieces j)
  put-round board count i pieces j = elim (Bool-cases (j == i)) [
    | inl same ↦
        let eq : j ≡ i = ==→eq j i same in
        let before : leb (i + 1) j ≡ false = ground (arith, eq) in
        let from : leb i j ≡ true = ground (arith, eq) in
        let to : ltb j (i + suc count) ≡ true = ground (arith, eq) in
        rw (same, before, from, to) (ap (λ k. relocated k (board k)) (sym eq))
    | inr other ↦
        let from : leb (i + 1) j ≡ leb i j = ground (arith, other) in
        let to : i + 1 + count ≡ i + suc count = omega arith in rw (other, from, to) refl
  ]

  put_squares-at :
      (board : Board) (count i : ℕ) (pieces : Board) (j : ℕ)
      → put_squares board count i pieces j
        ≡ (if leb i j && ltb j (i + count) then relocated j (board j) else pieces j)
  put_squares-at board zero i pieces j = ground arith
  put_squares-at board (suc count) i pieces j =
      put_squares-at board count (i + 1) (put pieces i (relocated i (board i))) j
      ∙ put-round board count i pieces j

  -- Where all squares are put on no board
  put_squares-all :
      (board : Board)
      → IsComplete board
      → put_squares board 64 0 no_squares ≡ (λ j. relocated j (board j))
  put_squares-all board complete =
      fun_ext
        (λ j. put_squares-at board 64 0 no_squares j ∙ by_square j (board j) (complete.keys j))
    where
      by_square :
          (j : ℕ) (v : Option Piece)
          → is_some v ≡ ltb j 64
          → (if leb 0 j && ltb j 64 then relocated j v else none) ≡ relocated j v
      by_square j none missing = rw (sym missing) (ground arith)
      by_square j (some p) there = rw (sym there) (ground arith)

  -- The node that the end of `saveGame` leaves
  abbrev close : Node → ℤ → ℤ → ℤ → Text → Node
  close node players color moves date =
      update
        (update
          (update (update node players_key (text (string_of_int players))) moves_key
            (text (string_of_int moves)))
          date_key (text date))
        turn_key (number color)

  -- A key of a square is none of those that the end of `saveGame` writes.
  closed_square :
      (node : Node) (players color moves : ℤ) (date : Text) (j : ℕ) (s : Text)
      → j < 64
      → value (close node players color moves date) (square_key j ++ s)
        ≡ value node (square_key j ++ s)
  closed_square node players color moves date j s h =
      apart turn_key (omega arith)
      ∙ apart date_key (omega arith)
      ∙ apart moves_key (omega arith)
      ∙ apart players_key (omega arith)
    where
      apart :
          {node : Node} {v : Value} (t : Text)
          → 58 ≤ get_or t 0 0
          → value (update node t v) (square_key j ++ s) ≡ value node (square_key j ++ s)
      apart t letter = db.value_other _ _ _ _ (λ same. not_a_square j s t h letter (sym same))

  first_letter : (s t : Text) → (get_or s 0 0 == get_or t 0 0) ≡ false → s ≢ t
  first_letter s t other same =
      let letters = ap (λ t. get_or t 0 0) same in ground (arith, other, letters)

  players_there :
      (node : Node) (players color moves : ℤ) (date : Text)
      → value (close node players color moves date) players_key
        ≡ some (text (string_of_int players))
  players_there node players color moves date =
      db.value_other _ _ _ _ (first_letter turn_key players_key refl)
      ∙ db.value_other _ _ _ _ (first_letter date_key players_key refl)
      ∙ db.value_other _ _ _ _ (first_letter moves_key players_key refl)
      ∙ db.value_same _ _ _

  -- The pieces of a board behind `saveGame`
  record SavedGame (players color moves : ℤ) (board : Board) (date : Text) : Type 0 where
    node : Node
    saves : save_game db players color moves board date ≡ ok (close node players color moves date)
    reads : Read board 0 (close node players color moves date)

  save_game_saves :
      (players color moves : ℤ) (board : Board) (date : Text)
      → IsComplete board
      → SavedGame players color moves board date
  unfolding save_game
  save_game_saves players color moves board date complete =
      let s = save_squares_saves db board 64 0 new_node complete refl in
      record {
        node = s.result;
        saves = rw s.runs refl;
        reads = λ j p le h there.
            let held = s.saved.holds j p le h there in
            (
              closed_square s.result players color moves date j piece_type_key h ∙ held.0,
              closed_square s.result players color moves date j color_key h ∙ held.1,
            );
      }

  -- `loadGame` reads back the squares of every board of 64 squares that `saveGame` has written, with
  -- any players, color, number of moves and date: the kinds and the colors are those that were saved,
  -- and the number of each piece is that of its square.
  pub load_squares-save_game :
      (players color moves : ℤ) (board : Board) (date : Text)
      → IsComplete board
      → (save_game db players color moves board date >>= λ node.
          load_squares db node 64 0 no_squares)
        ≡ ok (λ j. relocated j (board j))
  load_squares-save_game players color moves board date complete =
      let s = save_game_saves players color moves board date complete in
      rw s.saves (
        load_squares_reads board (close s.node players color moves date) 64 0 no_squares complete
          refl s.reads
        ∙ ap ok (put_squares-all board complete))

  -- `loadGame` crashes on every game that `saveGame` writes of a board of 64 squares: the color is
  -- written as a number, and read as a text by a forced cast.
  pub load_game-save_game_crash :
      (players color moves : ℤ) (board : Board) (date : Text)
      → IsComplete board
      → (save_game db players color moves board date >>= λ node. load_game db node) ≡ err crash
  unfolding load_game
  load_game-save_game_crash players color moves board date complete =
      let s = save_game_saves players color moves board date complete in
      let node = close s.node players color moves date in
      let squares = load_squares_reads board node 64 0 no_squares complete refl s.reads in
      let color_there : value node turn_key ≡ some (number color) =
        db.value_same _ turn_key (number color) in
      rw (s.saves, squares, players_there s.node players color moves date, color_there) refl

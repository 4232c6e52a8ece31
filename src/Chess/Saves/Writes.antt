-- ===== src/Chess/Saves/Writes.antt =====
-- The loop of `saveGame`: what it leaves on the node.
use ivr_repo.Base.{==→eq, ◌==◌, ◌∙◌, sym, ap, ◌≤◌, ◌≢◌, inr, inl, Bool-cases, refl, ◌+◌, some}
use ivr_repo.Base.{arith, ◌≡◌, ◌++◌, ◌<◌, ℕ, zero, suc}
use ivr_repo.Chess.Board.Complete.{placed, IsComplete}
use ivr_repo.Chess.Piece.{ok, Piece}
use ivr_repo.Chess.Saves.{save_squares, text, color_key, Board, piece_type_key, Database}
use ivr_repo.Chess.Saves.{type_text, color_text, square_key, Text}
use ivr_repo.Chess.Saves.Keys.{other_square, other_kind}
use mathlib.Core.Option.{some-injective}
use mathlib.Core.Path.{subst}

module _ (db : Database) where
  open db use {Node, new_node, update, value}

  -- The children that a piece at a square is saved in
  abbrev pub Holds : Node → ℕ → Piece → Type 0
  Holds node i p =
      (value node (square_key i ++ piece_type_key) ≡ some (text (type_text p.piece_type)))
      × (value node (square_key i ++ color_key) ≡ some (text (color_text p.color)))

  -- What one round of `saveGame` writes
  abbrev pub write : Node → ℕ → Piece → Node
  write node i p =
      update (update node (square_key i ++ piece_type_key) (text (type_text p.piece_type)))
        (square_key i ++ color_key) (text (color_text p.color))

  pub write-Holds : (node : Node) (i : ℕ) (p : Piece) → i < 64 → Holds (write node i p) i p
  write-Holds node i p h = (
    db.value_other _ _ _ _ (λ same. other_kind i h (sym same)) ∙ db.value_same _ _ _,
    db.value_same _ _ _,
  )

  -- A key that no square from `i` on has
  abbrev pub Foreign : ℕ → Text → Type 0
  Foreign i t = (j : ℕ) (s : Text) → i ≤ j → j < 64 → (square_key j ++ s) ≢ t

  pub write-Foreign :
      (node : Node) (i : ℕ) (p : Piece) (t : Text)
      → i < 64
      → Foreign i t
      → value (write node i p) t ≡ value node t
  write-Foreign node i p t h foreign =
      db.value_other _ _ _ _ (foreign i color_key (omega arith) h)
      ∙ db.value_other _ _ _ _ (foreign i piece_type_key (omega arith) h)

  pub Foreign-later : (i : ℕ) (s : Text) → i < 64 → Foreign (suc i) (square_key i ++ s)
  Foreign-later i s h j t le hj = other_square j i t s hj h (omega arith)

  -- The node behind the loop of `saveGame` from the square `i` on
  pub record Saved (board : Board) (i : ℕ) (node node' : Node) : Type 0 where
    pub holds : (j : ℕ) (p : Piece) → i ≤ j → j < 64 → board j ≡ some p → Holds node' j p
    pub keeps : (t : Text) → Foreign i t → value node' t ≡ value node t

  pub round :
      (board : Board) (count i : ℕ) (node : Node) (p : Piece)
      → board i ≡ some p
      → save_squares db board (suc count) i node
        ≡ save_squares db board count (i + 1) (write node i p)
  unfolding save_squares
  round board count i node p there = rw there refl

  pub Saved-here :
      (board : Board) (i : ℕ) (node node' : Node) (p : Piece)
      → i < 64
      → board i ≡ some p
      → Saved board (i + 1) (write node i p) node'
      → Saved board i node node'
  Saved-here board i node node' p h there rest = record {
    holds = at_square;
    keeps = λ t foreign.
        rest.keeps t (λ j s le. foreign j s (omega (arith, le)))
        ∙ write-Foreign node i p t h foreign;
  }
    where
      here : Holds node' i p
      here =
          let piece = write-Holds node i p h in
          (
            rest.keeps _ (λ j s le hj. other_square j i s piece_type_key hj h (omega (arith, le)))
                ∙ piece.0,
            rest.keeps _ (λ j s le hj. other_square j i s color_key hj h (omega (arith, le)))
                ∙ piece.1,
          )

      at_square : (j : ℕ) (q : Piece) → i ≤ j → j < 64 → board j ≡ some q → Holds node' j q
      at_square j q le hj there' = elim (Bool-cases (i == j)) [
        | inl same ↦
            let eq = ==→eq i j same in
            let piece = some-injective _ _ (sym there ∙ ap board eq ∙ there') in
            subst (λ k. Holds node' k q) eq (subst (Holds node' i) piece here)
        | inr other ↦ rest.holds j q (ground (arith, le, other)) hj there'
      ]

  pub record SavedNode (board : Board) (count i : ℕ) (node : Node) : Type 0 where
    pub result : Node
    pub runs : save_squares db board count i node ≡ ok result
    pub saved : Saved board i node result

  pub save_squares_saves :
      (board : Board) (count i : ℕ) (node : Node)
      → IsComplete board
      → i + count ≡ 64
      → SavedNode board count i node
  unfolding save_squares
  save_squares_saves board zero i node complete total = record {
    result = node;
    runs = refl;
    saved = record { holds = λ j p le h there. elim (past j le h) [ ]; keeps = λ t foreign. refl };
  }
    where
      past : (j : ℕ) → i ≤ j → j < 64 → ⊥
      past j le h = omega (arith, le, h, total)
  save_squares_saves board (suc count) i node complete total =
      let h : i < 64 = omega (arith, total) in
      let square = placed board i complete h in
      let rest =
        save_squares_saves board count (i + 1) (write node i square.piece) complete
          (omega (arith, total)) in
      record {
        result = rest.result;
        runs = round board count i node square.piece square.there ∙ rest.runs;
        saved = Saved-here board i node rest.result square.piece h square.there rest.saved;
      }

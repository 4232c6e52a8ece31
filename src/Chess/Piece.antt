-- ===== src/Chess/Piece.antt =====
-- MyIVR/ChessFigure: the pieces (Piece.swift, PieceType.swift) and the outcome of a method.
use ivr_repo.Base.{none, false, true, some, ℕ, Option, Bool}

pub data PieceType : Type 0 where
  rook king knight queen bishop pawn empty : PieceType

pub data Color : Type 0 where
  white black : Color

-- A piece is not changed once it is made.
pub record Piece : Type 0 where
  pub piece_type : PieceType
  pub position : ℕ
  pub color : Color

abbrev pub is_empty : PieceType → Bool
is_empty empty = true
is_empty _ = false

abbrev pub same_color : Color → Color → Bool
same_color white white = true
same_color black black = true
same_color _ _ = false

-- `crash` is a forced unwrap of nil; `stuck` is a loop of the model that ran out of fuel.
pub data Fault : Type 0 where
  crash stuck : Fault

pub data Result (A : Type 0) : Type 0 where
  ok : A → Result A
  err : Fault → Result A

infixl 5 ◌>>=◌
abbrev pub ◌>>=◌ : {A B : Type 0} → Result A → (A → Result B) → Result B
ok a >>= f = f a
err e >>= f = err e

-- `!`
abbrev pub unwrap : {A : Type 0} → Option A → Result A
unwrap (some a) = ok a
unwrap none = err crash

-- ===== src/Chess/Saves/Keys.antt =====
-- The keys that `saveGame` and `loadGame` give a square, and the texts of kinds and colors.
use ivr_repo.Base.{◌∙◌, sym, ap, ◌≤◌, ◌≢◌, inr, inl, Bool-cases, true, false, ltb, ◌%◌, ◌/◌, refl}
use ivr_repo.Base.{◌+◌, ◌*◌, some, arith, ◌≡◌, ◌-◌, ◌++◌, ◌<◌, get_or, ℕ, [], ◌∷◌, zero, suc}
use ivr_repo.Chess.Piece.{PieceType, Color, rook, pawn, king, queen, bishop, knight, empty, white}
use ivr_repo.Chess.Piece.{black}
use ivr_repo.Chess.Saves.{color_key, piece_type_key, type_text, color_text, string_of}
use ivr_repo.Chess.Saves.{type_of_text, square_key, color_of_text, Text}
use mathlib.Core.Path.{ap₂}

-- The two digits of a square
pub square_key_digits : (i : ℕ) → i < 64 → square_key i ≡ (48 + i / 10) ∷ (48 + i % 10) ∷ []
unfolding square_key string_of
square_key_digits i h = elim (Bool-cases (ltb i 10)) [
  | inl small ↦
      let tens : 48 ≡ 48 + i / 10 = ground (arith, small) in
      let ones : 48 + i ≡ 48 + i % 10 = ground (arith, small) in
      rw small (ap₂ (λ x y. x ∷ y ∷ []) tens ones)
  | inr large ↦ by_fuel i h large
]
  where
    by_fuel :
        (i : ℕ) → i < 64 → ltb i 10 ≡ false → square_key i ≡ (48 + i / 10) ∷ (48 + i % 10) ∷ []
    by_fuel zero h large = ground (arith, large)
    by_fuel (suc n) h large =
        let first : ltb (suc n / 10) 10 ≡ true = ground arith in rw (large, first) refl

pub type_of_text-type_text : (t : PieceType) → type_of_text (type_text t) ≡ some t
unfolding type_of_text
type_of_text-type_text rook = refl
type_of_text-type_text king = refl
type_of_text-type_text knight = refl
type_of_text-type_text queen = refl
type_of_text-type_text bishop = refl
type_of_text-type_text pawn = refl
type_of_text-type_text empty = refl

pub color_of_text-color_text : (c : Color) → color_of_text (color_text c) ≡ some c
unfolding color_of_text
color_of_text-color_text white = refl
color_of_text-color_text black = refl

-- The number that stands in the first two characters
pub number_of : Text → ℕ
number_of t = (get_or t 0 0 - 48) * 10 + (get_or t 1 0 - 48)

pub number_of-square_key : (i : ℕ) (t : Text) → i < 64 → number_of (square_key i ++ t) ≡ i
unfolding number_of
number_of-square_key i t h = rw (square_key_digits i h) (omega arith)

pub key-length :
    (i : ℕ) (t : Text) (n : ℕ) → i < 64 → get_or (square_key i ++ t) (suc (suc n)) 0 ≡ get_or t n 0
key-length i t n h = rw (square_key_digits i h) refl

pub key-first : (i : ℕ) (t : Text) → i < 64 → get_or (square_key i ++ t) 0 0 < 58
key-first i t h = rw (square_key_digits i h) (omega arith)

pub other_square :
    (i j : ℕ) (s t : Text) → i < 64 → j < 64 → i ≢ j → (square_key i ++ s) ≢ (square_key j ++ t)
other_square i j s t hi hj ne same =
    ne (sym (number_of-square_key i s hi) ∙ ap number_of same ∙ number_of-square_key j t hj)

pub other_kind : (i : ℕ) → i < 64 → (square_key i ++ piece_type_key) ≢ (square_key i ++ color_key)
other_kind i h same =
    let chars =
      sym (key-length i piece_type_key 0 h)
      ∙ ap (λ t. get_or t 2 0) same
      ∙ key-length i color_key 0 h in
    omega (arith, chars)

pub not_a_square : (i : ℕ) (s t : Text) → i < 64 → 58 ≤ get_or t 0 0 → (square_key i ++ s) ≢ t
not_a_square i s t h letter same =
    omega (arith, key-first i s h, letter, ap (λ t. get_or t 0 0) same)

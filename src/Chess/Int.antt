-- ===== src/Chess/Int.antt =====
-- Coordinates that may leave the board and the numbers of a saved game, as integers over the native
-- numbers.
use ivr_repo.Base.{◌-◌, ◌≡◌, ◌==◌, suc, leb, ◌+◌, ◌*◌, ℕ, true, false, arith, Bool, if◌then◌else◌}

-- `negsuc n` is -(n + 1).
pub data ℤ : Type 0 where
  pos : ℕ → ℤ
  negsuc : ℕ → ℤ

abbrev pub pos_part : ℤ → ℕ
pos_part (pos n) = n
pos_part (negsuc n) = 0

abbrev pub neg_part : ℤ → ℕ
neg_part (pos n) = 0
neg_part (negsuc n) = suc n

abbrev pub difference : ℕ → ℕ → ℤ
difference a b = if leb b a then pos (a - b) else negsuc (b - a - 1)

-- The coordinate one step up (`true`) or down
unfoldable pub next : Bool → ℤ → ℤ
next true z = difference (pos_part z + 1) (neg_part z)
next false z = difference (pos_part z) (neg_part z + 1)

-- `row * 8 + col`
unfoldable pub square : ℤ → ℤ → ℤ
square row col = difference (pos_part row * 8 + pos_part col) (neg_part row * 8 + neg_part col)

abbrev pub is_number : ℤ → ℕ → Bool
is_number z n = pos_part z == n + neg_part z

pub next-true :
    (z : ℤ) → pos_part (next true z) + neg_part z ≡ pos_part z + 1 + neg_part (next true z)
unfolding next
next-true z = ground arith

pub next-false :
    (z : ℤ) → pos_part (next false z) + neg_part z + 1 ≡ pos_part z + neg_part (next false z)
unfolding next
next-false z = ground arith

pub square-parts :
    (r c : ℤ)
    → pos_part (square r c) + neg_part r * 8 + neg_part c
      ≡ neg_part (square r c) + pos_part r * 8 + pos_part c
unfolding square
square-parts r c = ground arith

pub ruleset int_laws = (arith, next-true, next-false, square-parts)

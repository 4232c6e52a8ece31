-- ===== src/Chess/Moves/Diagonal.antt =====
-- The loop of `CanGoTo` along a diagonal.
use ivr_repo.Base.{every-ext, zero, sym, every, ap, ◌∙◌, refl, ◌&&◌, inr, none, inl, suc}
use ivr_repo.Base.{Bool-cases, ◌⊎◌, ◌==◌, some, arith, ◌-◌, ◌*◌, true, false, ◌≤◌, ◌≡◌, ◌<◌, ◌+◌}
use ivr_repo.Base.{ltb, ℕ, Option, Bool}
use ivr_repo.Chess.Board.Complete.{is_some}
use ivr_repo.Chess.Int.{ℤ, is_number, pos, square, next}
use ivr_repo.Chess.Moves.{at_square, ◌>>=◌, unwrap, Result, ok, diagonal_loop, Board, is_empty}
use ivr_repo.Chess.Moves.{distance, Piece, Move}
use mathlib.Core.Path.{ap₂}

-- The coordinate `d` steps from `a`
abbrev pub along : Bool → ℕ → ℕ → ℕ
along true a d = a + d
along false a d = a - d

-- The square `d` steps from the start of a move, towards its end
abbrev pub diagonal_square : Move → ℕ → ℕ
diagonal_square m d = along (ltb m.row m.row1) m.row d * 8 + along (ltb m.col m.col1) m.col d

abbrev pub is_clear : Option Piece → Bool
is_clear none = false
is_clear (some p) = is_empty p.piece_type

next-along :
    (up : Bool) (a d : ℕ)
    → (up ≡ true) ⊎ (d < a)
    → next up (pos (along up a d)) ≡ pos (along up a (suc d))
unfolding next
next-along true a d h = ground arith
next-along false a d (inl h) = ground arith
next-along false a d (inr h) = ground arith

pub square-pos : (r c : ℕ) → square (pos r) (pos c) ≡ pos (r * 8 + c)
unfolding square
square-pos r c = ground arith

-- Where the steps from `a` to `b` lead
along-end : (a b : ℕ) → along (ltb a b) a (distance a b) ≡ b
along-end a b = ground arith

along_zero : (up : Bool) (a : ℕ) → along up a 0 ≡ a
along_zero true a = omega arith
along_zero false a = omega arith

along-inside : (a b d : ℕ) → d < distance a b → (ltb a b ≡ true) ⊎ (d < a)
along-inside a b d h = elim (Bool-cases (ltb a b)) [
  | inl up ↦ inl up
  | inr down ↦ inr (ground (arith, down))
]

along_eq : (a b d : ℕ) → d ≤ distance a b → (along (ltb a b) a d == b + 0) ≡ (d == distance a b)
along_eq a b d h = ground arith

and_same : (b : Bool) → (b && b) ≡ b
and_same true = refl
and_same false = refl

-- The test of the loop, `d` steps from the start
at_end :
    (m : Move) (d : ℕ)
    → distance m.row m.row1 ≡ distance m.col m.col1
    → d ≤ distance m.row m.row1
    → (is_number (pos (along (ltb m.row m.row1) m.row d)) m.row1
        && is_number (pos (along (ltb m.col m.col1) m.col d)) m.col1)
      ≡ (d == distance m.row m.row1)
at_end m d diagonal h =
    ap₂ (λ x y. x && y) (along_eq m.row m.row1 d h)
      (along_eq m.col m.col1 d (omega arith) ∙ ap (λ n. d == n) (sym diagonal))
    ∙ and_same (d == distance m.row m.row1)

-- A round behind which the rest of the loop gives `x`
step :
    (v : Option Piece) {k : Result Bool} {x : Bool}
    → is_some v ≡ true
    → k ≡ ok x
    → (unwrap v >>= λ p. elim (is_empty p.piece_type) as (λ _. Result Bool) [
      | true ↦ k
      | false ↦ ok false
    ])
      ≡ ok (is_clear v && x)
step none there rest = ground arith
step (some p) {k} {x} there rest = by_test (is_empty p.piece_type)
  where
    by_test :
        (b : Bool) → elim b as (λ _. Result Bool) [ true ↦ k | false ↦ ok false ] ≡ ok (b && x)
    by_test true = rest
    by_test false = refl

step_at :
    (board : Board) (z : ℤ) (n : ℕ) {k : Result Bool} {x : Bool}
    → z ≡ pos n
    → is_some (board n) ≡ true
    → k ≡ ok x
    → (at_square board z >>= λ p. elim (is_empty p.piece_type) as (λ _. Result Bool) [
      | true ↦ k
      | false ↦ ok false
    ])
      ≡ ok (is_clear (board n) && x)
step_at board z n same there rest = rw same (step (board n) there rest)

module _ (board : Board) (m : Move) (diagonal : distance m.row m.row1 ≡ distance m.col m.col1)
    (there : (d : ℕ)
      → d ≤ distance m.row m.row1
      → is_some (board (diagonal_square m d)) ≡ true) where
  -- From `d` steps on, `left` of them to go
  pub diagonal_loop-every :
      (fuel left d : ℕ)
      → d + left ≡ distance m.row m.row1
      → left < fuel
      → diagonal_loop board m
          (ltb m.row m.row1)
          (ltb m.col m.col1)
          fuel
          (pos (along (ltb m.row m.row1) m.row d))
          (pos (along (ltb m.col m.col1) m.col d))
        ≡ ok (every left (λ k. is_clear (board (diagonal_square m (suc (d + k))))))
  unfolding diagonal_loop
  diagonal_loop-every zero left d h room = absurd (omega arith)
  diagonal_loop-every (suc fuel) zero d h room =
      let end : (d == distance m.row m.row1) ≡ true = ground arith in
      rw (at_end m d diagonal (omega arith), end, diagonal_loop) refl
  diagonal_loop-every (suc fuel) (suc left) d h room =
      let more : (d == distance m.row m.row1) ≡ false = ground arith in
      let clear = λ (j : ℕ). is_clear (board (diagonal_square m (suc j))) in
      let here : d ≡ d + 0 = omega arith in
      let later : (k : ℕ) → suc d + k ≡ d + suc k = λ k. omega arith in
      let shift =
        ap₂ (λ x y. ok (x && y)) (ap clear here)
          (every-ext left (λ k. clear (suc d + k)) (λ k. clear (d + suc k))
            (λ k. ap clear (later k))) in
      let rest = diagonal_loop-every fuel left (suc d) (omega arith) (omega arith) in
      let up = next-along (ltb m.row m.row1) m.row d (along-inside m.row m.row1 d (omega arith)) in
      let right =
        next-along (ltb m.col m.col1) m.col d (along-inside m.col m.col1 d (omega arith)) in
      let sq =
        ap₂ square up right
        ∙ square-pos (along (ltb m.row m.row1) m.row (suc d))
            (along (ltb m.col m.col1) m.col (suc d)) in
      let rest' =
        ap₂ (diagonal_loop board m (ltb m.row m.row1) (ltb m.col m.col1) fuel) up right ∙ rest in
      rw (diagonal_loop, at_end m d diagonal (omega arith), more)
        (step_at board _ (diagonal_square m (suc d)) sq (there (suc d) (omega arith)) rest' ∙ shift)

  pub diagonal_loop_start :
      (fuel : ℕ)
      → distance m.row m.row1 < fuel
      → diagonal_loop board m (ltb m.row m.row1) (ltb m.col m.col1) fuel (pos m.row) (pos m.col)
        ≡ ok (every (distance m.row m.row1) (λ k. is_clear (board (diagonal_square m (suc k)))))
  diagonal_loop_start fuel room =
      let n = distance m.row m.row1 in
      let clear = λ (j : ℕ). is_clear (board (diagonal_square m (suc j))) in
      let front : (k : ℕ) → 0 + k ≡ k = λ k. omega arith in
      ap₂ (λ r c. diagonal_loop board m (ltb m.row m.row1) (ltb m.col m.col1) fuel (pos r) (pos c))
        (sym (along_zero (ltb m.row m.row1) m.row)) (sym (along_zero (ltb m.col m.col1) m.col))
      ∙ diagonal_loop-every fuel n 0 (omega arith) room
      ∙ ap ok (every-ext n (λ k. clear (0 + k)) clear (λ k. ap clear (front k)))

-- ===== src/Chess/Moves/Stuck.antt =====
-- Results that no loop without fuel is behind
use ivr_repo.Base.{none, some, refl, true, false, ◌≡◌, ℕ, Option, Bool, if◌then◌else◌}
use ivr_repo.Chess.Board.{Board}
use ivr_repo.Chess.Moves.{ok, and_then, clear_if, printing, unwrap, err}
use ivr_repo.Chess.Piece.{◌>>=◌, Result, crash, stuck}

abbrev pub is_stuck : {A : Type 0} → Result A → Bool
is_stuck (err stuck) = true
is_stuck (err crash) = false
is_stuck (ok a) = false

pub bind-is_stuck :
    {A B : Type 0} (r : Result A) (f : A → Result B)
    → is_stuck r ≡ false
    → ((a : A) → is_stuck (f a) ≡ false)
    → is_stuck (r >>= f) ≡ false
bind-is_stuck (ok a) f h k = k a
bind-is_stuck (err crash) f h k = refl
bind-is_stuck (err stuck) f h k = h

pub unwrap-is_stuck : {A : Type 0} (v : Option A) → is_stuck (unwrap v) ≡ false
unwrap-is_stuck none = refl
unwrap-is_stuck (some a) = refl

pub clear_if-is_stuck : (board : Board) (b : Bool) (i : ℕ) → is_stuck (clear_if board b i) ≡ false
clear_if-is_stuck board false i = refl
clear_if-is_stuck board true i =
    bind-is_stuck (unwrap (board i)) _ (unwrap-is_stuck (board i)) (λ p. refl)

pub printing-is_stuck :
    (board : Board) (i : ℕ) (r : Result Bool)
    → is_stuck r ≡ false
    → is_stuck (printing board i r) ≡ false
printing-is_stuck board i (ok true) h = refl
printing-is_stuck board i (ok false) h =
    bind-is_stuck (unwrap (board i)) _ (unwrap-is_stuck (board i)) (λ p. refl)
printing-is_stuck board i (err e) h = h

pub and_then-is_stuck :
    (r k : Result Bool) → is_stuck r ≡ false → is_stuck k ≡ false → is_stuck (and_then r k) ≡ false
and_then-is_stuck (ok true) k h h' = h'
and_then-is_stuck (ok false) k h h' = refl
and_then-is_stuck (err e) k h h' = h

pub if-is_stuck :
    {A : Type 0} (b : Bool) (r k : Result A)
    → is_stuck r ≡ false
    → is_stuck k ≡ false
    → is_stuck (if b then r else k) ≡ false
if-is_stuck true r k h h' = h
if-is_stuck false r k h h' = h'

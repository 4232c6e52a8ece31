-- ===== src/Chess/Game/Keeps.antt =====
-- What the steps of a round keep: a board of 64 squares and the winner.
use ivr_repo.Base.{zero, ap, ◌+◌, sym, ◌&&◌, refl, suc, ◌≡◌, false, true, ◌<◌, Bool, ℕ}
use ivr_repo.Base.{if◌then◌else◌}
use ivr_repo.Chess.Board.{go_to, Board, kill}
use ivr_repo.Chess.Board.Complete.{kill-IsComplete, go_to-IsComplete, IsComplete}
use ivr_repo.Chess.Game.{is_other_king, unwrap, check, look_for_kings, can_go_to, can_kill}
use ivr_repo.Chess.Game.{can_move, ◌>>=◌, ok, Result, make_move}
use ivr_repo.Chess.Moves.Kill.{can_kill-put_back, unchanged, board_of}
use ivr_repo.Chess.Piece.{err, ok}
use mathlib.Core.Path.{subst}

-- A property of the value of a result, if there is one
abbrev pub OnOk : {A : Type 0} → (A → Type 0) → Result A → Type 0
OnOk P (ok a) = P a
OnOk P (err e) = Unit {0}

pub bind-OnOk :
    {A B : Type 0} (P : A → Type 0) (Q : B → Type 0) (r : Result A) (f : A → Result B)
    → OnOk P r
    → ((a : A) → P a → OnOk Q (f a))
    → OnOk Q (r >>= f)
bind-OnOk P Q (ok a) f h k = k a h
bind-OnOk P Q (err e) f h k = tt

pub trivial : {A : Type 0} (r : Result A) → OnOk (λ _. Unit {0}) r
trivial (ok a) = tt
trivial (err e) = tt

-- `canKill` leaves a board of 64 squares.
pub can_kill-OnOk :
    (board : Board) (p q : ℕ)
    → IsComplete board
    → OnOk (λ (r : Bool × Board). IsComplete r.1) (can_kill board p q)
can_kill-OnOk board p q complete = by_result (can_kill board p q) (can_kill-put_back board p q)
  where
    back : Result Board → Board
    back (ok b) = b
    back (err e) = board

    by_result :
        (r : Result (Bool × Board))
        → board_of r board ≡ unchanged r board
        → OnOk (λ (r : Bool × Board). IsComplete r.1) r
    by_result (ok r) same = subst IsComplete (sym (ap back same)) complete
    by_result (err e) same = tt

module _ (board : Board) (p q : ℕ) (complete : IsComplete board) where
  pub can_move-OnOk : OnOk (λ (r : Bool × Board). IsComplete r.1) (can_move board p q)
  unfolding can_move
  can_move-OnOk =
      bind-OnOk (λ _. Unit {0}) (λ (r : Bool × Board). IsComplete r.1) (can_go_to board p q) _
        (trivial (can_go_to board p q)) by_go
    where
      by_go :
          (go : Bool)
          → Unit {0}
          → OnOk
              (λ (r : Bool × Board). IsComplete r.1)
              (if go then ok (true, board) else can_kill board p q)
      by_go true h = complete
      by_go false h = can_kill-OnOk board p q complete

  pub make_move-OnOk : p < 64 → q < 64 → OnOk IsComplete (make_move board p q)
  unfolding make_move
  make_move-OnOk hp hq =
      bind-OnOk (λ _. Unit {0}) IsComplete (can_go_to board p q) _ (trivial (can_go_to board p q))
        by_go
    where
      by_kill : (r : Bool × Board) → IsComplete r.1 → IsComplete (if r.0 then kill r.1 p q else r.1)
      by_kill (true, b) h = kill-IsComplete b p q h hp hq
      by_kill (false, b) h = h

      by_go :
          (go : Bool)
          → Unit {0}
          → OnOk IsComplete (
              if go
              then ok (go_to board p q)
              else (can_kill board p q >>= λ r. ok (if r.0 then kill r.1 p q else r.1)))
      by_go true h = go_to-IsComplete board p q complete hp hq
      by_go false h =
          bind-OnOk (λ (r : Bool × Board). IsComplete r.1) IsComplete (can_kill board p q) _
            (can_kill-OnOk board p q complete) by_kill

-- `check` is always false, so the loop over the squares leaves `winner` as it is.
pub look_for_kings-OnOk :
    (board : Board) (q : ℕ) (winner : Bool) (count i : ℕ)
    → OnOk (λ w. w ≡ winner) (look_for_kings board q winner count i)
unfolding look_for_kings check
look_for_kings-OnOk board q winner zero i = refl
look_for_kings-OnOk board q winner (suc count) i =
    bind-OnOk (λ _. Unit {0}) (λ w. w ≡ winner) (unwrap (board i)) _ (trivial (unwrap (board i)))
      (λ p h.
        bind-OnOk (λ _. Unit {0}) (λ w. w ≡ winner) (is_other_king board q p) _
          (trivial (is_other_king board q p))
          (by_other (look_for_kings-OnOk board q winner count (i + 1))))
  where
    by_other :
        OnOk (λ w. w ≡ winner) (look_for_kings board q winner count (i + 1))
        → (other : Bool) → Unit {0}
        → OnOk
            (λ w. w ≡ winner)
            (look_for_kings board q (if other && false then false else winner) count (i + 1))
    by_other rest true h = rest
    by_other rest false h = rest

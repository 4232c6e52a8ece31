-- ===== src/Chess/Game/Progress.antt =====
-- The rounds of the game in which a move is made.
use ivr_repo.Base.{zero, ◌&&◌, not, ◌∙◌, ap, arith, ◌-◌, ◌∷◌, some, refl, suc, false, ◌⊎◌, ◌≤◌}
use ivr_repo.Base.{inr, ◌+◌, true, inl, List, ◌<◌, ◌≡◌, Bool, ℕ, if◌then◌else◌}
use ivr_repo.Chess.Board.{go_to, kill, Board}
use ivr_repo.Chess.Board.Complete.{placed, go_to-IsComplete, IsComplete}
use ivr_repo.Chess.Game.{is_king, same_color, ◌>>=◌, unwrap, Color, distance, tapped, color_of}
use ivr_repo.Chess.Game.{can_kill, Piece, not_own, ok, GameState, finish_turn, make_move}
use ivr_repo.Chess.Game.{choose_to, can_move, can_go_to, choose_from, check, turn, look_for_kings}
use ivr_repo.Chess.Game.Valid.{IsValid, Plays-IsValid, Plays}

-- On a board of 64 squares the loop over the squares does not crash, and leaves `winner` as it is.
pub look_for_kings-ok :
    (board : Board) (q : ℕ) (winner : Bool) (count i : ℕ)
    → IsComplete board
    → q < 64
    → i + count ≤ 64
    → look_for_kings board q winner count i ≡ ok winner
unfolding look_for_kings check
look_for_kings-ok board q winner zero i complete hq h = refl
look_for_kings-ok board q winner (suc count) i complete hq h =
    let here = placed board i complete (omega (arith, h)) in
    let there = placed board q complete hq in
    let rest = look_for_kings-ok board q winner count (i + 1) complete hq (omega (arith, h)) in
    rw here.there (by_kind here.piece (is_king here.piece.piece_type) there.piece there.there rest)
  where
    by_kind :
        (p : Piece) (king_here : Bool) (q' : Piece)
        → board q ≡ some q'
        → look_for_kings board q winner count (i + 1) ≡ ok winner
        → ((if king_here
              then (unwrap (board q) >>= λ q. ok (not (same_color p.color q.color)))
              else ok false)
            >>= λ other.
                look_for_kings board q (if other && false then false else winner) count (i + 1))
          ≡ ok winner
    by_kind p false q' there rest = rest
    by_kind p true q' there rest = rw there (by_color (not (same_color p.color q'.color)))
      where
        by_color :
            (other : Bool)
            → look_for_kings board q (if other && false then false else winner) count (i + 1)
              ≡ ok winner
        by_color true = rest
        by_color false = rest

-- What makes a move of the two functions
abbrev pub CanMove : Board → ℕ → ℕ → Type 0
CanMove board p q =
    (can_go_to board p q ≡ ok true)
    ⊎ ((can_go_to board p q ≡ ok false) × (can_kill board p q ≡ ok (true, board)))

module _ (board : Board) (p q : ℕ) where
  can_move-CanMove : CanMove board p q → can_move board p q ≡ ok (true, board)
  unfolding can_move
  can_move-CanMove (inl go) = rw go refl
  can_move-CanMove (inr (no_go, takes)) = rw no_go takes

  make_move-CanMove : CanMove board p q → make_move board p q ≡ ok (go_to board p q)
  unfolding make_move kill go_to
  make_move-CanMove (inl go) = rw go refl
  make_move-CanMove (inr (no_go, takes)) = rw (no_go, takes) refl

choose_from-own :
    (board : Board) (color : Color) (p : ℕ) (taps : List ℕ)
    → not_own (board p) color ≡ false
    → choose_from board color (p ∷ taps) ≡ some (p, taps)
unfolding choose_from
choose_from-own board color p taps own =
    let square : tapped p ≡ p = omega arith in
    let own_there : not_own (board (tapped p)) color ≡ false =
      ap (λ i. not_own (board i) color) square ∙ own in
    rw (choose_from, own_there) (ap (λ i. some (i, taps)) square)

choose_to-CanMove :
    (board : Board) (p q : ℕ) (taps : List ℕ)
    → CanMove board p q
    → choose_to board p (q ∷ taps) ≡ ok (some (q, board, taps))
unfolding choose_to
choose_to-CanMove board p q taps can =
    let square : tapped q ≡ q = omega arith in
    let move = ap (can_move board p) square ∙ can_move-CanMove board p q can in
    rw (choose_to, move) (ap (λ i. ok (some (i, board, taps))) square)

-- The state behind a move
abbrev pub moved : GameState → ℕ → ℕ → GameState
moved game p q = record {
  board = go_to game.board p q;
  winner = true;
  color = 1 - game.color;
  moves = game.moves + 1;
}

pub finish_turn-CanMove :
    (game : GameState) (p q : ℕ) (taps : List ℕ)
    → IsValid game
    → p < 64
    → q < 64
    → CanMove game.board p q
    → finish_turn game p (q, game.board, taps) ≡ ok (moved game p q, taps)
unfolding finish_turn
finish_turn-CanMove game p q taps valid hp hq can =
    let looked =
      look_for_kings-ok (go_to game.board p q) q game.winner 64 0
        (go_to-IsComplete game.board p q valid.complete hp hq) hq (omega arith) in
    let color : distance game.color 1 ≡ 1 - game.color = ground (arith, valid.color) in
    rw (make_move-CanMove game.board p q can, looked, valid.winner, color) refl

-- In every state that a game reaches: for a tap on a piece of the color whose turn it is, and one on a
-- square where `CanGoTo` lets it go or `canKill` lets it take a piece, a round makes the move. The other
-- color is next then, and the taps behind are left.
pub turn-CanMove :
    {game : GameState} (p q : ℕ) (taps : List ℕ)
    → Plays game
    → p < 64
    → q < 64
    → not_own (game.board p) (color_of game.color) ≡ false
    → CanMove game.board p q
    → turn game (p ∷ q ∷ taps) ≡ ok (some (moved game p q, taps))
unfolding turn
turn-CanMove {game} p q taps plays hp hq own can =
    rw
      (
        turn,
        choose_from-own game.board (color_of game.color) p (q ∷ taps) own,
        choose_to-CanMove game.board p q taps can,
        finish_turn-CanMove game p q taps (Plays-IsValid plays) hp hq can,
      )
      refl

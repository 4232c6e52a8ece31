-- ===== src/Chess/Game/Ends.antt =====
-- The loops of `CanGoTo` in a round of the game.
use ivr_repo.Base.{lt→ltb, sym, [], true, false, some, refl, arith, Option, Bool, ◌∷◌, ◌≡◌, ◌<◌}
use ivr_repo.Base.{All, List, ℕ, none}
use ivr_repo.Chess.Board.{new_piece, put, Board}
use ivr_repo.Chess.Board.Complete.{put-IsComplete, IsComplete}
use ivr_repo.Chess.Game.{same_color, unwrap, white, tapped, color_of, choose_from, ok, make_move}
use ivr_repo.Chess.Game.{can_move, Choice, GameState, turn, finish_turn, choose_to}
use ivr_repo.Chess.Game.Keeps.{can_move-OnOk, make_move-OnOk, OnOk}
use ivr_repo.Chess.Game.Progress.{look_for_kings-ok}
use ivr_repo.Chess.Game.Valid.{tapped-IsTap, choose_from-Chosen, choose_to-OnOk, Chosen, Settled}
use ivr_repo.Chess.Game.Valid.{Plays-IsValid, IsTap, Plays}
use ivr_repo.Chess.Moves.{can_go_to, can_kill}
use ivr_repo.Chess.Moves.Ends.{can_go_to-is_stuck}
use ivr_repo.Chess.Moves.Stuck.{unwrap-is_stuck, if-is_stuck, bind-is_stuck, is_stuck}
use ivr_repo.Chess.Piece.{empty, crash, stuck, white, err, ◌>>=◌, Result}

-- As `bind-is_stuck`, with what is known of the first value
bind-Known-is_stuck :
    {A B : Type 0} (P : A → Type 0) (r : Result A) (f : A → Result B)
    → OnOk P r
    → is_stuck r ≡ false
    → ((a : A) → P a → is_stuck (f a) ≡ false)
    → is_stuck (r >>= f) ≡ false
bind-Known-is_stuck P (ok a) f h ends k = k a h
bind-Known-is_stuck P (err crash) f h ends k = refl
bind-Known-is_stuck P (err stuck) f h ends k = ends

module _ (board : Board) (p q : ℕ) (complete : IsComplete board) (hq : q < 64) where
  can_kill-is_stuck : is_stuck (can_kill board p q) ≡ false
  unfolding can_kill
  can_kill-is_stuck = bind-is_stuck (unwrap (board q)) _ (unwrap-is_stuck (board q)) (λ a.
      bind-is_stuck (unwrap (board p)) _ (unwrap-is_stuck (board p)) (λ piece.
        if-is_stuck (same_color a.color piece.color) _ _ refl (
          bind-is_stuck (can_go_to taken p q) _ (can_go_to-is_stuck taken p q taken-IsComplete)
            (λ can. refl))))
    where
      taken : Board
      taken = put board q (some (new_piece empty q white))

      taken-IsComplete : IsComplete taken
      taken-IsComplete = put-IsComplete board q _ complete (sym (lt→ltb q 64 hq))

  can_move-is_stuck : is_stuck (can_move board p q) ≡ false
  unfolding can_move
  can_move-is_stuck =
      bind-is_stuck (can_go_to board p q) _ (can_go_to-is_stuck board p q complete)
        (λ go. if-is_stuck go _ _ refl can_kill-is_stuck)

  make_move-is_stuck : is_stuck (make_move board p q) ≡ false
  unfolding make_move
  make_move-is_stuck =
      bind-is_stuck (can_go_to board p q) _ (can_go_to-is_stuck board p q complete) (λ go.
        if-is_stuck go _ _ refl
          (bind-is_stuck (can_kill board p q) _ can_kill-is_stuck (λ r. refl)))

choose_to-is_stuck :
    (board : Board) (p : ℕ) (taps : List ℕ)
    → IsComplete board
    → All IsTap taps
    → is_stuck (choose_to board p taps) ≡ false
unfolding choose_to
choose_to-is_stuck board p [] complete h = refl
choose_to-is_stuck board p (number ∷ taps) complete (hn, h) =
    bind-Known-is_stuck (λ (r : Bool × Board). IsComplete r.1) (can_move board p (tapped number)) _
      (can_move-OnOk board p (tapped number) complete)
      (can_move-is_stuck board p (tapped number) complete (tapped-IsTap number hn))
      (by_answer (λ b hb. choose_to-is_stuck b p taps hb h))
  where
    by_answer :
        ((b : Board) → IsComplete b → is_stuck (choose_to b p taps) ≡ false)
        → (r : Bool × Board) → IsComplete r.1
        → is_stuck (elim r.0 as (λ _. Result (Option Choice)) [
          | true ↦ ok (some (tapped number, r.1, taps))
          | false ↦ choose_to r.1 p taps
        ])
          ≡ false
    by_answer rest (true, b) hb = refl
    by_answer rest (false, b) hb = rest b hb

finish_turn-is_stuck :
    (game : GameState) (p : ℕ) (c : Choice)
    → IsComplete c.1
    → p < 64
    → c.0 < 64
    → is_stuck (finish_turn game p c) ≡ false
unfolding finish_turn
finish_turn-is_stuck game p (q, board, taps) complete hp hq =
    bind-Known-is_stuck IsComplete (make_move board p q) _ (make_move-OnOk board p q complete hp hq)
      (make_move-is_stuck board p q complete hq)
      (λ board' complete'.
        let looked = look_for_kings-ok board' q game.winner 64 0 complete' hq (omega arith) in
        rw looked refl)

-- In every state that a game reaches, a round with taps on the board waits for a tap, makes a move or
-- crashes: the loops of `CanGoTo` in it come to their end.
pub turn-is_stuck :
    {game : GameState} (taps : List ℕ)
    → Plays game
    → All IsTap taps
    → is_stuck (turn game taps) ≡ false
unfolding turn
turn-is_stuck {game} taps plays h =
    by_from (choose_from game.board (color_of game.color) taps)
      (choose_from-Chosen game.board (color_of game.color) taps h)
  where
    complete : IsComplete game.board
    complete = (Plays-IsValid plays).complete

    by_to :
        (p : ℕ)
        → p < 64
        → (choice : Option Choice) → Settled choice
        → is_stuck (elim choice as (λ _. Result (Option (GameState × List ℕ))) [
          | none ↦ ok none
          | some c ↦ finish_turn game p c >>= λ r. ok (some r)
        ])
          ≡ false
    by_to p hp none h = refl
    by_to p hp (some (q, board, rest)) (hq, complete, hr) =
        bind-is_stuck (finish_turn game p (q, board, rest)) _
          (finish_turn-is_stuck game p (q, board, rest) complete hp hq) (λ r. refl)

    by_from :
        (v : Option (ℕ × List ℕ))
        → Chosen v
        → is_stuck (elim v as (λ _. Result (Option (GameState × List ℕ))) [
          | none ↦ ok none
          | some (p, rest) ↦ choose_to game.board p rest >>= λ choice.
              elim choice as (λ _. Result (Option (GameState × List ℕ))) [
                | none ↦ ok none
                | some c ↦ finish_turn game p c >>= λ r. ok (some r)
              ]
        ])
          ≡ false
    by_from none h = refl
    by_from (some (p, rest)) (hp, hr) =
        bind-Known-is_stuck Settled (choose_to game.board p rest) _
          (choose_to-OnOk game.board p rest complete hr)
          (choose_to-is_stuck game.board p rest complete hr) (by_to p hp)

-- ===== src/Chess/Game/Valid.antt =====
-- What every round of a game keeps.
use ivr_repo.Base.{[], ◌∷◌, inr, inl, none, Bool-cases, some, arith, Option, All, ◌∙◌, refl, ◌%◌}
use ivr_repo.Base.{List, ◌≡◌, false, true, ◌<◌, Bool, ℕ}
use ivr_repo.Chess.Board.{Board}
use ivr_repo.Chess.Board.Complete.{init_board_a-IsComplete, IsComplete}
use ivr_repo.Chess.Game.{not_own, color_of, Color, turn, tapped, choose_to, choose_from, Choice}
use ivr_repo.Chess.Game.{start_new_game, look_for_kings, finish_turn, GameState, can_move, ◌>>=◌}
use ivr_repo.Chess.Game.{ok, Result, make_move}
use ivr_repo.Chess.Game.Keeps.{look_for_kings-OnOk, make_move-OnOk, can_move-OnOk, bind-OnOk}
use ivr_repo.Chess.Game.Keeps.{OnOk}
use ivr_repo.Chess.Piece.{ok}
use mathlib.Core.Path.{subst}

-- A board of 64 squares, `winner` still true, and the color of the next move
pub record IsValid (game : GameState) : Type 0 where
  pub complete : IsComplete game.board
  pub winner : game.winner ≡ true
  pub color : game.color ≡ game.moves % 2

pub start_new_game-IsValid : IsValid start_new_game
unfolding start_new_game
start_new_game-IsValid = record { complete = init_board_a-IsComplete; winner = refl; color = refl }

finish_turn-OnOk :
    (game : GameState) (p : ℕ) (c : Choice)
    → IsValid game
    → IsComplete c.1
    → p < 64
    → c.0 < 64
    → OnOk (λ (r : GameState × List ℕ). IsValid r.0) (finish_turn game p c)
unfolding finish_turn
finish_turn-OnOk game p (q, board, taps) valid complete hp hq =
    bind-OnOk IsComplete (λ (r : GameState × List ℕ). IsValid r.0) (make_move board p q) _
      (make_move-OnOk board p q complete hp hq)
      (λ board' complete'.
        bind-OnOk (λ w. w ≡ game.winner) (λ (r : GameState × List ℕ). IsValid r.0)
          (look_for_kings board' q game.winner 64 0) _
          (look_for_kings-OnOk board' q game.winner 64 0)
          (λ w same. record {
            complete = complete';
            winner = same ∙ valid.winner;
            color = omega (arith, valid.color);
          }))

abbrev pub IsTap : ℕ → Type 0
IsTap number = number < 64

pub tapped-IsTap : (number : ℕ) → IsTap number → tapped number < 64
tapped-IsTap number h = omega (arith, h)

-- The first choice: a square of the board, and the taps that are left
abbrev pub Chosen : Option (ℕ × List ℕ) → Type 0
Chosen none = Unit {0}
Chosen (some (p, taps)) = (p < 64) × All IsTap taps

pub choose_from-Chosen :
    (board : Board) (color : Color) (taps : List ℕ)
    → All IsTap taps
    → Chosen (choose_from board color taps)
unfolding choose_from
choose_from-Chosen board color [] h = tt
choose_from-Chosen board color (number ∷ taps) (hn, h) =
    elim (Bool-cases (not_own (board (tapped number)) color)) [
      | inl skipped ↦ rw (skipped, choose_from) (choose_from-Chosen board color taps h)
      | inr own ↦ rw (own, choose_from) ((tapped-IsTap number hn, h))
    ]

-- The second choice: a square of the board, a board of 64 squares, and the taps that are left
abbrev pub Settled : Option Choice → Type 0
Settled none = Unit {0}
Settled (some (q, board, taps)) = (q < 64) × IsComplete board × All IsTap taps

pub choose_to-OnOk :
    (board : Board) (p : ℕ) (taps : List ℕ)
    → IsComplete board
    → All IsTap taps
    → OnOk Settled (choose_to board p taps)
unfolding choose_to
choose_to-OnOk board p [] complete h = tt
choose_to-OnOk board p (number ∷ taps) complete (hn, h) =
    bind-OnOk (λ (r : Bool × Board). IsComplete r.1) Settled (can_move board p (tapped number)) _
      (can_move-OnOk board p (tapped number) complete)
      (by_answer (λ b hb. choose_to-OnOk b p taps hb h))
  where
    by_answer :
        ((b : Board) → IsComplete b → OnOk Settled (choose_to b p taps))
        → (r : Bool × Board) → IsComplete r.1
        → OnOk Settled (elim r.0 as (λ _. Result (Option Choice)) [
          | true ↦ ok (some (tapped number, r.1, taps))
          | false ↦ choose_to r.1 p taps
        ])
    by_answer rest (true, b) hb = (tapped-IsTap number hn, hb, h)
    by_answer rest (false, b) hb = rest b hb

abbrev pub Next : Option (GameState × List ℕ) → Type 0
Next none = Unit {0}
Next (some (game, taps)) = IsValid game

turn-OnOk :
    (game : GameState) (taps : List ℕ) → IsValid game → All IsTap taps → OnOk Next (turn game taps)
unfolding turn
turn-OnOk game taps valid h =
    by_from (choose_from game.board (color_of game.color) taps)
      (choose_from-Chosen game.board (color_of game.color) taps h)
  where
    by_to :
        (p : ℕ)
        → p < 64
        → (choice : Option Choice) → Settled choice
        → OnOk Next (elim choice as (λ _. Result (Option (GameState × List ℕ))) [
          | none ↦ ok none
          | some c ↦ finish_turn game p c >>= λ r. ok (some r)
        ])
    by_to p hp none h = tt
    by_to p hp (some (q, board, rest)) (hq, complete, hr) =
        bind-OnOk (λ (r : GameState × List ℕ). IsValid r.0) Next
          (finish_turn game p (q, board, rest)) _
          (finish_turn-OnOk game p (q, board, rest) valid complete hp hq) (λ r hr. hr)

    by_from :
        (v : Option (ℕ × List ℕ))
        → Chosen v
        → OnOk Next (elim v as (λ _. Result (Option (GameState × List ℕ))) [
          | none ↦ ok none
          | some (p, rest) ↦ choose_to game.board p rest >>= λ choice.
              elim choice as (λ _. Result (Option (GameState × List ℕ))) [
                | none ↦ ok none
                | some c ↦ finish_turn game p c >>= λ r. ok (some r)
              ]
        ])
    by_from none h = tt
    by_from (some (p, rest)) (hp, hr) =
        bind-OnOk Settled Next (choose_to game.board p rest) _
          (choose_to-OnOk game.board p rest valid.complete hr) (by_to p hp)

-- The states that the loop reaches, with any taps on the board
pub data Plays : GameState → Type 0 where
  begin : Plays start_new_game
  next_turn :
      {game : GameState} (taps rest : List ℕ) (game' : GameState)
      → Plays game
      → All IsTap taps
      → turn game taps ≡ ok (some (game', rest))
      → Plays game'

-- Every state that a game of two players reaches, with any taps on the board, has a board of 64
-- squares, 0 or 1 as the color of the next move by the number of moves, and `winner` still true, the
-- condition of the loop of `startNewGame`.
pub Plays-IsValid : {game : GameState} → Plays game → IsValid game
Plays-IsValid begin = start_new_game-IsValid
Plays-IsValid (next_turn {game} taps rest game' before h played) =
    subst (OnOk Next) played (turn-OnOk game taps (Plays-IsValid before) h)

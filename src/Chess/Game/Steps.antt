-- ===== src/Chess/Game/Steps.antt =====
-- The rounds of the game as moves by the rules.
use ivr_repo.Base.{◌∙◌, ap, sym, refl, Bool-cases, ◌≡◌, ◌<◌, Bool, All, ℕ, Option, List, true}
use ivr_repo.Base.{false, [], ◌∷◌, some, inl, inr, if◌then◌else◌, none}
use ivr_repo.Chess.Game.{color_of, tapped, not_own, Result, Choice, Color, GameState, Board, turn}
use ivr_repo.Chess.Game.{choose_from, choose_to, can_move, finish_turn}
use ivr_repo.Chess.Game.Keeps.{bind-OnOk, OnOk}
use ivr_repo.Chess.Game.Progress.{moved, finish_turn-CanMove, CanMove}
use ivr_repo.Chess.Game.Valid.{tapped-IsTap, Plays-IsValid, Plays, IsValid, IsTap}
use ivr_repo.Chess.Moves.{can_go_to, can_kill}
use ivr_repo.Chess.Moves.Kill.{can_kill-put_back, unchanged, board_of}
use ivr_repo.Chess.Piece.{◌>>=◌, ok, err}
use mathlib.Core.Path.{ap₂, subst}

-- A move of a piece of the color whose turn it is, where `CanGoTo` or `canKill` lets it
pub record Step (game game' : GameState) : Type 0 where
  pub from : ℕ
  pub to : ℕ
  pub from_IsTap : IsTap from
  pub to_IsTap : IsTap to
  pub own : not_own (game.board from) (color_of game.color) ≡ false
  pub can : CanMove game.board from to
  pub next : game' ≡ moved game from to

-- The first choice: an own piece of the board, and the taps that are left
abbrev Own : Board → Color → Option (ℕ × List ℕ) → Type 0
Own board color none = Unit {0}
Own board color (some (p, taps)) = (p < 64) × (not_own (board p) color ≡ false) × All IsTap taps

choose_from-Own :
    (board : Board) (color : Color) (taps : List ℕ)
    → All IsTap taps
    → Own board color (choose_from board color taps)
unfolding choose_from
choose_from-Own board color [] h = tt
choose_from-Own board color (number ∷ taps) (hn, h) =
    elim (Bool-cases (not_own (board (tapped number)) color)) [
      | inl skipped ↦ rw (skipped, choose_from) (choose_from-Own board color taps h)
      | inr own ↦ rw (own, choose_from) ((tapped-IsTap number hn, own, h))
    ]

-- An answer of `CanGoTo || canKill`: the board is as it was, and yes means that the piece can move.
abbrev Answer : Board → ℕ → ℕ → Bool × Board → Type 0
Answer board p q r = (r.1 ≡ board) × (r.0 ≡ true → CanMove board p q)

module _ (board : Board) (p q : ℕ) where
  can_kill-Answer : can_go_to board p q ≡ ok false → OnOk (Answer board p q) (can_kill board p q)
  can_kill-Answer no_go = by_result (can_kill board p q) refl (can_kill-put_back board p q)
    where
      back : Result Board → Board
      back (ok b) = b
      back (err e) = board

      by_result :
          (r : Result (Bool × Board))
          → can_kill board p q ≡ r
          → board_of r board ≡ unchanged r board
          → OnOk (Answer board p q) r
      by_result (ok (b, board')) eq same =
          let kept = ap back same in
          (kept, λ yes. inr (no_go, eq ∙ ap₂ (λ x y. ok (x, y)) yes kept))
      by_result (err e) eq same = tt

  can_move-Answer : OnOk (Answer board p q) (can_move board p q)
  unfolding can_move
  can_move-Answer = by_go (can_go_to board p q) refl
    where
      by_go :
          (r : Result Bool)
          → can_go_to board p q ≡ r
          → OnOk
              (Answer board p q)
              (r >>= λ go. if go then ok (true, board) else can_kill board p q)
      by_go (ok true) eq = (refl, λ yes. inl eq)
      by_go (ok false) eq = can_kill-Answer eq
      by_go (err e) eq = tt

-- The second choice: a square to move to, the same board, and the taps that are left
abbrev Target : Board → ℕ → Option Choice → Type 0
Target board p none = Unit {0}
Target board p (some (q, board', taps)) = (q < 64) × (board' ≡ board) × CanMove board p q

choose_to-Target :
    (board : Board) (p : ℕ) (taps : List ℕ)
    → All IsTap taps
    → OnOk (Target board p) (choose_to board p taps)
unfolding choose_to
choose_to-Target board p [] h = tt
choose_to-Target board p (number ∷ taps) (hn, h) =
    bind-OnOk (Answer board p (tapped number)) (Target board p) (can_move board p (tapped number)) _
      (can_move-Answer board p (tapped number)) (by_answer (choose_to-Target board p taps h))
  where
    by_answer :
        OnOk (Target board p) (choose_to board p taps)
        → (r : Bool × Board) → Answer board p (tapped number) r
        → OnOk (Target board p) (elim r.0 as (λ _. Result (Option Choice)) [
          | true ↦ ok (some (tapped number, r.1, taps))
          | false ↦ choose_to r.1 p taps
        ])
    by_answer rest (true, b) (same, can) = (tapped-IsTap number hn, same, can refl)
    by_answer rest (false, b) (same, can) =
        subst (λ b'. OnOk (Target board p) (choose_to b' p taps)) (sym same) rest

abbrev Stepped : GameState → Option (GameState × List ℕ) → Type 0
Stepped game none = Unit {0}
Stepped game (some (game', taps)) = Step game game'

turn-OnOk-Step :
    (game : GameState) (taps : List ℕ)
    → IsValid game
    → All IsTap taps
    → OnOk (Stepped game) (turn game taps)
unfolding turn
turn-OnOk-Step game taps valid h =
    by_from (choose_from game.board (color_of game.color) taps)
      (choose_from-Own game.board (color_of game.color) taps h)
  where
    by_to :
        (p : ℕ)
        → p < 64
        → not_own (game.board p) (color_of game.color) ≡ false
        → (choice : Option Choice) → Target game.board p choice
        → OnOk (Stepped game) (elim choice as (λ _. Result (Option (GameState × List ℕ))) [
          | none ↦ ok none
          | some c ↦ finish_turn game p c >>= λ r. ok (some r)
        ])
    by_to p hp own none h = tt
    by_to p hp own (some (q, board, rest)) (hq, same, can) =
        let made = finish_turn-CanMove game p q rest valid hp hq can in
        let made_there : finish_turn game p (q, board, rest) ≡ ok (moved game p q, rest) =
          ap (λ b. finish_turn game p (q, b, rest)) same ∙ made in
        subst (λ r. OnOk (Stepped game) (r >>= λ r. ok (some r))) (sym made_there)
          (record {
            from = p;
            to = q;
            from_IsTap = hp;
            to_IsTap = hq;
            own = own;
            can = can;
            next = refl;
          })

    by_from :
        (v : Option (ℕ × List ℕ))
        → Own game.board (color_of game.color) v
        → OnOk (Stepped game) (elim v as (λ _. Result (Option (GameState × List ℕ))) [
          | none ↦ ok none
          | some (p, rest) ↦ choose_to game.board p rest >>= λ choice.
              elim choice as (λ _. Result (Option (GameState × List ℕ))) [
                | none ↦ ok none
                | some c ↦ finish_turn game p c >>= λ r. ok (some r)
              ]
        ])
    by_from none h = tt
    by_from (some (p, rest)) (hp, own, hr) =
        bind-OnOk (Target game.board p) (Stepped game) (choose_to game.board p rest) _
          (choose_to-Target game.board p rest hr) (by_to p hp own)

-- In every state that a game reaches, with any taps on the board: a round that makes a move moves a
-- piece of the color whose turn it is to a square where `CanGoTo` lets it go or `canKill` lets it take
-- a piece, as `GoTo` does, and changes nothing else of the board; the other color is next then.
pub turn-Step :
    {game : GameState} (taps rest : List ℕ) (game' : GameState)
    → Plays game
    → All IsTap taps
    → turn game taps ≡ ok (some (game', rest))
    → Step game game'
turn-Step {game} taps rest game' plays h played =
    subst (OnOk (Stepped game)) played (turn-OnOk-Step game taps (Plays-IsValid plays) h)

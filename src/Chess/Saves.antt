-- ===== src/Chess/Saves.antt =====
-- MyIVR/DataService.swift: `saveGame` and `loadGame`, on the node of the database that holds a game.
mod Keys
mod Writes
pub mod RoundTrip
use ivr_repo.Base.{◌%◌, ◌/◌, ◌-◌, ◌≢◌, ◌^◌, ◌==◌, ◌+◌, ◌++◌, ◌*◌, ◌&&◌, false, ◌≡◌, true, some}
use ivr_repo.Base.{none, ltb, leb, ℕ, Option, List, Bool, [], ◌∷◌, if◌then◌else◌, zero, suc}
use ivr_repo.Chess.Board.{new_piece, put, no_squares, Board}
use ivr_repo.Chess.Int.{pos, negsuc, difference, ℤ}
use ivr_repo.Chess.Piece.{crash, unwrap, err, ◌>>=◌, ok, Result, PieceType, Color, rook, pawn}
use ivr_repo.Chess.Piece.{king, queen, bishop, knight, empty, white, black}

-- The codes of the characters
abbrev pub Text : Type 0
Text = List ℕ

-- What a child of a node holds
pub data Value : Type 0 where
  text : Text → Value
  number : ℤ → Value

-- The database client: what is written under a key is read there, and no other key is changed.
pub record Database : Type 1 where
  pub Node : Type 0
  pub new_node : Node
  pub update : Node → Text → Value → Node
  pub value : Node → Text → Option Value
  pub value_same : (node : Node) (k : Text) (v : Value) → value (update node k v) k ≡ some v
  pub value_other :
      (node : Node) (k k' : Text) (v : Value) → k ≢ k' → value (update node k v) k' ≡ value node k'

-- `rawValue` of a piece type: "rook", "king", "knight", "quenn", "bishop", "pawn", "empty"
abbrev pub type_text : PieceType → Text
type_text rook = 114 ∷ 111 ∷ 111 ∷ 107 ∷ []
type_text king = 107 ∷ 105 ∷ 110 ∷ 103 ∷ []
type_text knight = 107 ∷ 110 ∷ 105 ∷ 103 ∷ 104 ∷ 116 ∷ []
type_text queen = 113 ∷ 117 ∷ 101 ∷ 110 ∷ 110 ∷ []
type_text bishop = 98 ∷ 105 ∷ 115 ∷ 104 ∷ 111 ∷ 112 ∷ []
type_text pawn = 112 ∷ 97 ∷ 119 ∷ 110 ∷ []
type_text empty = 101 ∷ 109 ∷ 112 ∷ 116 ∷ 121 ∷ []

-- "white" and "black"
abbrev pub color_text : Color → Text
color_text white = 119 ∷ 104 ∷ 105 ∷ 116 ∷ 101 ∷ []
color_text black = 98 ∷ 108 ∷ 97 ∷ 99 ∷ 107 ∷ []

abbrev pub same_text : Text → Text → Bool
same_text [] [] = true
same_text [] (y ∷ ys) = false
same_text (x ∷ xs) [] = false
same_text (x ∷ xs) (y ∷ ys) = (x == y) && same_text xs ys

-- The first of the values whose text it is
abbrev pub find_text : {A : Type 0} → (A → Text) → List A → Text → Option A
find_text raw [] t = none
find_text raw (a ∷ others) t = if same_text (raw a) t then some a else find_text raw others t

-- `PieceType(rawValue:)`
unfoldable pub type_of_text : Text → Option PieceType
type_of_text = find_text type_text (rook ∷ king ∷ knight ∷ queen ∷ bishop ∷ pawn ∷ empty ∷ [])

-- `Color(rawValue:)`
unfoldable pub color_of_text : Text → Option Color
color_of_text = find_text color_text (white ∷ black ∷ [])

-- The digits of a number; the number is fuel enough.
abbrev pub digits_of : ℕ → ℕ → Text
digits_of zero n = []
digits_of (suc fuel) n =
    if ltb n 10 then (48 + n) ∷ [] else digits_of fuel (n / 10) ++ ((48 + n % 10) ∷ [])

-- `String(n)` of an Int that is not below 0
unfoldable pub string_of : ℕ → Text
string_of n = digits_of (suc n) n

-- `String(n)` of an Int
unfoldable pub string_of_int : ℤ → Text
string_of_int (pos n) = string_of n
string_of_int (negsuc n) = 45 ∷ string_of (suc n)

-- The variable `k`
unfoldable pub square_key : ℕ → Text
square_key i = if ltb i 10 then 48 ∷ string_of i else string_of i

-- "PieceType"
abbrev pub piece_type_key : Text
piece_type_key = 80 ∷ 105 ∷ 101 ∷ 99 ∷ 101 ∷ 84 ∷ 121 ∷ 112 ∷ 101 ∷ []

-- "Color"
abbrev pub color_key : Text
color_key = 67 ∷ 111 ∷ 108 ∷ 111 ∷ 114 ∷ []

-- "players"
abbrev pub players_key : Text
players_key = 112 ∷ 108 ∷ 97 ∷ 121 ∷ 101 ∷ 114 ∷ 115 ∷ []

-- "moves"
abbrev pub moves_key : Text
moves_key = 109 ∷ 111 ∷ 118 ∷ 101 ∷ 115 ∷ []

-- "date"
abbrev pub date_key : Text
date_key = 100 ∷ 97 ∷ 116 ∷ 101 ∷ []

-- "color"
abbrev pub turn_key : Text
turn_key = 99 ∷ 111 ∷ 108 ∷ 111 ∷ 114 ∷ []

-- `as! String`
abbrev pub as_text : Option Value → Result Text
as_text (some (text t)) = ok t
as_text (some (number n)) = err crash
as_text none = err crash

-- `as? String`
abbrev pub try_text : Option Value → Option Text
try_text (some (text t)) = some t
try_text (some (number n)) = none
try_text none = none

-- What `loadGame` hands over; the numbers are those that the texts stand for.
pub record Save : Type 0 where
  pub board : Board
  pub players : ℤ
  pub color : ℤ
  pub date : Text
  pub moves : ℤ

abbrev pub is_digit : ℕ → Bool
is_digit c = leb 48 c && ltb c 58

-- The value of digits behind others with the value `n`
abbrev pub read_digits : ℕ → Text → Option ℕ
read_digits n [] = some n
read_digits n (c ∷ t) = if is_digit c then read_digits (10 * n + (c - 48)) t else none

abbrev pub in_range : Bool → Option ℕ → Option ℤ
in_range minus none = none
in_range true (some n) = if leb n (2 ^ 63) then some (difference 0 n) else none
in_range false (some n) = if ltb n (2 ^ 63) then some (pos n) else none

-- `Int(_:)` behind the sign
abbrev pub int_of_digits : Bool → Text → Option ℤ
int_of_digits minus [] = none
int_of_digits minus (c ∷ t) = in_range minus (read_digits 0 (c ∷ t))

-- `Int(_:)` of a text, a 64-bit number
unfoldable pub int_of : Text → Option ℤ
int_of [] = none
int_of (c ∷ t) =
    if c == 45
    then int_of_digits true t
    else if c == 43
    then int_of_digits false t
    else int_of_digits false (c ∷ t)

module _ (db : Database) where
  open db use {Node, new_node, update, value}

  -- The loop of `saveGame`, from the square `i` on
  unfoldable pub save_squares : Board → ℕ → ℕ → Node → Result Node
  save_squares board zero i node = ok node
  save_squares board (suc count) i node = unwrap (board i) >>= λ p.
      save_squares board count (i + 1) (
        update (update node (square_key i ++ piece_type_key) (text (type_text p.piece_type)))
          (square_key i ++ color_key) (text (color_text p.color)))

  -- `saveGame`, on the new node; `date` is the text of the date.
  unfoldable pub save_game : ℤ → ℤ → ℤ → Board → Text → Result Node
  save_game players color moves board date = save_squares board 64 0 new_node >>= λ node. ok (
      update
        (update
          (update (update node players_key (text (string_of_int players))) moves_key
            (text (string_of_int moves)))
          date_key (text date))
        turn_key (number color))

  -- The loop of `loadGame` over the squares of a node
  unfoldable pub load_squares : Node → ℕ → ℕ → Board → Result Board
  load_squares node zero i pieces = ok pieces
  load_squares node (suc count) i pieces =
      as_text (value node (square_key i ++ piece_type_key)) >>= λ piece.
      as_text (value node (square_key i ++ color_key)) >>= λ color.
      unwrap (type_of_text piece) >>= λ piece_type. unwrap (color_of_text color) >>= λ c.
      load_squares node count (i + 1) (put pieces i (some (new_piece piece_type i c)))

  -- `loadGame`, on one node
  unfoldable pub load_game : Node → Result Save
  load_game node = load_squares node 64 0 no_squares >>= λ pieces.
      as_text (value node players_key) >>= λ players. as_text (value node turn_key) >>= λ color.
      as_text (value node moves_key) >>= λ moves. unwrap (int_of players) >>= λ players.
      unwrap (int_of color) >>= λ color. unwrap (try_text (value node date_key)) >>= λ date.
      unwrap (int_of moves) >>= λ moves.
      ok (record { board = pieces; players = players; color = color; date = date; moves = moves })

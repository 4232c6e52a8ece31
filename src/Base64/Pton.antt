-- ===== src/Base64/Pton.antt =====
-- `f_b64_pton`: base 64 text to bytes.
use ivr_repo.Base.{ℕ, ◌+◌, ◌*◌, ◌/◌, ◌%◌, ◌^◌, bit_or, Bool, true, false, ◌&&◌, ◌||◌, Option, none}
use ivr_repo.Base.{some, List, [], ◌∷◌, leb, ◌==◌, if◌then◌else◌, get_or, set}
use ivr_repo.Base64.{base64_index, pad64}

-- `isspace` of the C locale
unfoldable pub isspace : ℕ → Bool
isspace ch = ch == 32 || (leb 9 ch && leb ch 13)

-- The variables of the loop. `target` is the memory of `targsize` bytes, `none` for NULL.
pub record Scan : Type 0 where
  pub target : Option (List ℕ)
  pub tarindex : ℕ
  pub state : ℕ

-- `target[i]`, and the assignment to it
abbrev pub at : List ℕ → ℕ → ℕ
at t i = get_or t i 0

-- Whether a target is there and has no byte `i`.
abbrev pub outside : ℕ → Option (List ℕ) → ℕ → Bool
outside targsize none i = false
outside targsize (some t) i = leb targsize i

abbrev pub update : Option (List ℕ) → (List ℕ → List ℕ) → Option (List ℕ)
update none f = none
update (some t) f = some (f t)

-- The switch on `state`, for a digit of value `d`; `none` for -1. `tarindex + 1` is a u_int and wraps.
unfoldable pub pton_digit : ℕ → ℕ → Scan → Option Scan
pton_digit targsize d s =
    if s.state == 0
    then if outside targsize s.target i
      then none
      else some (record s { target = update s.target (λ t. set t i (d * 4)); state = 1 })
    else if s.state == 1
    then if outside targsize s.target next
      then none
      else some (record {
        target = update s.target (λ t. set (set t i (bit_or (at t i) (d / 16))) next (d % 16 * 16));
        tarindex = next;
        state = 2;
      })
    else if s.state == 2
    then if outside targsize s.target next
      then none
      else some (record {
        target = update s.target (λ t. set (set t i (bit_or (at t i) (d / 4))) next (d % 4 * 64));
        tarindex = next;
        state = 3;
      })
    else if outside targsize s.target i
    then none
    else some (record {
      target = update s.target (λ t. set t i (bit_or (at t i) d));
      tarindex = next;
      state = 0;
    })
  where
    i : ℕ
    i = s.tarindex

    next : ℕ
    next = (i + 1) % 2 ^ 32

-- How the loop ends: with -1, at the closing 0, or behind a pad character.
pub data End : Type 0 where
  invalid : End
  closed : Scan → End
  padded : Scan → List ℕ → End

unfoldable pub pton_loop : List ℕ → ℕ → Scan → End
pton_loop [] targsize s = closed s
pton_loop (ch ∷ src) targsize s =
    let digit : End = elim (base64_index ch) [
      | none ↦ invalid
      | some d ↦ elim (pton_digit targsize d s) [
        | none ↦ invalid
        | some s' ↦ pton_loop src targsize s'
      ]
    ] in
    let skip : End = pton_loop src targsize s in
    if isspace ch then skip else if ch == pad64 then padded s src else digit

unfoldable pub skip_spaces : List ℕ → List ℕ
skip_spaces [] = []
skip_spaces (ch ∷ src) = let rest = skip_spaces src in if isspace ch then rest else ch ∷ src

unfoldable pub all_spaces : List ℕ → Bool
all_spaces [] = true
all_spaces (ch ∷ src) = isspace ch && all_spaces src

-- Whether the bits behind the last whole byte are 0.
unfoldable pub no_extra_bits : Scan → Bool
no_extra_bits s = elim s.target [ none ↦ true | some t ↦ at t s.tarindex == 0 ]

-- Behind the last pad character
unfoldable pub pton_tail : Scan → List ℕ → Option Scan
pton_tail s src = if all_spaces src && no_extra_bits s then some s else none

-- The second pad character that state 2 wants
unfoldable pub pton_second_pad : Scan → List ℕ → Option Scan
pton_second_pad s [] = none
pton_second_pad s (ch ∷ src) = if ch == pad64 then pton_tail s src else none

-- What follows the loop
unfoldable pub pton_end : End → Option Scan
pton_end invalid = none
pton_end (closed s) = if s.state == 0 then some s else none
pton_end (padded s src) =
    if s.state == 2
    then pton_second_pad s (skip_spaces src)
    else if s.state == 3
    then pton_tail s src
    else none

-- The result is the bit pattern of the int that `tarindex` is returned as, with the memory at
-- `target`; `none` is the -1 of an error, where nothing is said of the memory.
unfoldable pub scan_result : Option Scan → Option (ℕ × Option (List ℕ))
scan_result none = none
scan_result (some s) = some (s.tarindex, s.target)

unfoldable pub b64_pton : List ℕ → Option (List ℕ) → ℕ → Option (ℕ × Option (List ℕ))
b64_pton src target targsize =
    scan_result
      (pton_end (pton_loop src targsize (record { target = target; tarindex = 0; state = 0 })))

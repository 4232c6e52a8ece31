-- ===== src/Base64/Ntop.antt =====
-- `f_b64_ntop`: bytes to base 64 text.
use ivr_repo.Base.{ℕ, ◌+◌, ◌*◌, ◌/◌, ◌%◌, ◌^◌, Option, none, some, List, [], ◌∷◌, ◌++◌, length, ltb}
use ivr_repo.Base.{leb, if◌then◌else◌}
use ivr_repo.Base64.{base64_digit, pad64}

-- `output[0]` to `output[3]` of three input bytes
unfoldable pub output_group : ℕ → ℕ → ℕ → List ℕ
output_group a b c =
    base64_digit (a / 4)
    ∷ base64_digit (a % 4 * 16 + b / 16)
    ∷ base64_digit (b % 16 * 4 + c / 64)
    ∷ base64_digit (c % 64)
    ∷ []

-- The closing 0 must fit too. The result is the bit pattern of `(int)(datalength)`, `none` for the -1
-- of an error, with what was stored.
unfoldable pub ntop_close : ℕ → List ℕ → Option ℕ × List ℕ
ntop_close targsize target =
    if leb targsize (length target)
    then (none, target)
    else (some (length target % 2 ^ 32), target ++ (0 ∷ []))

-- The last one or two bytes, padded.
unfoldable pub ntop_pad : ℕ → List ℕ → List ℕ → Option ℕ × List ℕ
ntop_pad targsize target group =
    if ltb targsize (length target + 4)
    then (none, target)
    else ntop_close targsize (target ++ group)

-- The loop, and the padding behind it. `datalength` is the length of what is stored.
unfoldable pub ntop_loop : List ℕ → ℕ → List ℕ → Option ℕ × List ℕ
ntop_loop [] targsize target = ntop_close targsize target
ntop_loop (a ∷ []) targsize target =
    ntop_pad targsize target
      (base64_digit (a / 4) ∷ base64_digit (a % 4 * 16 + 0 / 16) ∷ pad64 ∷ pad64 ∷ [])
ntop_loop (a ∷ b ∷ []) targsize target = ntop_pad targsize target (
    base64_digit (a / 4)
    ∷ base64_digit (a % 4 * 16 + b / 16)
    ∷ base64_digit (b % 16 * 4 + 0 / 64)
    ∷ pad64
    ∷ [])
ntop_loop (a ∷ b ∷ c ∷ rest) targsize target =
    if ltb targsize (length target + 4)
    then (none, target)
    else ntop_loop rest targsize (target ++ output_group a b c)

unfoldable pub b64_ntop : List ℕ → ℕ → Option ℕ × List ℕ
b64_ntop src targsize = ntop_loop src targsize []

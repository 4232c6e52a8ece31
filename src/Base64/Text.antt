-- ===== src/Base64/Text.antt =====
-- The base 64 text of a list of bytes, and `f_b64_ntop`.
use ivr_repo.Base.{
  ◌^◌, ◌∙◌, ap, ℕ, ◌+◌, ◌*◌, ◌/◌, ◌%◌, ◌≤◌, ◌<◌, ◌≡◌, refl, arith, none, some, List, [], ◌∷◌,
}
use ivr_repo.Base.{◌++◌, length, length-append, append_assoc, append-nil, ltb, le→not_ltb}
use ivr_repo.Base.{Bool-cases, inl, inr}
use ivr_repo.Base64.{base64_digit, pad64}
use ivr_repo.Base64.Ntop.{output_group, ntop_close, ntop_pad, ntop_loop, b64_ntop}
use native.Mathlib.Nat.{add-zero}

-- RFC 1521: three bytes make four digits; the last group is filled with pad characters.
unfoldable pub base64_text : List ℕ → List ℕ
base64_text [] = []
base64_text (a ∷ []) = base64_digit (a / 4) ∷ base64_digit (a % 4 * 16) ∷ pad64 ∷ pad64 ∷ []
base64_text (a ∷ b ∷ []) =
    base64_digit (a / 4)
    ∷ base64_digit (a % 4 * 16 + b / 16)
    ∷ base64_digit (b % 16 * 4)
    ∷ pad64
    ∷ []
base64_text (a ∷ b ∷ c ∷ rest) = output_group a b c ++ base64_text rest

length-output_group : (a b c : ℕ) → length (output_group a b c) ≡ 4
unfolding output_group
length-output_group a b c = refl

pub length-base64_text : (src : List ℕ) → length (base64_text src) ≡ (length src + 2) / 3 * 4
unfolding base64_text output_group
length-base64_text [] = refl
length-base64_text (a ∷ []) = refl
length-base64_text (a ∷ b ∷ []) = refl
length-base64_text (a ∷ b ∷ c ∷ rest) = omega (arith, length-base64_text rest)

close-room :
    (targsize : ℕ) (target : List ℕ)
    → length target < targsize
    → ntop_close targsize target ≡ (some (length target % 2 ^ 32), target ++ (0 ∷ []))
unfolding ntop_close
close-room targsize target h = ground arith

close-full :
    (targsize : ℕ) (target : List ℕ)
    → targsize ≤ length target
    → (ntop_close targsize target).0 ≡ none
unfolding ntop_close
close-full targsize target h = ground arith

pad-room :
    (targsize : ℕ) (target group : List ℕ)
    → length group ≡ 4
    → length target + 4 < targsize
    → ntop_pad targsize target group
      ≡ (some (length (target ++ group) % 2 ^ 32), (target ++ group) ++ (0 ∷ []))
unfolding ntop_pad
pad-room targsize target group four h =
    ground (arith, length-append target group, close-room targsize (target ++ group))

pad-full :
    (targsize : ℕ) (target group : List ℕ)
    → length group ≡ 4
    → targsize ≤ length target + 4
    → (ntop_pad targsize target group).0 ≡ none
unfolding ntop_pad
pad-full targsize target group four h =
    ground (arith, length-append target group, close-full targsize (target ++ group))

loop-room :
    (src : List ℕ) (targsize : ℕ) (target : List ℕ)
    → length target + length (base64_text src) < targsize
    → ntop_loop src targsize target ≡ (
      some (length (target ++ base64_text src) % 2 ^ 32),
      (target ++ base64_text src) ++ (0 ∷ []),
    )
unfolding ntop_loop base64_text
loop-room [] targsize target h = rw append-nil (close-room targsize target (omega arith))
loop-room (a ∷ []) targsize target h = rw add-zero (pad-room targsize target _ refl h)
loop-room (a ∷ b ∷ []) targsize target h = rw add-zero (pad-room targsize target _ refl h)
loop-room (a ∷ b ∷ c ∷ rest) targsize target h =
    let group = output_group a b c in
    let four = length-append group (base64_text rest) in
    let sum = length-append target group in
    rw
      (
        le→not_ltb targsize (length target + 4) (omega (arith, four, length-output_group a b c)),
        ← append_assoc target group (base64_text rest),
      )
      (loop-room rest targsize (target ++ group)
        (omega (arith, four, sum, length-output_group a b c)))

loop-full :
    (src : List ℕ) (targsize : ℕ) (target : List ℕ)
    → targsize ≤ length target + length (base64_text src)
    → (ntop_loop src targsize target).0 ≡ none
unfolding ntop_loop base64_text
loop-full [] targsize target h = close-full targsize target (omega arith)
loop-full (a ∷ []) targsize target h = pad-full targsize target _ refl h
loop-full (a ∷ b ∷ []) targsize target h = pad-full targsize target _ refl h
loop-full (a ∷ b ∷ c ∷ rest) targsize target h =
    elim (Bool-cases (ltb targsize (length target + 4))) [
      | inl full ↦ rw full
      | inr room ↦
          let group = output_group a b c in
          let four = length-append group (base64_text rest) in
          let sum = length-append target group in
          rw room (
            loop-full rest targsize (target ++ group)
              (omega (arith, four, sum, length-output_group a b c)))
    ]

-- `f_b64_ntop` stores the base 64 text of the bytes with a closing 0 and returns the text's length,
-- four characters for every three bytes begun, if both fit `targsize` and the length is below 2 ^ 31,
-- so that it is an int.
pub b64_ntop-base64_text :
    (src : List ℕ) (targsize : ℕ)
    → (length src + 2) / 3 * 4 < targsize
    → (length src + 2) / 3 * 4 < 2 ^ 31
    → b64_ntop src targsize ≡ (some ((length src + 2) / 3 * 4), base64_text src ++ (0 ∷ []))
unfolding b64_ntop
b64_ntop-base64_text src targsize h small =
    let same = length-base64_text src in
    let whole : length (base64_text src) % 2 ^ 32 ≡ (length src + 2) / 3 * 4 =
      omega (arith, same) in
    loop-room src targsize [] (omega (arith, same))
    ∙ ap (λ n. (some n, base64_text src ++ (0 ∷ []))) whole

-- `f_b64_ntop` returns -1 if the text of four characters for every three bytes begun, or the closing
-- 0 behind it, does not fit `targsize`.
pub b64_ntop_full :
    (src : List ℕ) (targsize : ℕ)
    → targsize ≤ (length src + 2) / 3 * 4
    → (b64_ntop src targsize).0 ≡ none
unfolding b64_ntop
b64_ntop_full src targsize h = loop-full src targsize [] (omega (arith, length-base64_text src))

-- ===== src/Nanopb/Varint/Decode.antt =====
-- `pb_decode_varint` on a varint, whole, cut short or too long.
use ivr_repo.Base.{ℕ, zero, suc, ◌+◌, ◌-◌, ◌*◌, ◌%◌, ◌^◌, ◌≤◌, ◌<◌, ◌≡◌, sym, ap, ◌∙◌, arith}
use ivr_repo.Base.{List, [], ◌∷◌, ◌++◌, length, Option, none, some, bit_or, ◌⊎◌, inl, inr}
use ivr_repo.Base.Bits.{bit_or_low_high}
use ivr_repo.Nanopb.Descriptor.{ErrMsg, set_error, varint_overflow, end_of_stream}
use ivr_repo.Nanopb.Input.Buffer.{buffer, readbyte-buffer, readbyte-buffer_end}
use ivr_repo.Nanopb.Varint.{varint_loop, decode_varint}
use ivr_repo.Nanopb.Varint.Value.{IsVarint, varint_value}
use mathlib.Core.Path.{subst, ap₂}
use native.Mathlib.Nat.{pow-le-pow_right}
use native.Mathlib.Numerals.{towards_suc}

pub shift_seven : (s : ℕ) → 2 ^ (s + 7) ≡ 128 * 2 ^ s
shift_seven s = simp towards_suc (omega arith)

shift_bound : (s : ℕ) → s ≤ 56 → 2 ^ s ≤ 2 ^ 56
shift_bound s h = pow-le-pow_right (omega arith) h

-- A group of seven bits joins the bits below it.
group_fits :
    (result g s : ℕ)
    → result < 2 ^ s
    → g < 128
    → s ≤ 56
    → (bit_or result (g * 2 ^ s % 2 ^ 64) ≡ result + g * 2 ^ s) × (result + g * 2 ^ s < 2 ^ (s + 7))
group_fits result g s hr hg hs =
    let wide : g * 2 ^ s ≤ 127 * 2 ^ s = grind arith in
    let fits : g * 2 ^ s % 2 ^ 64 ≡ g * 2 ^ s = omega (arith, shift_bound s hs) in
    (rw fits (bit_or_low_high s result g hr), omega (arith, shift_seven s))

-- The tenth group keeps its lowest bit only.
group_tenth :
    (result g : ℕ)
    → result < 2 ^ 63
    → bit_or result (g * 2 ^ 63 % 2 ^ 64) ≡ (result + g * 2 ^ 63) % 2 ^ 64
group_tenth result g h =
    let low : g * 2 ^ 63 % 2 ^ 64 ≡ g % 2 * 2 ^ 63 = omega arith in
    rw low (omega (arith, bit_or_low_high 63 result (g % 2) h))

group_wraps :
    (result g s : ℕ)
    → result < 2 ^ s
    → g < 128
    → (s ≤ 56) ⊎ (s ≡ 63)
    → bit_or result (g * 2 ^ s % 2 ^ 64) ≡ (result + g * 2 ^ s) % 2 ^ 64
group_wraps result g s hr hg (inl h) =
    let (joined, small) = group_fits result g s hr hg h in
    rw joined (omega (arith, small, shift_seven s, shift_bound s h))
group_wraps result g s hr hg (inr h) = subst P (sym h) (group_tenth result g (rw h at hr))
  where
    P : ℕ → Type 0
    P k = bit_or result (g * 2 ^ k % 2 ^ 64) ≡ (result + g * 2 ^ k) % 2 ^ 64

-- One round, on a last byte and on another.
last_round :
    (b fuel result s : ℕ) (rest : List ℕ) (left : ℕ) (e : Option ErrMsg)
    → b < 128
    → s ≤ 63
    → varint_loop (suc fuel) result s (buffer (b ∷ rest) (suc left) e)
      ≡ (some (bit_or result (b % 128 * 2 ^ s % 2 ^ 64)), buffer rest left e)
unfolding varint_loop
last_round b fuel result s rest left e hb hs = ground (arith, readbyte-buffer b rest left e)

inner_round :
    (b fuel result s : ℕ) (rest : List ℕ) (left : ℕ) (e : Option ErrMsg)
    → 128 ≤ b
    → s ≤ 63
    → varint_loop (suc fuel) result s (buffer (b ∷ rest) (suc left) e)
      ≡ varint_loop fuel (bit_or result (b % 128 * 2 ^ s % 2 ^ 64)) (s + 7) (buffer rest left e)
unfolding varint_loop
inner_round b fuel result s rest left e hb hs =
    let next : (s + 7) % 256 ≡ s + 7 = omega arith in
    ground (arith, readbyte-buffer b rest left e, next)

shift_cases : (j : ℕ) → j ≤ 9 → (7 * j ≤ 56) ⊎ (7 * j ≡ 63)
shift_cases j h = grind arith

pub regroup :
    (j a g w : ℕ) → a + g * 2 ^ (7 * j) + w * 2 ^ (7 * suc j) ≡ a + (g + 128 * w) * 2 ^ (7 * j)
regroup j a g w =
    let next : 7 * suc j ≡ 7 * j + 7 = omega arith in
    rw next (omega (arith, ap (λ (t : ℕ). w * t) (shift_seven (7 * j))))

varint_loop-value :
    (bs : List ℕ) (fuel result j : ℕ) (rest : List ℕ) (left : ℕ) (e : Option ErrMsg)
    → IsVarint bs
    → length bs ≤ fuel
    → j + length bs ≤ 10
    → result < 2 ^ (7 * j)
    → varint_loop fuel result (7 * j) (buffer (bs ++ rest) (length bs + left) e)
      ≡ (some ((result + varint_value bs * 2 ^ (7 * j)) % 2 ^ 64), buffer rest left e)
unfolding varint_value
varint_loop-value [] fuel result j rest left e v h room hr = absurd v
varint_loop-value (b ∷ r) zero result j rest left e v h room hr = absurd (omega arith)
varint_loop-value (b ∷ []) (suc fuel) result j rest left e v h room hr =
    let one_left : 1 + left ≡ suc left = omega arith in
    let joined =
      group_wraps result (b % 128) (7 * j) hr (omega arith) (shift_cases j (omega arith)) in
    rw (one_left, last_round b fuel result (7 * j) rest left e v (omega arith), joined)
      (ap (λ k. (some (k % 2 ^ 64), buffer rest left e)) (omega arith))
varint_loop-value (b ∷ c ∷ r) (suc fuel) result j rest left e (hi, lo, v) h room hr =
    let one_left : length (b ∷ c ∷ r) + left ≡ suc (length (c ∷ r) + left) = omega arith in
    let (joined, small) = group_fits result (b % 128) (7 * j) hr (omega arith) (omega arith) in
    let next : 7 * j + 7 ≡ 7 * suc j = omega arith in
    rw
      (
        one_left,
        inner_round b fuel result (7 * j) (c ∷ r ++ rest) (length (c ∷ r) + left) e hi
            (omega arith),
        joined,
        next,
      )
      (varint_loop-value (c ∷ r) fuel (result + b % 128 * 2 ^ (7 * j)) (suc j) rest left e v
          (omega arith) (omega arith) (rw next at small)
        ∙ ap (λ k. (some (k % 2 ^ 64), buffer rest left e))
            (regroup j result (b % 128) (varint_value (c ∷ r))))

-- `pb_decode_varint` accepts every varint of at most ten bytes: it returns the value modulo 2 ^ 64
-- and leaves the stream just behind the last byte.
pub decode_varint-value :
    (bs rest : List ℕ) (left : ℕ) (e : Option ErrMsg)
    → IsVarint bs
    → length bs ≤ 10
    → decode_varint (buffer (bs ++ rest) (length bs + left) e)
      ≡ (some (varint_value bs % 2 ^ 64), buffer rest left e)
unfolding decode_varint
decode_varint-value bs rest left e v h =
    varint_loop-value bs 11 0 0 rest left e v (omega arith) (omega arith) (omega arith)
    ∙ ap (λ k. (some (k % 2 ^ 64), buffer rest left e)) (omega arith)

-- A run of bytes that all announce another one.
abbrev pub AllMore : List ℕ → Type 0
AllMore [] = Unit {0}
AllMore (b ∷ r) = (128 ≤ b) × AllMore r

varint_loop-AllMore :
    (bs : List ℕ) (fuel result j : ℕ) (rest : List ℕ) (left : ℕ) (e : Option ErrMsg)
    → AllMore bs
    → j + length bs ≤ 10
    → (result' : ℕ) × (varint_loop
          (length bs + fuel)
          result
          (7 * j)
          (buffer (bs ++ rest) (length bs + left) e)
        ≡ varint_loop fuel result' (7 * (j + length bs)) (buffer rest left e))
varint_loop-AllMore [] fuel result j rest left e m h =
    let same : 7 * j ≡ 7 * (j + 0) = omega arith in
    let none_read : 0 + left ≡ left = omega arith in
    let no_round : 0 + fuel ≡ fuel = omega arith in (result, rw (same, none_read, no_round))
varint_loop-AllMore (b ∷ r) fuel result j rest left e (hb, m) h =
    let result₁ = bit_or result (b % 128 * 2 ^ (7 * j) % 2 ^ 64) in
    let (result', run) = varint_loop-AllMore r fuel result₁ (suc j) rest left e m (omega arith) in
    let one_left : suc (length r) + left ≡ suc (length r + left) = omega arith in
    let one_round : suc (length r) + fuel ≡ suc (length r + fuel) = omega arith in
    let next : 7 * j + 7 ≡ 7 * suc j = omega arith in
    let at_end : 7 * (j + suc (length r)) ≡ 7 * (suc j + length r) = omega arith in
    (
      result',
      rw
          (
            one_left,
            one_round,
            inner_round b (length r + fuel) result (7 * j) (r ++ rest) (length r + left) e hb
                (omega arith),
            next,
            at_end,
          )
          run,
    )

overflow_round :
    (fuel result s : ℕ) (rest : List ℕ) (left : ℕ) (e : Option ErrMsg)
    → 64 ≤ s
    → varint_loop (suc fuel) result s (buffer rest left e)
      ≡ (none, buffer rest left (set_error e varint_overflow))
unfolding varint_loop
overflow_round fuel result s rest left e h = ground arith

end_round :
    (fuel result s : ℕ) (rest : List ℕ) (e : Option ErrMsg)
    → s ≤ 63
    → varint_loop (suc fuel) result s (buffer rest 0 e)
      ≡ (none, buffer rest 0 (set_error e end_of_stream))
unfolding varint_loop
end_round fuel result s rest e h = ground (arith, readbyte-buffer_end rest e)

-- Ten bytes with the top bit set are a "varint overflow", whatever follows.
pub decode_varint_too_long :
    (bs rest : List ℕ) (left : ℕ) (e : Option ErrMsg)
    → AllMore bs
    → length bs ≡ 10
    → decode_varint (buffer (bs ++ rest) (length bs + left) e)
      ≡ (none, buffer rest left (set_error e varint_overflow))
unfolding decode_varint
decode_varint_too_long bs rest left e m h =
    let (result, run) = varint_loop-AllMore bs 1 0 0 rest left e m (omega arith) in
    let rounds : 11 ≡ length bs + 1 = omega arith in
    ap (λ f. varint_loop f 0 0 (buffer (bs ++ rest) (length bs + left) e)) rounds
    ∙ run
    ∙ overflow_round 0 result (7 * (0 + length bs)) rest left e (omega arith)

-- A stream that ends inside a varint of less than ten bytes is "end-of-stream".
pub decode_varint_truncated :
    (bs rest : List ℕ) (e : Option ErrMsg)
    → AllMore bs
    → length bs < 10
    → decode_varint (buffer (bs ++ rest) (length bs) e)
      ≡ (none, buffer rest 0 (set_error e end_of_stream))
unfolding decode_varint
decode_varint_truncated bs rest e m h =
    let fuel : ℕ = 10 - length bs in
    let (result, run) = varint_loop-AllMore bs (suc fuel) 0 0 rest 0 e m (omega arith) in
    let rounds : 11 ≡ length bs + suc fuel = omega arith in
    let bytes : length bs ≡ length bs + 0 = omega arith in
    ap₂ (λ f k. varint_loop f 0 0 (buffer (bs ++ rest) k e)) rounds bytes
    ∙ run
    ∙ end_round fuel result (7 * (0 + length bs)) rest e (omega arith)

-- ===== src/Nanopb/Varint/Decode32.antt =====
-- `pb_decode_varint32` on varints that fit 32 bits, and on some that do not.
use ivr_repo.Base.{none, ℕ, zero, suc, ◌+◌, ◌*◌, ◌%◌, ◌^◌, ◌≤◌, ◌<◌, ◌≡◌, ap, ◌∙◌, arith, List}
use ivr_repo.Base.{[], ◌∷◌, ◌++◌, length, Option, some, true, false, bit_or}
use ivr_repo.Base.Bits.{bit_or_low_high}
use ivr_repo.Nanopb.Descriptor.{end_of_stream, set_error, ErrMsg}
use ivr_repo.Nanopb.Input.Buffer.{readbyte-buffer_end, buffer, readbyte-buffer}
use ivr_repo.Nanopb.Varint.Decode.{shift_seven, regroup}
use ivr_repo.Nanopb.Varint.Value.{IsVarint, varint_value}
use ivr_repo.Nanopb.Varint.{
  varint32_loop, bad_extension, decode_varint32_eof, decode_varint32, first_byte32,
}
use ivr_repo.Nanopb.Varint

-- One round below bit 32, on a last byte and on another.
pub last_round32 :
    (b fuel result s : ℕ) (rest : List ℕ) (left : ℕ) (e : Option ErrMsg)
    → b < 128
    → s ≤ 28
    → (s ≡ 28 → b < 16)
    → varint32_loop (suc fuel) result s (buffer (b ∷ rest) (suc left) e)
      ≡ (some (bit_or result (b % 128 * 2 ^ s % 2 ^ 32)), buffer rest left e)
unfolding varint32_loop
last_round32 b fuel result s rest left e hb hs top = ground (arith, readbyte-buffer b rest left e)

pub inner_round32 :
    (b fuel result s : ℕ) (rest : List ℕ) (left : ℕ) (e : Option ErrMsg)
    → 128 ≤ b
    → s ≤ 28
    → varint32_loop (suc fuel) result s (buffer (b ∷ rest) (suc left) e)
      ≡ varint32_loop fuel (bit_or result (b % 128 * 2 ^ s % 2 ^ 32)) (s + 7) (buffer rest left e)
unfolding varint32_loop
inner_round32 b fuel result s rest left e hb hs =
    let next : (s + 7) % 256 ≡ s + 7 = omega arith in
    ground (arith, readbyte-buffer b rest left e, next)

-- A group joins the bits below it, where all of the number fits 32 bits.
group_fits32 :
    (result g s : ℕ)
    → result < 2 ^ s
    → g < 128
    → g * 2 ^ s < 2 ^ 32
    → (bit_or result (g * 2 ^ s % 2 ^ 32) ≡ result + g * 2 ^ s) × (result + g * 2 ^ s < 2 ^ (s + 7))
group_fits32 result g s hr hg fits =
    let wide : g * 2 ^ s ≤ 127 * 2 ^ s = grind arith in
    let same : g * 2 ^ s % 2 ^ 32 ≡ g * 2 ^ s = omega arith in
    (rw same (bit_or_low_high s result g hr), omega (arith, shift_seven s))

top_group : (b s : ℕ) → b * 2 ^ s < 2 ^ 32 → s ≡ 28 → b < 16
top_group b s h hs = omega (arith, rw hs at h)

pub varint32_loop-value :
    (bs : List ℕ) (fuel result j : ℕ) (rest : List ℕ) (left : ℕ) (e : Option ErrMsg)
    → IsVarint bs
    → length bs ≤ fuel
    → j + length bs ≤ 5
    → result < 2 ^ (7 * j)
    → result + varint_value bs * 2 ^ (7 * j) < 2 ^ 32
    → varint32_loop fuel result (7 * j) (buffer (bs ++ rest) (length bs + left) e)
      ≡ (some (result + varint_value bs * 2 ^ (7 * j)), buffer rest left e)
unfolding varint_value
varint32_loop-value [] fuel result j rest left e v h room hr small = absurd v
varint32_loop-value (b ∷ r) zero result j rest left e v h room hr small = absurd (omega arith)
varint32_loop-value (b ∷ []) (suc fuel) result j rest left e v h room hr small =
    let s = 7 * j in
    let one_left : 1 + left ≡ suc left = omega arith in
    let whole : b % 128 + 128 * 0 ≡ b = omega arith in
    let low : b % 128 ≡ b = omega arith in
    let fits : b * 2 ^ s < 2 ^ 32 = omega (arith, rw whole at small) in
    let joined = (group_fits32 result b s hr v fits).0 in
    rw
      (one_left, last_round32 b fuel result s rest left e v (omega arith) (top_group b s fits), low)
      (ap (λ k. (some k, buffer rest left e)) (joined ∙ omega arith))
varint32_loop-value (b ∷ c ∷ r) (suc fuel) result j rest left e (hi, lo, v) h room hr small =
    let s = 7 * j in
    let w = varint_value (c ∷ r) in
    let one_left : length (b ∷ c ∷ r) + left ≡ suc (length (c ∷ r) + left) = omega arith in
    let sum = regroup j result (b % 128) w in
    let fits : b % 128 * 2 ^ s < 2 ^ 32 = omega (arith, sum, small) in
    let (joined, below) = group_fits32 result (b % 128) s hr (omega arith) fits in
    let next : s + 7 ≡ 7 * suc j = omega arith in
    rw
      (
        one_left,
        inner_round32 b fuel result s (c ∷ r ++ rest) (length (c ∷ r) + left) e hi (omega arith),
        joined,
        next,
      )
      (varint32_loop-value (c ∷ r) fuel (result + b % 128 * 2 ^ s) (suc j) rest left e v
          (omega arith) (omega arith) (rw next at below) (omega (arith, sum, small))
        ∙ ap (λ k. (some k, buffer rest left e)) sum)

-- `pb_decode_varint32` accepts every varint of at most five bytes whose value fits a uint32_t: it
-- returns the value, does not set `*eof`, and leaves the stream just behind the last byte.
pub decode_varint32-value :
    (bs rest : List ℕ) (left : ℕ) (e : Option ErrMsg)
    → IsVarint bs
    → length bs ≤ 5
    → varint_value bs < 2 ^ 32
    → decode_varint32_eof (buffer (bs ++ rest) (length bs + left) e)
      ≡ (false, some (varint_value bs), buffer rest left e)
unfolding decode_varint32_eof first_byte32 varint_value
decode_varint32-value [] rest left e v h small = absurd v
decode_varint32-value (b ∷ []) rest left e v h small =
    let one_left : 1 + left ≡ suc left = omega arith in
    let whole : b % 128 + 128 * 0 ≡ b = omega arith in
    rw (one_left, readbyte-buffer b rest left e, whole) (ground arith)
decode_varint32-value (b ∷ c ∷ r) rest left e (hi, lo, v) h small =
    let one_left : length (b ∷ c ∷ r) + left ≡ suc (length (c ∷ r) + left) = omega arith in
    let more : Varint.more_bytes b ≡ true = ground arith in
    let run =
      varint32_loop-value (c ∷ r) (suc (length (c ∷ r) + left)) (b % 128) 1 rest left e v
        (omega arith) (omega arith) (omega arith) (omega arith) in
    rw (one_left, readbyte-buffer b (c ∷ r ++ rest) (length (c ∷ r) + left) e, more, run)
      (ap (λ k. (false, some k, buffer rest left e)) (omega arith))

-- The rounds behind bit 32: a byte that extends the sign is passed over.
pub extension_round :
    (b fuel result s : ℕ) (rest : List ℕ) (left : ℕ) (e : Option ErrMsg)
    → b ≡ 255
    → 35 ≤ s
    → s < 63
    → 2 ^ 31 ≤ result
    → varint32_loop (suc fuel) result s (buffer (b ∷ rest) (suc left) e)
      ≡ varint32_loop fuel result (s + 7) (buffer rest left e)
unfolding varint32_loop bad_extension
extension_round b fuel result s rest left e hb lo hi hr =
    let next : (s + 7) % 256 ≡ s + 7 = omega arith in
    ground (arith, readbyte-buffer b rest left e, next)

pub extension_end :
    (fuel result : ℕ) (rest : List ℕ) (left : ℕ) (e : Option ErrMsg)
    → 2 ^ 31 ≤ result
    → varint32_loop (suc fuel) result 63 (buffer (1 ∷ rest) (suc left) e)
      ≡ (some result, buffer rest left e)
unfolding varint32_loop bad_extension
extension_end fuel result rest left e hr = ground (arith, readbyte-buffer 1 rest left e)

-- At the end of the stream `*eof` is set, beside the error.
pub decode_varint32_eof_end :
    (st : List ℕ) (e : Option ErrMsg)
    → decode_varint32_eof (buffer st 0 e) ≡ (true, none, buffer st 0 (set_error e end_of_stream))
unfolding decode_varint32_eof first_byte32
decode_varint32_eof_end st e = rw (readbyte-buffer_end st e)

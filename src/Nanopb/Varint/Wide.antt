-- ===== src/Nanopb/Varint/Wide.antt =====
-- `pb_decode_varint32` on numbers wider than 32 bits: sign-extended ones, and overlong encodings.
use ivr_repo.Base.{ℕ, zero, suc, ◌+◌, ◌*◌, ◌/◌, ◌%◌, ◌^◌, ◌≤◌, ◌<◌, ◌≡◌, ◌≢◌, refl, ap, ◌∙◌}
use ivr_repo.Base.{arith, List, [], ◌∷◌, ◌++◌, Option, some, true, false, bit_or, replicate}
use ivr_repo.Base.Bits.{bit_or_low_high, zero-bit_or}
use ivr_repo.Nanopb.Descriptor.{ErrMsg}
use ivr_repo.Nanopb.Input.{IStream}
use ivr_repo.Nanopb.Input.Buffer.{buffer, readbyte-buffer}
use ivr_repo.Nanopb.Varint.{varint32_loop, decode_varint32_eof, first_byte32, bad_extension}
use ivr_repo.Nanopb.Varint.Decode32.{inner_round32, extension_round, extension_end}
use ivr_repo.Nanopb.Varint.Value.{IsVarint, varint_value}
use ivr_repo.Nanopb.Varint

-- The low 35 bits of `v` in five groups, each with the top bit set.
abbrev pub five_groups : ℕ → List ℕ → List ℕ
five_groups v rest =
    (v % 128 + 128)
    ∷ (v / 2 ^ 7 % 128 + 128)
    ∷ (v / 2 ^ 14 % 128 + 128)
    ∷ (v / 2 ^ 21 % 128 + 128)
    ∷ (v / 2 ^ 28 % 128 + 128)
    ∷ rest

-- The first groups of `v` make its low bits; the fifth is cut at bit 32.
join_7 : (v : ℕ) → bit_or (v % 2 ^ 7) (v / 2 ^ 7 % 128 * 2 ^ 7 % 2 ^ 32) ≡ v % 2 ^ 14
join_7 v =
    let fits : v / 2 ^ 7 % 128 * 2 ^ 7 % 2 ^ 32 ≡ v / 2 ^ 7 % 128 * 2 ^ 7 = omega arith in
    rw fits (omega (arith, bit_or_low_high 7 (v % 2 ^ 7) (v / 2 ^ 7 % 128) (omega arith)))

join_14 : (v : ℕ) → bit_or (v % 2 ^ 14) (v / 2 ^ 14 % 128 * 2 ^ 14 % 2 ^ 32) ≡ v % 2 ^ 21
join_14 v =
    let fits : v / 2 ^ 14 % 128 * 2 ^ 14 % 2 ^ 32 ≡ v / 2 ^ 14 % 128 * 2 ^ 14 = omega arith in
    rw fits (omega (arith, bit_or_low_high 14 (v % 2 ^ 14) (v / 2 ^ 14 % 128) (omega arith)))

join_21 : (v : ℕ) → bit_or (v % 2 ^ 21) (v / 2 ^ 21 % 128 * 2 ^ 21 % 2 ^ 32) ≡ v % 2 ^ 28
join_21 v =
    let fits : v / 2 ^ 21 % 128 * 2 ^ 21 % 2 ^ 32 ≡ v / 2 ^ 21 % 128 * 2 ^ 21 = omega arith in
    rw fits (omega (arith, bit_or_low_high 21 (v % 2 ^ 21) (v / 2 ^ 21 % 128) (omega arith)))

join_28 : (v : ℕ) → bit_or (v % 2 ^ 28) (v / 2 ^ 28 % 128 * 2 ^ 28 % 2 ^ 32) ≡ v % 2 ^ 32
join_28 v =
    let cut : v / 2 ^ 28 % 128 * 2 ^ 28 % 2 ^ 32 ≡ v / 2 ^ 28 % 16 * 2 ^ 28 = omega arith in
    rw cut (omega (arith, bit_or_low_high 28 (v % 2 ^ 28) (v / 2 ^ 28 % 16) (omega arith)))

group_round :
    (g fuel result s result' : ℕ) (rest : List ℕ) (left : ℕ) (e : Option ErrMsg)
    → s ≤ 28
    → bit_or result (g % 128 * 2 ^ s % 2 ^ 32) ≡ result'
    → varint32_loop (suc fuel) result s (buffer ((g % 128 + 128) ∷ rest) (suc left) e)
      ≡ varint32_loop fuel result' (s + 7) (buffer rest left e)
group_round g fuel result s result' rest left e hs joined =
    let low : (g % 128 + 128) % 128 ≡ g % 128 = omega arith in
    inner_round32 (g % 128 + 128) fuel result s rest left e (omega arith) hs ∙ rw (low, joined)

-- After the five groups the loop holds the low 32 bits of `v`, and stands at bit 35.
four_rounds :
    (v fuel : ℕ) (rest : List ℕ) (left : ℕ) (e : Option ErrMsg)
    → varint32_loop (suc (suc (suc (suc fuel)))) (v % 2 ^ 7) 7 (
        buffer
          ((v / 2 ^ 7 % 128 + 128)
            ∷ (v / 2 ^ 14 % 128 + 128)
            ∷ (v / 2 ^ 21 % 128 + 128)
            ∷ (v / 2 ^ 28 % 128 + 128)
            ∷ rest)
          (suc (suc (suc (suc left))))
          e)
      ≡ varint32_loop fuel (v % 2 ^ 32) 35 (buffer rest left e)
four_rounds v fuel rest left e =
    group_round (v / 2 ^ 7) _ _ 7 _ _ _ e (omega arith) (join_7 v)
    ∙ group_round (v / 2 ^ 14) _ _ 14 _ _ _ e (omega arith) (join_14 v)
    ∙ group_round (v / 2 ^ 21) _ _ 21 _ _ _ e (omega arith) (join_21 v)
    ∙ group_round (v / 2 ^ 28) _ _ 28 _ _ _ e (omega arith) (join_28 v)

five_rounds :
    (v : ℕ) (rest : List ℕ) (left : ℕ) (e : Option ErrMsg)
    → let (r, s) = varint32_loop (suc left) (v % 2 ^ 32) 35 (buffer rest left e) in
      decode_varint32_eof (buffer (five_groups v rest) (5 + left) e) ≡ (false, r, s)
unfolding decode_varint32_eof first_byte32
five_rounds v rest left e =
    let left₅ : 5 + left ≡ suc (suc (suc (suc (suc left)))) = omega arith in
    let more : Varint.more_bytes (v % 128 + 128) ≡ true = ground arith in
    let low : (v % 128 + 128) % 128 ≡ v % 2 ^ 7 = omega arith in
    rw (
      left₅,
      readbyte-buffer (v % 128 + 128) _ (suc (suc (suc (suc left)))) e,
      more,
      low,
      four_rounds v (suc left) rest left e,
    )

overlong_round :
    (result left : ℕ) (rest : List ℕ) (e : Option ErrMsg)
    → varint32_loop (suc (suc left)) result 35 (buffer (0 ∷ rest) (suc left) e)
      ≡ (some result, buffer rest left e)
unfolding varint32_loop bad_extension
overlong_round result left rest e = ground (arith, readbyte-buffer 0 rest left e)

-- The six bytes of five groups and a closing 0 are a varint of a number below 2 ^ 35. No overflow
-- is reported: the bits from 32 on are dropped.
pub decode_varint32_overlong :
    (v : ℕ) (rest : List ℕ) (left : ℕ) (e : Option ErrMsg)
    → 2 ^ 32 ≤ v
    → v < 2 ^ 35
    → IsVarint (five_groups v (0 ∷ []))
      × (varint_value (five_groups v (0 ∷ [])) ≡ v)
      × (decode_varint32_eof (buffer (five_groups v (0 ∷ rest)) (6 + left) e)
          ≡ (false, some (v % 2 ^ 32), buffer rest left e))
      × (v % 2 ^ 32 ≢ v)
unfolding varint_value
decode_varint32_overlong v rest left e lo hi =
    let left₆ : 6 + left ≡ 5 + suc left = omega arith in
    (
      omega arith,
      omega arith,
      rw left₆
          (five_rounds v (0 ∷ rest) (suc left) e ∙ rw (overlong_round (v % 2 ^ 32) left rest e)),
      omega arith,
    )

-- Five groups and the sign extension of a negative int32_t, as ten bytes: `pb_decode_varint32`
-- returns the low 32 bits.
pub decode_varint32_sign_extended :
    (v : ℕ) (rest : List ℕ) (left : ℕ) (e : Option ErrMsg)
    → 2 ^ 31 ≤ v % 2 ^ 32
    → decode_varint32_eof (buffer (five_groups v (255 ∷ 255 ∷ 255 ∷ 255 ∷ 1 ∷ rest)) (10 + left) e)
      ≡ (false, some (v % 2 ^ 32), buffer rest left e)
decode_varint32_sign_extended v rest left e neg =
    let left₅ : 10 + left ≡ 5 + suc (suc (suc (suc (suc left)))) = omega arith in
    rw left₅ (
      five_rounds v (255 ∷ 255 ∷ 255 ∷ 255 ∷ 1 ∷ rest) (suc (suc (suc (suc (suc left))))) e
      ∙ rw (extension v rest left e neg))
  where
    extension :
        (v : ℕ) (rest : List ℕ) (left : ℕ) (e : Option ErrMsg)
        → 2 ^ 31 ≤ v % 2 ^ 32
        → varint32_loop
            (suc (suc (suc (suc (suc (suc left))))))
            (v % 2 ^ 32)
            35
            (buffer (255 ∷ 255 ∷ 255 ∷ 255 ∷ 1 ∷ rest) (suc (suc (suc (suc (suc left))))) e)
          ≡ (some (v % 2 ^ 32), buffer rest left e)
    extension v rest left e neg =
        extension_round 255 _ _ 35 _ _ e refl (omega arith) (omega arith) neg
        ∙ extension_round 255 _ _ 42 _ _ e refl (omega arith) (omega arith) neg
        ∙ extension_round 255 _ _ 49 _ _ e refl (omega arith) (omega arith) neg
        ∙ extension_round 255 _ _ 56 _ _ e refl (omega arith) (omega arith) neg
        ∙ extension_end _ _ rest left e neg

zero_round :
    (fuel s : ℕ) (rest : List ℕ) (left : ℕ) (e : Option ErrMsg)
    → varint32_loop (suc fuel) 0 s (buffer (128 ∷ rest) (suc left) e)
      ≡ varint32_loop fuel 0 ((s + 7) % 256) (buffer rest left e)
unfolding varint32_loop bad_extension
zero_round fuel s rest left e =
    let nothing : 0 * 2 ^ s % 2 ^ 32 ≡ 0 = omega arith in
    ground (arith, readbyte-buffer 128 rest left e, nothing, zero-bit_or (0 * 2 ^ s % 2 ^ 32))

zero_rounds :
    (n fuel s : ℕ) (rest : List ℕ) (left : ℕ) (e : Option ErrMsg)
    → s < 256
    → varint32_loop (n + fuel) 0 s (buffer (replicate n 128 ++ rest) (n + left) e)
      ≡ varint32_loop fuel 0 ((s + 7 * n) % 256) (buffer rest left e)
zero_rounds zero fuel s rest left e h =
    let same : (s + 7 * 0) % 256 ≡ s = omega arith in
    let no_round : 0 + fuel ≡ fuel = omega arith in
    let none_read : 0 + left ≡ left = omega arith in rw (same, no_round, none_read)
zero_rounds (suc n) fuel s rest left e h =
    let one_round : suc n + fuel ≡ suc (n + fuel) = omega arith in
    let one_left : suc n + left ≡ suc (n + left) = omega arith in
    let total : (s + 7 * suc n) % 256 ≡ ((s + 7) % 256 + 7 * n) % 256 = omega arith in
    rw (one_round, one_left, zero_round (n + fuel) s (replicate n 128 ++ rest) (n + left) e, total)
      (zero_rounds n fuel ((s + 7) % 256) rest left e (omega arith))

wrapped_round :
    (b fuel : ℕ) (rest : List ℕ) (left : ℕ) (e : Option ErrMsg)
    → b < 128
    → varint32_loop (suc fuel) 0 3 (buffer (b ∷ rest) (suc left) e)
      ≡ (some (b * 8), buffer rest left e)
unfolding varint32_loop
wrapped_round b fuel rest left e h =
    ground (arith, readbyte-buffer b rest left e, zero-bit_or (b * 8))

-- The eight bits of `bitpos` overflow after 37 continued bytes: a byte that stands for
-- `b * 2 ^ 259` is taken for `b * 8`, and no overflow is reported.
pub decode_varint32_wraps :
    (b : ℕ) (rest : List ℕ) (left : ℕ) (e : Option ErrMsg)
    → b < 128
    → decode_varint32_eof (buffer (replicate 37 128 ++ b ∷ rest) (38 + left) e)
      ≡ (false, some (b * 8), buffer rest left e)
unfolding decode_varint32_eof first_byte32
decode_varint32_wraps b rest left e h =
    let left₃₈ : 38 + left ≡ suc (36 + suc left) = omega arith in
    let fuel : suc (36 + suc left) ≡ 36 + suc (suc left) = omega arith in
    let run =
      zero_rounds 36 (suc (suc left)) 7 (b ∷ rest) (suc left) e (omega arith)
      ∙ wrapped_round b (suc left) rest left e h in
    rw (left₃₈, readbyte-buffer 128 (replicate 36 128 ++ b ∷ rest) (36 + suc left) e, fuel)
      (ap (λ (r : Option ℕ × IStream). (false, r.0, r.1)) run)

-- ===== src/Nanopb/RoundTrip/Varint32.antt =====
-- Integers of 32 bits, among them the negative ones: encoded, then decoded.
use ivr_repo.Base.{inr, inl, ◌⊎◌, ◌-◌, Option, some, false}
use ivr_repo.Nanopb.Descriptor.{ErrMsg}
use ivr_repo.Nanopb.Encode.{clear_last, varint_groups, varint_bytes}
use ivr_repo.Nanopb.Encode.Varint.{varint_bytes-Encodes, varint_bytes_more}
use ivr_repo.Nanopb.Input.Buffer.{buffer}
use ivr_repo.Nanopb.Varint.{decode_varint32_eof, decode_varint32}
use ivr_repo.Nanopb.Varint.Decode32.{decode_varint32-value}
use ivr_repo.Nanopb.Varint.Wide.{five_groups, decode_varint32_sign_extended}
use ivr_repo.Base.{
  ℕ, ◌+◌, ◌/◌, ◌%◌, ◌^◌, ◌≤◌, ◌<◌, ◌≡◌, refl, ap, ◌∙◌, arith, List, [], ◌∷◌, ◌++◌, length,
}

pub decode_varint32_eof-varint_bytes :
    (v : ℕ) (rest : List ℕ) (left : ℕ) (e : Option ErrMsg)
    → v < 2 ^ 32
    → decode_varint32_eof (buffer (varint_bytes v ++ rest) (length (varint_bytes v) + left) e)
      ≡ (false, some v, buffer rest left e)
decode_varint32_eof-varint_bytes v rest left e h =
    let enc = varint_bytes-Encodes v in
    decode_varint32-value (varint_bytes v) rest left e enc.shape
      (enc.short 5 (omega arith) (omega arith)) (omega (arith, enc.value))
    ∙ ap (λ k. (false, some k, buffer rest left e)) enc.value

-- What `pb_encode_varint` writes of a uint32_t, `pb_decode_varint32` reads back, whatever follows.
pub decode_varint32-varint_bytes :
    (v : ℕ) (rest : List ℕ) (left : ℕ) (e : Option ErrMsg)
    → v < 2 ^ 32
    → decode_varint32 (buffer (varint_bytes v ++ rest) (length (varint_bytes v) + left) e)
      ≡ (some v, buffer rest left e)
unfolding decode_varint32
decode_varint32-varint_bytes v rest left e h = rw (decode_varint32_eof-varint_bytes v rest left e h)

ones : varint_bytes (2 ^ 29 - 1) ≡ 255 ∷ 255 ∷ 255 ∷ 255 ∷ 1 ∷ []
unfolding varint_bytes varint_groups clear_last
ones = refl

-- The ten bytes of a negative int32_t that was widened to 64 bits.
varint_bytes_negative :
    (v : ℕ)
    → 2 ^ 64 ≤ v + 2 ^ 31
    → v < 2 ^ 64
    → varint_bytes v ≡ five_groups v (255 ∷ 255 ∷ 255 ∷ 255 ∷ 1 ∷ [])
varint_bytes_negative v lo hi =
    let e₁ = varint_bytes_more v (omega arith) in
    let e₂ = varint_bytes_more (v / 128) (omega arith) in
    let e₃ = varint_bytes_more (v / 128 / 128) (omega arith) in
    let e₄ = varint_bytes_more (v / 128 / 128 / 128) (omega arith) in
    let e₅ = varint_bytes_more (v / 128 / 128 / 128 / 128) (omega arith) in
    let ext₅ : v / 128 / 128 / 128 / 128 / 128 ≡ 2 ^ 29 - 1 = omega arith in
    let g₄ : v / 128 / 128 / 128 / 128 ≡ v / 2 ^ 28 = omega arith in
    let g₃ : v / 128 / 128 / 128 ≡ v / 2 ^ 21 = omega arith in
    let g₂ : v / 128 / 128 ≡ v / 2 ^ 14 = omega arith in
    rw (e₁, e₂, e₃, e₄, e₅, ext₅, ones, g₄, g₃, g₂)

-- An int32_t below 0 that was widened to 64 bits and written by `pb_encode_varint`:
-- `pb_decode_varint32` returns its 32-bit pattern, and takes exactly the bytes written.
pub decode_varint32_negative :
    (v : ℕ) (rest : List ℕ) (left : ℕ) (e : Option ErrMsg)
    → 2 ^ 64 ≤ v + 2 ^ 31
    → v < 2 ^ 64
    → decode_varint32 (buffer (varint_bytes v ++ rest) (length (varint_bytes v) + left) e)
      ≡ (some (v % 2 ^ 32), buffer rest left e)
unfolding decode_varint32
decode_varint32_negative v rest left e lo hi =
    rw (varint_bytes_negative v lo hi, decode_varint32_sign_extended v rest left e (omega arith))

-- What `pb_encode_varint` writes of a uint32_t, or of an int32_t below 0 that was widened to 64 bits,
-- `pb_decode_varint32` reads back as a 32-bit pattern: it takes exactly the bytes written.
pub decode_varint32-int32 :
    (v : ℕ) (rest : List ℕ) (left : ℕ) (e : Option ErrMsg)
    → (v < 2 ^ 32) ⊎ ((2 ^ 64 ≤ v + 2 ^ 31) × (v < 2 ^ 64))
    → decode_varint32 (buffer (varint_bytes v ++ rest) (length (varint_bytes v) + left) e)
      ≡ (some (v % 2 ^ 32), buffer rest left e)
decode_varint32-int32 v rest left e (inl h) =
    let low : v ≡ v % 2 ^ 32 = omega (arith, h) in
    decode_varint32-varint_bytes v rest left e h ∙ ap (λ k. (some k, buffer rest left e)) low
decode_varint32-int32 v rest left e (inr (lo, hi)) = decode_varint32_negative v rest left e lo hi

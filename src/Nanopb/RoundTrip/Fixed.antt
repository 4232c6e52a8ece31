-- ===== src/Nanopb/RoundTrip/Fixed.antt =====
-- Integers of four and eight bytes: encoded, then decoded.
use ivr_repo.Base.{ℕ, ◌+◌, ◌*◌, ◌/◌, ◌%◌, ◌^◌, ◌<◌, ◌≡◌, refl, ◌∙◌, arith, List, ◌++◌, Option}
use ivr_repo.Base.{some, bit_or, length}
use ivr_repo.Base.Bits.{bit_or_low_high}
use ivr_repo.Nanopb.Decode.{fixed32_value, fixed64_value, decode_fixed32, decode_fixed64}
use ivr_repo.Nanopb.Descriptor.{ErrMsg}
use ivr_repo.Nanopb.Encode.{fixed32_bytes, fixed64_bytes}
use ivr_repo.Nanopb.Input.Buffer.{buffer, read-buffer_front}

joined_32 : (v : ℕ) → v < 2 ^ 32 → fixed32_value (fixed32_bytes v) ≡ v
unfolding fixed32_value fixed32_bytes
joined_32 v h =
    rw
      (
        bit_or_low_high 8 (v % 256) (v / 2 ^ 8 % 256) (omega arith),
        bit_or_low_high 16 (v % 256 + v / 2 ^ 8 % 256 * 2 ^ 8) (v / 2 ^ 16 % 256) (omega arith),
        bit_or_low_high 24 (v % 256 + v / 2 ^ 8 % 256 * 2 ^ 8 + v / 2 ^ 16 % 256 * 2 ^ 16)
            (v / 2 ^ 24 % 256) (omega arith),
      )
      (omega arith)

-- The first `k` bits of `v`, and the byte above them.
join_8 : (v : ℕ) → bit_or (v % 2 ^ 8) (v / 2 ^ 8 % 256 * 2 ^ 8) ≡ v % 2 ^ 16
join_8 v = bit_or_low_high 8 (v % 2 ^ 8) (v / 2 ^ 8 % 256) (omega arith) ∙ omega arith

join_16 : (v : ℕ) → bit_or (v % 2 ^ 16) (v / 2 ^ 16 % 256 * 2 ^ 16) ≡ v % 2 ^ 24
join_16 v = bit_or_low_high 16 (v % 2 ^ 16) (v / 2 ^ 16 % 256) (omega arith) ∙ omega arith

join_24 : (v : ℕ) → bit_or (v % 2 ^ 24) (v / 2 ^ 24 % 256 * 2 ^ 24) ≡ v % 2 ^ 32
join_24 v = bit_or_low_high 24 (v % 2 ^ 24) (v / 2 ^ 24 % 256) (omega arith) ∙ omega arith

join_32 : (v : ℕ) → bit_or (v % 2 ^ 32) (v / 2 ^ 32 % 256 * 2 ^ 32) ≡ v % 2 ^ 40
join_32 v = bit_or_low_high 32 (v % 2 ^ 32) (v / 2 ^ 32 % 256) (omega arith) ∙ omega arith

join_40 : (v : ℕ) → bit_or (v % 2 ^ 40) (v / 2 ^ 40 % 256 * 2 ^ 40) ≡ v % 2 ^ 48
join_40 v = bit_or_low_high 40 (v % 2 ^ 40) (v / 2 ^ 40 % 256) (omega arith) ∙ omega arith

join_48 : (v : ℕ) → bit_or (v % 2 ^ 48) (v / 2 ^ 48 % 256 * 2 ^ 48) ≡ v % 2 ^ 56
join_48 v = bit_or_low_high 48 (v % 2 ^ 48) (v / 2 ^ 48 % 256) (omega arith) ∙ omega arith

join_56 : (v : ℕ) → v < 2 ^ 64 → bit_or (v % 2 ^ 56) (v / 2 ^ 56 % 256 * 2 ^ 56) ≡ v
join_56 v h = bit_or_low_high 56 (v % 2 ^ 56) (v / 2 ^ 56 % 256) (omega arith) ∙ omega arith

joined_64 : (v : ℕ) → v < 2 ^ 64 → fixed64_value (fixed64_bytes v) ≡ v
unfolding fixed64_value fixed64_bytes
joined_64 v h = rw (join_8 v, join_16 v, join_24 v, join_32 v, join_40 v, join_48 v, join_56 v h)

pub length-fixed32_bytes : (v : ℕ) → length (fixed32_bytes v) ≡ 4
unfolding fixed32_bytes
length-fixed32_bytes v = refl

pub length-fixed64_bytes : (v : ℕ) → length (fixed64_bytes v) ≡ 8
unfolding fixed64_bytes
length-fixed64_bytes v = refl

-- `pb_decode_fixed32` reads back the four bytes that `pb_encode_fixed32` writes of a uint32_t, and
-- `pb_decode_fixed64` the eight bytes of a uint64_t; whatever follows them is left.
pub decode_fixed-fixed_bytes :
    (v w : ℕ) (rest : List ℕ) (left : ℕ) (e : Option ErrMsg)
    → v < 2 ^ 32
    → w < 2 ^ 64
    → (decode_fixed32 (buffer (fixed32_bytes v ++ rest) (4 + left) e)
        ≡ (some v, buffer rest left e))
      × (decode_fixed64 (buffer (fixed64_bytes w ++ rest) (8 + left) e)
          ≡ (some w, buffer rest left e))
unfolding decode_fixed32 decode_fixed64
decode_fixed-fixed_bytes v w rest left e hv hw = (
  rw (read-buffer_front 4 (fixed32_bytes v) rest left e (length-fixed32_bytes v), joined_32 v hv),
  rw (read-buffer_front 8 (fixed64_bytes w) rest left e (length-fixed64_bytes w), joined_64 w hw),
)

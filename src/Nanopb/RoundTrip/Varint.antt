-- ===== src/Nanopb/RoundTrip/Varint.antt =====
-- Integers of variable length: encoded, then decoded.
use ivr_repo.Base.{ℕ, ◌+◌, ◌^◌, ◌<◌, ◌≡◌, ap, ◌∙◌, arith, List, ◌++◌, length, Option, some}
use ivr_repo.Nanopb.Decode.{decode_svarint, unzigzag}
use ivr_repo.Nanopb.Descriptor.{ErrMsg}
use ivr_repo.Nanopb.Encode.{varint_bytes, zigzag}
use ivr_repo.Nanopb.Encode.Varint.{varint_bytes-Encodes, length-varint_bytes}
use ivr_repo.Nanopb.Input.Buffer.{buffer}
use ivr_repo.Nanopb.Varint.{decode_varint}
use ivr_repo.Nanopb.Varint.Decode.{decode_varint-value}

-- Whatever stands behind the bytes that `pb_encode_varint` wrote of a uint64_t, `pb_decode_varint`
-- returns that number and leaves the stream just behind them.
pub decode_varint-varint_bytes :
    (v : ℕ) (rest : List ℕ) (left : ℕ) (e : Option ErrMsg)
    → v < 2 ^ 64
    → decode_varint (buffer (varint_bytes v ++ rest) (length (varint_bytes v) + left) e)
      ≡ (some v, buffer rest left e)
decode_varint-varint_bytes v rest left e h =
    let enc = varint_bytes-Encodes v in
    decode_varint-value (varint_bytes v) rest left e enc.shape (length-varint_bytes v h).1
    ∙ ap (λ k. (some k, buffer rest left e)) (omega (arith, enc.value))

pub zigzag-lt : (v : ℕ) → v < 2 ^ 64 → zigzag v < 2 ^ 64
unfolding zigzag
zigzag-lt v h = ground arith

pub unzigzag-zigzag : (v : ℕ) → v < 2 ^ 64 → unzigzag (zigzag v) ≡ v
unfolding zigzag unzigzag
unzigzag-zigzag v h = ground arith

-- The same of `pb_encode_svarint` and `pb_decode_svarint`, on the bit pattern of an int64_t.
pub decode_svarint-zigzag :
    (v : ℕ) (rest : List ℕ) (left : ℕ) (e : Option ErrMsg)
    → v < 2 ^ 64
    → let bs = varint_bytes (zigzag v) in
      decode_svarint (buffer (bs ++ rest) (length bs + left) e) ≡ (some v, buffer rest left e)
unfolding decode_svarint
decode_svarint-zigzag v rest left e h =
    rw (decode_varint-varint_bytes (zigzag v) rest left e (zigzag-lt v h), unzigzag-zigzag v h)

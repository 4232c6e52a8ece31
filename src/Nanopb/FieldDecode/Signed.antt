-- ===== src/Nanopb/FieldDecode/Signed.antt =====
-- `pb_dec_varint` and `pb_dec_svarint`, behind the encoder.
use ivr_repo.Base.{ℕ, ◌+◌, ◌*◌, ◌^◌, ◌<◌, ◌≡◌, inl, inr, arith, true, if◌then◌else◌, Option, List}
use ivr_repo.Base.{◌++◌, length, ◌==◌}
use ivr_repo.Nanopb.Descriptor.{Field, ErrMsg}
use ivr_repo.Nanopb.Encode.{varint_bytes, zigzag}
use ivr_repo.Nanopb.FieldDecode.{store_clamped, store_signed, clamp_signed, dec_varint}
use ivr_repo.Nanopb.FieldDecode.{dec_svarint}
use ivr_repo.Nanopb.FieldDecode.Integers.{IsIntSize}
use ivr_repo.Nanopb.Input.{IStream}
use ivr_repo.Nanopb.Input.Buffer.{buffer}
use ivr_repo.Nanopb.Memory.{Memory, sign_extend}
use ivr_repo.Nanopb.Memory.Store.{store, le_bytes}
use ivr_repo.Nanopb.RoundTrip.Varint.{decode_varint-varint_bytes, decode_svarint-zigzag}

-- The low bytes of a number are those of its pattern.
bytes_of_extended :
    (n v : ℕ) → IsIntSize n → v < 256 ^ n → le_bytes n (sign_extend (8 * n) v) ≡ le_bytes n v
unfolding le_bytes sign_extend
bytes_of_extended n v (inl e) h = let h' = rw e at h in rw e (ground arith)
bytes_of_extended n v (inr (inl e)) h = let h' = rw e at h in rw e (ground arith)
bytes_of_extended n v (inr (inr (inl e))) h = let h' = rw e at h in rw e (ground arith)
bytes_of_extended n v (inr (inr (inr e))) h = let h' = rw e at h in rw e (ground arith)

extended-lt : (n v : ℕ) → IsIntSize n → v < 256 ^ n → sign_extend (8 * n) v < 2 ^ 64
unfolding sign_extend
extended-lt n v (inl e) h = let h' = rw e at h in rw e (ground arith)
extended-lt n v (inr (inl e)) h = let h' = rw e at h in rw e (ground arith)
extended-lt n v (inr (inr (inl e))) h = let h' = rw e at h in rw e (ground arith)
extended-lt n v (inr (inr (inr e))) h = let h' = rw e at h in rw e (ground arith)

-- Cast to an int32_t and widened, the pattern is as it was.
clamp_extended :
    (n v : ℕ)
    → IsIntSize n
    → v < 256 ^ n
    → (if n == 8 then sign_extend (8 * n) v else clamp_signed 32 (sign_extend (8 * n) v))
      ≡ sign_extend (8 * n) v
unfolding sign_extend
clamp_extended n v (inl e) h = let h' = rw e at h in rw e (ground arith)
clamp_extended n v (inr (inl e)) h = let h' = rw e at h in rw e (ground arith)
clamp_extended n v (inr (inr (inl e))) h = let h' = rw e at h in rw e (ground arith)
clamp_extended n v (inr (inr (inr e))) h = let h' = rw e at h in rw e (ground arith)

module _ (field : Field) (dest : ℕ) (mem : Memory) (s : IStream) where
  store_extended :
      (v : ℕ)
      → IsIntSize field.data_size
      → v < 256 ^ field.data_size
      → store_signed field (sign_extend (8 * field.data_size) v) dest mem s
        ≡ (true, store field.data_size (sign_extend (8 * field.data_size) v) mem dest, s)
  unfolding store_signed store_clamped sign_extend
  store_extended v (inl e) h = let h' = rw e at h in rw e (ground arith)
  store_extended v (inr (inl e)) h = let h' = rw e at h in rw e (ground arith)
  store_extended v (inr (inr (inl e))) h = let h' = rw e at h in rw e (ground arith)
  store_extended v (inr (inr (inr e))) h = let h' = rw e at h in rw e (ground arith)

-- Of a signed number in the memory, whose `n` bytes are the number `v`, `pb_enc_varint` encodes the
-- 64-bit pattern, and `pb_enc_svarint` that pattern's zigzag code: `pb_dec_varint` and
-- `pb_dec_svarint` store `v` in a field of the same size, and leave the stream just behind the bytes.
pub dec_varint-sign_extend :
    (field : Field) (v dest : ℕ) (mem : Memory) (rest : List ℕ) (left : ℕ) (e : Option ErrMsg)
    → IsIntSize field.data_size
    → v < 256 ^ field.data_size
    → let pattern = sign_extend (8 * field.data_size) v in
      let bs = varint_bytes pattern in
      let zs = varint_bytes (zigzag pattern) in
      (dec_varint field dest mem (buffer (bs ++ rest) (length bs + left) e)
        ≡ (true, store field.data_size v mem dest, buffer rest left e))
      × (dec_svarint field dest mem (buffer (zs ++ rest) (length zs + left) e)
          ≡ (true, store field.data_size v mem dest, buffer rest left e))
unfolding dec_varint dec_svarint
dec_varint-sign_extend field v dest mem rest left e size h =
    let pattern = sign_extend (8 * field.data_size) v in
    let small = extended-lt field.data_size v size h in
    let same = bytes_of_extended field.data_size v size h in
    let stored = rw same at (store_extended field dest mem (buffer rest left e) v size h) in
    (
      rw
          (
            decode_varint-varint_bytes pattern rest left e small,
            clamp_extended field.data_size v size h,
          )
          stored,
      rw (decode_svarint-zigzag pattern rest left e small) stored,
    )

-- ===== src/Nanopb/FieldDecode/Integers.antt =====
-- `pb_dec_uvarint`, behind `pb_encode_varint`.
use ivr_repo.Base.{ℕ, ◌+◌, ◌^◌, ◌≤◌, ◌<◌, ◌≡◌, ◌⊎◌, inl, inr, arith, true, false, Option, List}
use ivr_repo.Base.{◌++◌, length}
use ivr_repo.Nanopb.Descriptor.{Field, ErrMsg, set_error, integer_too_large}
use ivr_repo.Nanopb.Encode.{varint_bytes}
use ivr_repo.Nanopb.FieldDecode.{store_clamped, store_unsigned, dec_uvarint}
use ivr_repo.Nanopb.Input.{IStream}
use ivr_repo.Nanopb.Input.Buffer.{buffer}
use ivr_repo.Nanopb.Memory.{Memory, load}
use ivr_repo.Nanopb.Memory.Store.{store, load-store}
use ivr_repo.Nanopb.RoundTrip.Varint.{decode_varint-varint_bytes}

-- The sizes of the integer types.
abbrev pub IsIntSize : ℕ → Type 0
IsIntSize n = (n ≡ 1) ⊎ ((n ≡ 2) ⊎ ((n ≡ 4) ⊎ (n ≡ 8)))

module _ (field : Field) (dest : ℕ) (mem : Memory) (s : IStream) where
  store_unsigned-fits :
      (v : ℕ)
      → IsIntSize field.data_size
      → v < 256 ^ field.data_size
      → store_unsigned field v dest mem s ≡ (true, store field.data_size v mem dest, s)
  unfolding store_unsigned store_clamped
  store_unsigned-fits v (inl n) h = let h' = rw n at h in rw n (ground arith)
  store_unsigned-fits v (inr (inl n)) h = let h' = rw n at h in rw n (ground arith)
  store_unsigned-fits v (inr (inr (inl n))) h = let h' = rw n at h in rw n (ground arith)
  store_unsigned-fits v (inr (inr (inr n))) h = let h' = rw n at h in rw n (ground arith)

  store_unsigned-too_large :
      (v : ℕ)
      → IsIntSize field.data_size
      → 256 ^ field.data_size ≤ v
      → v < 2 ^ 64
      → store_unsigned field v dest mem s ≡ (
        false,
        store field.data_size v mem dest,
        record s { errmsg = set_error s.errmsg integer_too_large },
      )
  unfolding store_unsigned store_clamped
  store_unsigned-too_large v (inl n) h hv = let h' = rw n at h in rw n (ground arith)
  store_unsigned-too_large v (inr (inl n)) h hv = let h' = rw n at h in rw n (ground arith)
  store_unsigned-too_large v (inr (inr (inl n))) h hv = let h' = rw n at h in rw n (ground arith)
  store_unsigned-too_large v (inr (inr (inr n))) h hv = let h' = rw n at h in absurd (omega arith)

size_bound : (n v : ℕ) → IsIntSize n → v < 256 ^ n → v < 2 ^ 64
size_bound n v (inl e) h = let h' = rw e at h in omega arith
size_bound n v (inr (inl e)) h = let h' = rw e at h in omega arith
size_bound n v (inr (inr (inl e))) h = let h' = rw e at h in omega arith
size_bound n v (inr (inr (inr e))) h = let h' = rw e at h in omega arith

-- `pb_dec_uvarint` stores a number that fits the field, as `pb_encode_varint` wrote it, so that it is
-- read from the memory again, and leaves the stream just behind its bytes.
pub dec_uvarint-varint_bytes :
    (field : Field) (v dest : ℕ) (mem : Memory) (rest : List ℕ) (left : ℕ) (e : Option ErrMsg)
    → IsIntSize field.data_size
    → v < 256 ^ field.data_size
    → (dec_uvarint field dest mem
          (buffer (varint_bytes v ++ rest) (length (varint_bytes v) + left) e)
        ≡ (true, store field.data_size v mem dest, buffer rest left e))
      × (load field.data_size (store field.data_size v mem dest) dest ≡ v)
unfolding dec_uvarint
dec_uvarint-varint_bytes field v dest mem rest left e size h =
    let read = decode_varint-varint_bytes v rest left e (size_bound field.data_size v size h) in
    (
      rw read (store_unsigned-fits field dest mem (buffer rest left e) v size h),
      load-store field.data_size v mem dest h,
    )

-- A number that does not fit the field is "integer too large", behind its bytes.
pub dec_uvarint_too_large :
    (field : Field) (v dest : ℕ) (mem : Memory) (rest : List ℕ) (left : ℕ) (e : Option ErrMsg)
    → IsIntSize field.data_size
    → 256 ^ field.data_size ≤ v
    → v < 2 ^ 64
    → dec_uvarint field dest mem
        (buffer (varint_bytes v ++ rest) (length (varint_bytes v) + left) e)
      ≡ (false, store field.data_size v mem dest, buffer rest left (set_error e integer_too_large))
unfolding dec_uvarint
dec_uvarint_too_large field v dest mem rest left e size h hv =
    rw (decode_varint-varint_bytes v rest left e hv)
      (store_unsigned-too_large field dest mem (buffer rest left e) v size h hv)

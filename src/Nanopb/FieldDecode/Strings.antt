-- ===== src/Nanopb/FieldDecode/Strings.antt =====
-- `pb_dec_string` and `pb_dec_bytes`, behind `pb_encode_string`.
use ivr_repo.Base.{refl, le→not_ltb}
use ivr_repo.Nanopb.Descriptor.{Field, ErrMsg, atype}
use ivr_repo.Nanopb.Encode.{varint_bytes}
use ivr_repo.Nanopb.FieldDecode.{read_into, read_bytes, bytes_of_size, dec_bytes, string_of_size}
use ivr_repo.Nanopb.FieldDecode.{dec_string, terminate}
use ivr_repo.Nanopb.Input.Buffer.{buffer, read-buffer_front}
use ivr_repo.Nanopb.Memory.{Memory}
use ivr_repo.Nanopb.Memory.Store.{store, store_bytes, store_byte}
use ivr_repo.Nanopb.RoundTrip.Varint32.{decode_varint32-varint_bytes}
use ivr_repo.Base.{
  ℕ, ◌+◌, ◌%◌, ◌^◌, ◌≤◌, ◌<◌, ◌≡◌, arith, true, Option, List, ◌++◌, length, take_all,
}
use ivr_repo.Nanopb.Descriptor

module _ (bs rest : List ℕ) (left : ℕ) (e : Option ErrMsg) where
  read_into-front :
      (dest : ℕ) (mem : Memory)
      → read_into (length bs) dest mem (buffer (bs ++ rest) (length bs + left) e)
        ≡ (true, store_bytes bs mem dest, buffer rest left e)
  unfolding read_into
  read_into-front dest mem =
      rw (read-buffer_front (length bs) bs rest left e refl, take_all (length bs) bs (omega arith))

  module _ (realloc : Memory → ℕ → ℕ → ℕ × Memory) (field : Field) (dest : ℕ) (mem : Memory) where
    string-front :
        atype field.type ≡ Descriptor.atype_static
        → length bs < field.data_size
        → field.data_size < 2 ^ 32
        → string_of_size realloc field dest
            (length bs)
            mem
            (buffer (bs ++ rest) (length bs + left) e)
          ≡ (true, store_byte (store_bytes bs mem dest) (dest + length bs) 0, buffer rest left e)
    unfolding string_of_size terminate
    string-front static room small =
        let whole : (length bs + 1) % 2 ^ 32 ≡ length bs + 1 = omega arith in
        rw (
          static,
          whole,
          le→not_ltb (length bs + 1) (length bs) (omega arith),
          le→not_ltb field.data_size (length bs + 1) (omega arith),
          read_into-front dest mem,
        )

    bytes-front :
        atype field.type ≡ Descriptor.atype_static
        → length bs + 4 ≤ field.data_size
        → field.data_size < 2 ^ 32
        → bytes_of_size realloc field dest
            (length bs)
            mem
            (buffer (bs ++ rest) (length bs + left) e)
          ≡ (true, store_bytes bs (store 4 (length bs) mem dest) (dest + 4), buffer rest left e)
    unfolding bytes_of_size read_bytes
    bytes-front static room small = rw (
      static,
      le→not_ltb Descriptor.size_max (length bs) (omega arith),
      le→not_ltb (length bs + 4) (length bs) (omega arith),
      le→not_ltb field.data_size (length bs + 4) (omega arith),
      read_into-front (dest + 4) (store 4 (length bs) mem dest),
    )

-- The bytes `bs` behind their length, as `pb_encode_string` writes them, and a static field of at
-- least four bytes more, but less than 2 ^ 32: `pb_dec_string` stores them in the field with a 0 behind
-- them, and `pb_dec_bytes` their number and then them. What follows the bytes is left.
pub dec_string-varint_bytes :
    (realloc : Memory → ℕ → ℕ → ℕ × Memory) (field : Field) (dest : ℕ) (mem : Memory)
    (bs rest : List ℕ) (left : ℕ) (e : Option ErrMsg)
    → atype field.type ≡ Descriptor.atype_static
    → length bs + 4 ≤ field.data_size
    → field.data_size < 2 ^ 32
    → let front = varint_bytes (length bs) in
      let s = buffer (front ++ (bs ++ rest)) (length front + (length bs + left)) e in
      (dec_string realloc field dest mem s
        ≡ (true, store_byte (store_bytes bs mem dest) (dest + length bs) 0, buffer rest left e))
      × (dec_bytes realloc field dest mem s
          ≡ (true, store_bytes bs (store 4 (length bs) mem dest) (dest + 4), buffer rest left e))
unfolding dec_string dec_bytes
dec_string-varint_bytes realloc field dest mem bs rest left e static room small =
    let read =
      decode_varint32-varint_bytes (length bs) (bs ++ rest) (length bs + left) e (omega arith) in
    (
      rw read (string-front bs rest left e realloc field dest mem static (omega arith) small),
      rw read (bytes-front bs rest left e realloc field dest mem static room small),
    )

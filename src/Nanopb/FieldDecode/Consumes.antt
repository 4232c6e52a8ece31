-- ===== src/Nanopb/FieldDecode/Consumes.antt =====
-- The bytes left of a stream, over the field decoders.
use ivr_repo.Base.{◌||◌, ◌+◌, ltb, Bool-cases, inr, inl, ◌⊎◌, ◌≡◌, take, ◌≤◌, ◌==◌, arith, ℕ}
use ivr_repo.Base.{Bool, true, false}
use ivr_repo.Nanopb.Decode.Shrinks.{decode_varint32-Shrinks, decode_varint-Shrinks}
use ivr_repo.Nanopb.Decode.Shrinks.{decode_svarint-Shrinks, decode_fixed64-Shrinks}
use ivr_repo.Nanopb.Decode.Shrinks.{decode_fixed32-Shrinks}
use ivr_repo.Nanopb.Descriptor.{string_overflow, incorrect_fixed_length_bytes_size}
use ivr_repo.Nanopb.Descriptor.{bytes_overflow, atype, size_too_large, size_max, invalid_size}
use ivr_repo.Nanopb.Descriptor.{realloc_failed, integer_too_large, invalid_data_size, Field}
use ivr_repo.Nanopb.Descriptor.{ErrMsg}
use ivr_repo.Nanopb.FieldDecode.{load, too_large, terminate, string_of_size, store_pointer}
use ivr_repo.Nanopb.FieldDecode.{read_bytes, fixed_length_of_size, dec_string}
use ivr_repo.Nanopb.FieldDecode.{dec_fixed_length_bytes, dec_bytes, bytes_of_size, allocate_field}
use ivr_repo.Nanopb.FieldDecode.{store, store_bytes, done, IStream, store_unsigned, store_signed}
use ivr_repo.Nanopb.FieldDecode.{store_clamped, read_into, dec_varint, dec_uvarint, dec_svarint}
use ivr_repo.Nanopb.FieldDecode.{dec_fixed64, dec_fixed32}
use ivr_repo.Nanopb.FieldDecode.Kept.{Kept, Consumes, Kept-le, here-Kept, error-Kept, if-Kept}
use ivr_repo.Nanopb.FieldDecode.Kept.{if-Consumes, on_done-Kept, error-Consumes, value-Consumes}
use ivr_repo.Nanopb.Input.Shrinks.{read-Shrinks}
use ivr_repo.Nanopb.Memory.{Memory}
use ivr_repo.Nanopb.Descriptor

store_clamped-Consumes : (size clamped v dest : ℕ) → Consumes (store_clamped size clamped v dest)
unfolding store_clamped
store_clamped-Consumes size clamped v dest = record {
  left = λ mem s. pick mem s (Bool-cases (clamped == v));
}
  where
    pick :
        (mem : Memory) (s : IStream)
        → ((clamped == v) ≡ true) ⊎ ((clamped == v) ≡ false)
        → Kept s.bytes_left (store_clamped size clamped v dest mem s)
    pick mem s (inl same) = rw same (here-Kept true _ s (omega arith))
    pick mem s (inr other) = rw other (error-Kept integer_too_large _ s (omega arith))

store_signed-Consumes : (field : Field) (v dest : ℕ) → Consumes (store_signed field v dest)
unfolding store_signed
store_signed-Consumes field v dest =
    if-Consumes (field.data_size == 8) (store_clamped-Consumes 8 v v dest) (
      if-Consumes (field.data_size == 4) (store_clamped-Consumes 4 _ v dest) (
        if-Consumes (field.data_size == 2) (store_clamped-Consumes 2 _ v dest) (
          if-Consumes (field.data_size == 1) (store_clamped-Consumes 1 _ v dest)
            (error-Consumes invalid_data_size))))

store_unsigned-Consumes : (field : Field) (v dest : ℕ) → Consumes (store_unsigned field v dest)
unfolding store_unsigned
store_unsigned-Consumes field v dest =
    if-Consumes (field.data_size == 8) (store_clamped-Consumes 8 v v dest) (
      if-Consumes (field.data_size == 4) (store_clamped-Consumes 4 _ v dest) (
        if-Consumes (field.data_size == 2) (store_clamped-Consumes 2 _ v dest) (
          if-Consumes (field.data_size == 1) (store_clamped-Consumes 1 _ v dest)
            (error-Consumes invalid_data_size))))

pub dec_varint-Consumes : (field : Field) (dest : ℕ) → Consumes (dec_varint field dest)
unfolding dec_varint
dec_varint-Consumes field dest =
    value-Consumes decode_varint-Shrinks (λ v. store_signed-Consumes field _ dest)

pub dec_uvarint-Consumes : (field : Field) (dest : ℕ) → Consumes (dec_uvarint field dest)
unfolding dec_uvarint
dec_uvarint-Consumes field dest =
    value-Consumes decode_varint-Shrinks (λ v. store_unsigned-Consumes field v dest)

pub dec_svarint-Consumes : (field : Field) (dest : ℕ) → Consumes (dec_svarint field dest)
unfolding dec_svarint
dec_svarint-Consumes field dest =
    value-Consumes decode_svarint-Shrinks (λ v. store_signed-Consumes field v dest)

-- A value that is stored.
stored-Consumes : (f : Memory → Memory) → Consumes (λ mem. done (f mem))
stored-Consumes f = record { left = λ mem s. here-Kept true (f mem) s (omega arith) }

pub dec_fixed32-Consumes : (field : Field) (dest : ℕ) → Consumes (dec_fixed32 field dest)
unfolding dec_fixed32
dec_fixed32-Consumes field dest =
    value-Consumes decode_fixed32-Shrinks (λ v. stored-Consumes (λ mem. store 4 v mem dest))

pub dec_fixed64-Consumes : (field : Field) (dest : ℕ) → Consumes (dec_fixed64 field dest)
unfolding dec_fixed64
dec_fixed64-Consumes field dest =
    value-Consumes decode_fixed64-Shrinks (λ v. stored-Consumes (λ mem. store 8 v mem dest))

read_into-Consumes : (size dest : ℕ) → Consumes (read_into size dest)
unfolding read_into
read_into-Consumes size dest =
    value-Consumes (read-Shrinks size)
      (λ bytes. stored-Consumes (λ mem. store_bytes (take size bytes) mem dest))

read_bytes-Consumes : (size bdest : ℕ) → Consumes (read_bytes size bdest)
unfolding read_bytes
read_bytes-Consumes size bdest = record {
  left = λ mem s. (read_into-Consumes size (bdest + 4)).left (store 4 size mem bdest) s;
}

terminate-Kept : {n : ℕ} (p : ℕ) {r : Bool × Memory × IStream} → Kept n r → Kept n (terminate p r)
unfolding terminate
terminate-Kept {n} p {r} h = after r h.most
  where
    after : (r : Bool × Memory × IStream) → r.2.bytes_left ≤ n → Kept n (terminate p r)
    after (status, mem, s) most = record { most = most }

module _ (realloc : Memory → ℕ → ℕ → ℕ × Memory) where
  store_pointer-Kept :
      {n : ℕ} (p_data : ℕ) (r : ℕ × Memory) (s : IStream)
      → s.bytes_left ≤ n
      → Kept n (store_pointer realloc p_data r s)
  unfolding store_pointer
  store_pointer-Kept p_data (ptr, mem) s h =
      if-Kept (ptr == 0) (error-Kept realloc_failed mem s h) (here-Kept true _ s h)

  pub allocate_field-Kept :
      {n : ℕ} (p_data data_size array_size : ℕ) (mem : Memory) (s : IStream)
      → s.bytes_left ≤ n
      → Kept n (allocate_field realloc p_data data_size array_size mem s)
  unfolding allocate_field
  allocate_field-Kept p_data data_size array_size mem s h =
      if-Kept (data_size == 0 || array_size == 0) (error-Kept invalid_size mem s h) (
        if-Kept (too_large data_size array_size) (error-Kept size_too_large mem s h)
          (store_pointer-Kept p_data _ s h))

  bytes_of_size-Consumes :
      (field : Field) (dest size : ℕ) → Consumes (bytes_of_size realloc field dest size)
  unfolding bytes_of_size
  bytes_of_size-Consumes field dest size = record {
    left = λ mem s.
        let here : s.bytes_left ≤ s.bytes_left = omega arith in
        if-Kept (ltb size_max size) (error-Kept bytes_overflow mem s here) (
          if-Kept (ltb (size + 4) size) (error-Kept size_too_large mem s here) (
            if-Kept (atype field.type == Descriptor.atype_pointer)
              (on_done-Kept (allocate_field-Kept dest (size + 4) 1 mem s here)
                (λ mem s h. Kept-le ((read_bytes-Consumes size (load 8 mem dest)).left mem s) h))
              (if-Kept (ltb field.data_size (size + 4)) (error-Kept bytes_overflow mem s here)
                ((read_bytes-Consumes size dest).left mem s))));
  }

  pub dec_bytes-Consumes : (field : Field) (dest : ℕ) → Consumes (dec_bytes realloc field dest)
  unfolding dec_bytes
  dec_bytes-Consumes field dest =
      value-Consumes decode_varint32-Shrinks (bytes_of_size-Consumes field dest)

  string_of_size-Consumes :
      (field : Field) (dest size : ℕ) → Consumes (string_of_size realloc field dest size)
  unfolding string_of_size
  string_of_size-Consumes field dest size = record {
    left = λ mem s.
        let here : s.bytes_left ≤ s.bytes_left = omega arith in
        if-Kept (ltb _ size) (error-Kept size_too_large mem s here) (
          if-Kept (atype field.type == Descriptor.atype_pointer)
            (on_done-Kept (allocate_field-Kept dest _ 1 mem s here) (λ mem s h.
              terminate-Kept (load 8 mem dest + size)
                (Kept-le ((read_into-Consumes size (load 8 mem dest)).left mem s) h)))
            (if-Kept (ltb field.data_size _) (error-Kept string_overflow mem s here)
              (terminate-Kept (dest + size) ((read_into-Consumes size dest).left mem s))));
  }

  pub dec_string-Consumes : (field : Field) (dest : ℕ) → Consumes (dec_string realloc field dest)
  unfolding dec_string
  dec_string-Consumes field dest =
      value-Consumes decode_varint32-Shrinks (string_of_size-Consumes field dest)

fixed_length_of_size-Consumes :
    (field : Field) (dest size : ℕ) → Consumes (fixed_length_of_size field dest size)
unfolding fixed_length_of_size
fixed_length_of_size-Consumes field dest size = record {
  left = λ mem s.
      let here : s.bytes_left ≤ s.bytes_left = omega arith in
      if-Kept (ltb size_max size) (error-Kept bytes_overflow mem s here) (
        if-Kept (size == 0) (here-Kept true _ s here) (
          if-Kept (size == field.data_size) ((read_into-Consumes field.data_size dest).left mem s)
            (error-Kept incorrect_fixed_length_bytes_size mem s here)));
}

pub dec_fixed_length_bytes-Consumes :
    (field : Field) (dest : ℕ) → Consumes (dec_fixed_length_bytes field dest)
unfolding dec_fixed_length_bytes
dec_fixed_length_bytes-Consumes field dest =
    value-Consumes decode_varint32-Shrinks (fixed_length_of_size-Consumes field dest)

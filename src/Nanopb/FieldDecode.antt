-- ===== src/Nanopb/FieldDecode.antt =====
-- nanopb/pb_decode.c: the field decoders of PB_DECODERS and `allocate_field`, on a memory.
pub mod Integers
pub mod Signed
pub mod Safety
pub mod Allocate
pub mod Strings
pub mod Kept
pub mod Consumes
mod Examples
use ivr_repo.Base.{ℕ, ◌+◌, ◌-◌, ◌*◌, ◌/◌, ◌%◌, ◌^◌, Bool, true, false, ◌&&◌, ◌||◌, Option, none}
use ivr_repo.Base.{some, take, ltb, leb, ◌==◌, if◌then◌else◌, replicate}
use ivr_repo.Nanopb.Decode.{decode_svarint, decode_fixed32, decode_fixed64}
use ivr_repo.Nanopb.Descriptor.{Field, ErrMsg, set_error, atype, word, size_max}
use ivr_repo.Nanopb.Descriptor.{invalid_data_size, integer_too_large, bytes_overflow}
use ivr_repo.Nanopb.Descriptor.{string_overflow, size_too_large, invalid_size, realloc_failed}
use ivr_repo.Nanopb.Descriptor.{incorrect_fixed_length_bytes_size}
use ivr_repo.Nanopb.Input.{IStream, read}
use ivr_repo.Nanopb.Memory.{Memory, load, sign_extend}
use ivr_repo.Nanopb.Memory.Store.{store, store_bytes, store_byte}
use ivr_repo.Nanopb.Varint.{decode_varint, decode_varint32}
use ivr_repo.Nanopb.Descriptor

-- A decoder returns whether it succeeds, and the memory and the stream after it.
abbrev pub Decoder : Type 0
Decoder = Memory → IStream → Bool × Memory × IStream

abbrev pub done : Decoder
done mem s = (true, mem, s)

-- PB_RETURN_ERROR
abbrev pub decode_error : ErrMsg → Decoder
decode_error m mem s = (false, mem, record s { errmsg = set_error s.errmsg m })

-- What follows a read of a value, if that succeeded.
abbrev pub on_value :
    {A : Type 0} → Option A × IStream → Memory → (A → Decoder) → Bool × Memory × IStream
on_value (none, s) mem k = (false, mem, s)
on_value (some a, s) mem k = k a mem s

abbrev pub on_done : Bool × Memory × IStream → Decoder → Bool × Memory × IStream
on_done (false, mem, s) k = (false, mem, s)
on_done (true, mem, s) k = k mem s

-- `size` bytes of the value are stored; `clamped` is the value that they hold, widened.
unfoldable pub store_clamped : ℕ → ℕ → ℕ → ℕ → Decoder
store_clamped size clamped value dest mem =
    if clamped == value
    then done (store size value mem dest)
    else decode_error integer_too_large (store size value mem dest)

abbrev pub clamp_signed : ℕ → ℕ → ℕ
clamp_signed bits value = sign_extend bits (value % 2 ^ bits)

-- The casts of `pb_dec_varint` and `pb_dec_svarint`, for the pattern of an int64_t.
unfoldable pub store_signed : Field → ℕ → ℕ → Decoder
store_signed field svalue dest =
    if field.data_size == 8
    then store_clamped 8 svalue svalue dest
    else if field.data_size == 4
    then store_clamped 4 (clamp_signed 32 svalue) svalue dest
    else if field.data_size == 2
    then store_clamped 2 (clamp_signed 16 svalue) svalue dest
    else if field.data_size == 1
    then store_clamped 1 (clamp_signed 8 svalue) svalue dest
    else decode_error invalid_data_size

unfoldable pub store_unsigned : Field → ℕ → ℕ → Decoder
store_unsigned field value dest =
    if field.data_size == 8
    then store_clamped 8 value value dest
    else if field.data_size == 4
    then store_clamped 4 (value % 2 ^ 32) value dest
    else if field.data_size == 2
    then store_clamped 2 (value % 2 ^ 16) value dest
    else if field.data_size == 1
    then store_clamped 1 (value % 2 ^ 8) value dest
    else decode_error invalid_data_size

-- A value of at most 32 bits is cast to an int32_t first.
unfoldable pub dec_varint : Field → ℕ → Decoder
dec_varint field dest mem s = on_value (decode_varint s) mem (λ value.
    store_signed field (if field.data_size == 8 then value else clamp_signed 32 value) dest)

unfoldable pub dec_uvarint : Field → ℕ → Decoder
dec_uvarint field dest mem s =
    on_value (decode_varint s) mem (λ value. store_unsigned field value dest)

unfoldable pub dec_svarint : Field → ℕ → Decoder
dec_svarint field dest mem s =
    on_value (decode_svarint s) mem (λ value. store_signed field value dest)

unfoldable pub dec_fixed32 : Field → ℕ → Decoder
dec_fixed32 field dest mem s =
    on_value (decode_fixed32 s) mem (λ value mem. done (store 4 value mem dest))

unfoldable pub dec_fixed64 : Field → ℕ → Decoder
dec_fixed64 field dest mem s =
    on_value (decode_fixed64 s) mem (λ value mem. done (store 8 value mem dest))

-- `pb_read` into the memory at `dest`: a callback is given room for `size` bytes.
unfoldable pub read_into : ℕ → ℕ → Decoder
read_into size dest mem s =
    on_value (read size s) mem (λ bytes mem. done (store_bytes (take size bytes) mem dest))

-- The size is stored, then the bytes are read behind it.
unfoldable pub read_bytes : ℕ → ℕ → Decoder
read_bytes size bdest mem = read_into size (bdest + 4) (store 4 size mem bdest)

-- The closing 0 is stored whether the read succeeds or not.
unfoldable pub terminate : ℕ → Bool × Memory × IStream → Bool × Memory × IStream
terminate p (status, mem, s) = (status, store_byte mem p 0, s)

-- The test of `allocate_field` for an overflow of the product.
unfoldable pub too_large : ℕ → ℕ → Bool
too_large data_size array_size =
    (leb (2 ^ 32) data_size || leb (2 ^ 32) array_size) && ltb ((2 ^ 64 - 1) / array_size) data_size

-- `realloc` is told the memory, the old pointer and a size; it gives the new pointer, 0 for NULL,
-- and the memory then.
module _ (realloc : Memory → ℕ → ℕ → ℕ × Memory) where
  unfoldable pub store_pointer : ℕ → ℕ × Memory → IStream → Bool × Memory × IStream
  store_pointer p_data (ptr, mem) s =
      if ptr == 0 then decode_error realloc_failed mem s else done (store 8 ptr mem p_data) s

  unfoldable pub allocate_field : ℕ → ℕ → ℕ → Decoder
  allocate_field p_data data_size array_size mem s =
      if data_size == 0 || array_size == 0
      then decode_error invalid_size mem s
      else if too_large data_size array_size
      then decode_error size_too_large mem s
      else store_pointer p_data (realloc mem (load 8 mem p_data) (array_size * data_size % word)) s

  unfoldable pub bytes_of_size : Field → ℕ → ℕ → Decoder
  bytes_of_size field dest size mem s =
      if ltb size_max size
      then decode_error bytes_overflow mem s
      else if ltb (size + 4) size
      then decode_error size_too_large mem s
      else if atype field.type == Descriptor.atype_pointer
      then on_done (allocate_field dest (size + 4) 1 mem s)
          (λ mem. read_bytes size (load 8 mem dest) mem)
      else if ltb field.data_size (size + 4)
      then decode_error bytes_overflow mem s
      else read_bytes size dest mem s

  unfoldable pub dec_bytes : Field → ℕ → Decoder
  dec_bytes field dest mem s = on_value (decode_varint32 s) mem (bytes_of_size field dest)

  unfoldable pub string_of_size : Field → ℕ → ℕ → Decoder
  string_of_size field dest size mem s =
      if ltb alloc_size size
      then decode_error size_too_large mem s
      else if atype field.type == Descriptor.atype_pointer
      then on_done (allocate_field dest alloc_size 1 mem s)
          (λ mem s. terminate (load 8 mem dest + size) (read_into size (load 8 mem dest) mem s))
      else if ltb field.data_size alloc_size
      then decode_error string_overflow mem s
      else terminate (dest + size) (read_into size dest mem s)
    where
      -- `size + 1` is a sum of 32 bits.
      alloc_size : ℕ
      alloc_size = (size + 1) % 2 ^ 32

  unfoldable pub dec_string : Field → ℕ → Decoder
  dec_string field dest mem s = on_value (decode_varint32 s) mem (string_of_size field dest)

unfoldable pub fixed_length_of_size : Field → ℕ → ℕ → Decoder
fixed_length_of_size field dest size mem s =
    if ltb size_max size
    then decode_error bytes_overflow mem s
    else if size == 0
    then done (store_bytes (replicate field.data_size 0) mem dest) s
    else if size == field.data_size
    then read_into field.data_size dest mem s
    else decode_error incorrect_fixed_length_bytes_size mem s

unfoldable pub dec_fixed_length_bytes : Field → ℕ → Decoder
dec_fixed_length_bytes field dest mem s =
    on_value (decode_varint32 s) mem (fixed_length_of_size field dest)

-- ===== src/Nanopb/Encode.antt =====
-- The helper functions of nanopb/pb_encode.c: integers, tags and strings on the output stream.
pub mod Varint
use ivr_repo.Base.{none, some, Option, ℕ, zero, suc, ◌+◌, ◌-◌, ◌*◌, ◌/◌, ◌%◌, ◌^◌, bit_or, List}
use ivr_repo.Base.{[], ◌∷◌, leb, ◌==◌, if◌then◌else◌, length}
use ivr_repo.Nanopb.Descriptor.{Field, ltype, invalid_field_type}
use ivr_repo.Nanopb.Output.{Writer, ◌>>◌, return_error, write}
use ivr_repo.Nanopb.Descriptor

-- The loop of `pb_encode_varint`: seven bits a byte with the top bit set, until the value is 0.
-- A round divides the value by 128, so the value itself is fuel enough.
unfoldable pub varint_groups : ℕ → ℕ → List ℕ
varint_groups zero value = []
varint_groups (suc fuel) value =
    let rest = varint_groups fuel (value / 128) in
    if value == 0 then [] else (value % 128 + 128) ∷ rest

-- `buffer[i-1] &= 0x7F`
unfoldable pub clear_last : List ℕ → List ℕ
clear_last [] = []
clear_last (b ∷ []) = b % 128 ∷ []
clear_last (b ∷ c ∷ r) = b ∷ clear_last (c ∷ r)

-- The bytes that `pb_encode_varint` puts into `buffer`, or `v`.
unfoldable pub varint_bytes : ℕ → List ℕ
varint_bytes value = if leb value 0x7f then value ∷ [] else clear_last (varint_groups value value)

unfoldable pub encode_varint : ℕ → Writer
encode_varint value = write (varint_bytes value) (length (varint_bytes value))

-- `pb_encode_svarint`, whose argument is the bit pattern of an int64_t.
unfoldable pub zigzag : ℕ → ℕ
zigzag value = if leb (2 ^ 63) value then 2 ^ 64 - 1 - value * 2 % 2 ^ 64 else value * 2 % 2 ^ 64

unfoldable pub encode_svarint : ℕ → Writer
encode_svarint value = encode_varint (zigzag value)

unfoldable pub fixed32_bytes : ℕ → List ℕ
fixed32_bytes val = val % 256 ∷ val / 2 ^ 8 % 256 ∷ val / 2 ^ 16 % 256 ∷ val / 2 ^ 24 % 256 ∷ []

unfoldable pub encode_fixed32 : ℕ → Writer
encode_fixed32 val = write (fixed32_bytes val) 4

unfoldable pub fixed64_bytes : ℕ → List ℕ
fixed64_bytes val =
    val % 256
    ∷ val / 2 ^ 8 % 256
    ∷ val / 2 ^ 16 % 256
    ∷ val / 2 ^ 24 % 256
    ∷ val / 2 ^ 32 % 256
    ∷ val / 2 ^ 40 % 256
    ∷ val / 2 ^ 48 % 256
    ∷ val / 2 ^ 56 % 256
    ∷ []

unfoldable pub encode_fixed64 : ℕ → Writer
encode_fixed64 val = write (fixed64_bytes val) 8

-- `((uint64_t)field_number << 3) | wiretype`
unfoldable pub encode_tag : ℕ → ℕ → Writer
encode_tag wiretype field_number = encode_varint (bit_or (field_number * 8 % 2 ^ 64) wiretype)

-- The switch of `pb_encode_tag_for_field`, on the scalar type.
unfoldable pub wire_type : ℕ → Option ℕ
wire_type t =
    if t == Descriptor.ltype_varint
    then some Descriptor.wt_varint
    else if t == Descriptor.ltype_uvarint
    then some Descriptor.wt_varint
    else if t == Descriptor.ltype_svarint
    then some Descriptor.wt_varint
    else if t == Descriptor.ltype_fixed32
    then some Descriptor.wt_32bit
    else if t == Descriptor.ltype_fixed64
    then some Descriptor.wt_64bit
    else if t == Descriptor.ltype_bytes
    then some Descriptor.wt_string
    else if t == Descriptor.ltype_string
    then some Descriptor.wt_string
    else if t == Descriptor.ltype_submessage
    then some Descriptor.wt_string
    else if t == Descriptor.ltype_fixed_length_bytes
    then some Descriptor.wt_string
    else none

unfoldable pub encode_wire_type : Option ℕ → ℕ → Writer
encode_wire_type none tag = return_error invalid_field_type
encode_wire_type (some wiretype) tag = encode_tag wiretype tag

unfoldable pub encode_tag_for_field : Field → Writer
encode_tag_for_field field = encode_wire_type (wire_type (ltype field.type)) field.tag

-- `pb_encode_string`: the length, then `size` bytes of `buffer`
unfoldable pub encode_string : List ℕ → ℕ → Writer
encode_string buffer size = do encode_varint size; write buffer size

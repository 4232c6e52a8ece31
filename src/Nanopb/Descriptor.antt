-- ===== src/Nanopb/Descriptor.antt =====
-- nanopb/pb.h: the constants of a field type, the field descriptor, wire types and error texts.
use ivr_repo.Base.{ℕ, ◌*◌, ◌/◌, ◌%◌, ◌^◌, Option, none, some}

-- `pb_type_t`, a byte: the scalar type in the low four bits, then repetition and allocation.
abbrev pub ltype : ℕ → ℕ
ltype t = t % 16

abbrev pub htype : ℕ → ℕ
htype t = t / 16 % 4 * 16

abbrev pub atype : ℕ → ℕ
atype t = t / 64 % 4 * 64

abbrev pub ltype_varint : ℕ
ltype_varint = 0x00

abbrev pub ltype_uvarint : ℕ
ltype_uvarint = 0x01

abbrev pub ltype_svarint : ℕ
ltype_svarint = 0x02

abbrev pub ltype_fixed32 : ℕ
ltype_fixed32 = 0x03

abbrev pub ltype_fixed64 : ℕ
ltype_fixed64 = 0x04

abbrev pub ltype_last_packable : ℕ
ltype_last_packable = 0x04

abbrev pub ltype_bytes : ℕ
ltype_bytes = 0x05

abbrev pub ltype_string : ℕ
ltype_string = 0x06

abbrev pub ltype_submessage : ℕ
ltype_submessage = 0x07

abbrev pub ltype_extension : ℕ
ltype_extension = 0x08

abbrev pub ltype_fixed_length_bytes : ℕ
ltype_fixed_length_bytes = 0x09

abbrev pub htype_required : ℕ
htype_required = 0x00

abbrev pub htype_optional : ℕ
htype_optional = 0x10

abbrev pub htype_repeated : ℕ
htype_repeated = 0x20

abbrev pub htype_oneof : ℕ
htype_oneof = 0x30

abbrev pub atype_static : ℕ
atype_static = 0x00

abbrev pub atype_pointer : ℕ
atype_pointer = 0x80

abbrev pub atype_callback : ℕ
atype_callback = 0x40

-- PB_FIELD_32BIT makes `pb_size_t` a uint32_t; `size_t` has 64 bits.
abbrev pub size_max : ℕ
size_max = 0xffff_ffff

-- An address or a `size_t` sum wraps at 2 ^ 64.
abbrev pub word : ℕ
word = 2 ^ 64

-- `pb_wire_type_t`: the values that a three-bit field can hold and that the code names.
abbrev pub wt_varint : ℕ
wt_varint = 0

abbrev pub wt_64bit : ℕ
wt_64bit = 1

abbrev pub wt_string : ℕ
wt_string = 2

abbrev pub wt_32bit : ℕ
wt_32bit = 5

-- `pb_field_t`. `size_offset` is signed: the pattern of 32 bits, as it is added to an address.
-- `ptr` is an address: a descriptor table for a submessage, else a default value; 0 is NULL.
pub record Field : Type 0 where
  pub tag : ℕ
  pub type : ℕ
  pub data_offset : ℕ
  pub size_offset : ℕ
  pub data_size : ℕ
  pub array_size : ℕ
  pub ptr : ℕ

-- PB_LAST_FIELD
abbrev pub last_field : Field
last_field = record {
  tag = 0;
  type = 0;
  data_offset = 0;
  size_offset = 0;
  data_size = 0;
  array_size = 0;
  ptr = 0;
}

-- The texts given to PB_RETURN_ERROR.
pub data ErrMsg : Type 0 where
  end_of_stream io_error varint_overflow invalid_wire_type parent_stream_too_short : ErrMsg
  array_overflow invalid_field_type invalid_size size_too_large realloc_failed : ErrMsg
  too_many_array_entries callback_failed wrong_size_for_fixed_count missing_required_field : ErrMsg
  invalid_data_size integer_too_large bytes_overflow string_overflow : ErrMsg
  invalid_field_descriptor incorrect_fixed_length_bytes_size : ErrMsg
  stream_full array_max_size_exceeded callback_error submsg_size_changed : ErrMsg
  bytes_size_exceeded invalid_union_tag iterator_error : ErrMsg

-- PB_SET_ERROR: the first message is kept.
abbrev pub set_error : Option ErrMsg → ErrMsg → Option ErrMsg
set_error none m = some m
set_error (some old) m = some old

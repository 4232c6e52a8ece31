-- ===== src/Nanopb/Message/Fields.antt =====
-- The field encoders of nanopb/pb_encode.c, PB_ENCODERS.
use ivr_repo.Base.{ℕ, ◌+◌, ◌-◌, ◌^◌, ◌&&◌, List, [], ltb, ◌==◌, if◌then◌else◌}
use ivr_repo.Nanopb.Descriptor.{Field, ltype, atype, word, invalid_data_size, bytes_size_exceeded}
use ivr_repo.Nanopb.Descriptor.{invalid_field_type, invalid_field_descriptor}
use ivr_repo.Nanopb.Encode.{encode_varint, encode_svarint, encode_fixed32, encode_fixed64}
use ivr_repo.Nanopb.Encode.{encode_string}
use ivr_repo.Nanopb.Memory.{Memory, load, sign_extend, load_bytes, string_size}
use ivr_repo.Nanopb.Message.Submessage.{encode_submessage}
use ivr_repo.Nanopb.Output.{Writer, return_error}
use ivr_repo.Nanopb.Descriptor

-- What the encoder is given: the memory, the field tables at their addresses, and the user's
-- functions at theirs, for a callback field (with the address of `arg`) and for an extension.
pub record Env : Type 0 where
  pub mem : Memory
  pub descriptors : ℕ → List Field
  pub encode_callback : ℕ → Field → ℕ → Writer
  pub encode_extension : ℕ → ℕ → Writer

-- `sub` is `pb_encode`, for submessages.
module _ (env : Env) (sub : List Field → ℕ → Writer) where
  unfoldable pub enc_varint : Field → ℕ → Writer
  enc_varint field src =
      if field.data_size == 1
      then encode_varint (sign_extend 8 (load 1 env.mem src))
      else if field.data_size == 2
      then encode_varint (sign_extend 16 (load 2 env.mem src))
      else if field.data_size == 4
      then encode_varint (sign_extend 32 (load 4 env.mem src))
      else if field.data_size == 8
      then encode_varint (load 8 env.mem src)
      else return_error invalid_data_size

  unfoldable pub enc_uvarint : Field → ℕ → Writer
  enc_uvarint field src =
      if field.data_size == 1
      then encode_varint (load 1 env.mem src)
      else if field.data_size == 2
      then encode_varint (load 2 env.mem src)
      else if field.data_size == 4
      then encode_varint (load 4 env.mem src)
      else if field.data_size == 8
      then encode_varint (load 8 env.mem src)
      else return_error invalid_data_size

  unfoldable pub enc_svarint : Field → ℕ → Writer
  enc_svarint field src =
      if field.data_size == 1
      then encode_svarint (sign_extend 8 (load 1 env.mem src))
      else if field.data_size == 2
      then encode_svarint (sign_extend 16 (load 2 env.mem src))
      else if field.data_size == 4
      then encode_svarint (sign_extend 32 (load 4 env.mem src))
      else if field.data_size == 8
      then encode_svarint (load 8 env.mem src)
      else return_error invalid_data_size

  unfoldable pub enc_fixed64 : Field → ℕ → Writer
  enc_fixed64 field src = encode_fixed64 (load 8 env.mem src)

  unfoldable pub enc_fixed32 : Field → ℕ → Writer
  enc_fixed32 field src = encode_fixed32 (load 4 env.mem src)

  -- `pb_bytes_array_t`: a `pb_size_t`, then the bytes, from offset 4 on.
  unfoldable pub enc_bytes : Field → ℕ → Writer
  enc_bytes field src =
      if src == 0
      then encode_string [] 0
      else if atype field.type == Descriptor.atype_static && ltb field.data_size (size + 4)
      then return_error bytes_size_exceeded
      else encode_string (load_bytes size env.mem (src + 4)) size
    where
      size : ℕ
      size = load 4 env.mem src

  unfoldable pub enc_string : Field → ℕ → Writer
  enc_string field src =
      if src == 0 then encode_string [] 0 else encode_string (load_bytes size env.mem src) size
    where
      size : ℕ
      size =
          if atype field.type == Descriptor.atype_pointer
          then string_size (2 ^ 64 - 1) env.mem src
          else string_size field.data_size env.mem src

  unfoldable pub enc_submessage : Field → ℕ → Writer
  enc_submessage field src =
      if field.ptr == 0
      then return_error invalid_field_descriptor
      else encode_submessage (sub (env.descriptors field.ptr) src)

  unfoldable pub enc_fixed_length_bytes : Field → ℕ → Writer
  enc_fixed_length_bytes field src =
      encode_string (load_bytes field.data_size env.mem src) field.data_size

  -- `PB_ENCODERS[PB_LTYPE(field->type)]`. There is no function at the other indices, but none is
  -- called either: before that `pb_encode_tag_for_field` fails with this error.
  unfoldable pub encoder : Field → ℕ → Writer
  encoder field src =
      if t == Descriptor.ltype_varint
      then enc_varint field src
      else if t == Descriptor.ltype_uvarint
      then enc_uvarint field src
      else if t == Descriptor.ltype_svarint
      then enc_svarint field src
      else if t == Descriptor.ltype_fixed32
      then enc_fixed32 field src
      else if t == Descriptor.ltype_fixed64
      then enc_fixed64 field src
      else if t == Descriptor.ltype_bytes
      then enc_bytes field src
      else if t == Descriptor.ltype_string
      then enc_string field src
      else if t == Descriptor.ltype_submessage
      then enc_submessage field src
      else if t == Descriptor.ltype_fixed_length_bytes
      then enc_fixed_length_bytes field src
      else return_error invalid_field_type
    where
      t : ℕ
      t = ltype field.type

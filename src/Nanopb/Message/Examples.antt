-- ===== src/Nanopb/Message/Examples.antt =====
-- A message with a number and a submessage, encoded.
use ivr_repo.Base.{ℕ, ◌+◌, ◌-◌, ◌≡◌, ◌⊎◌, refl, arith, true, none, some, List, []}
use ivr_repo.Base.{◌∷◌, ◌++◌, length, get_or, ◌==◌, if◌then◌else◌}
use ivr_repo.Nanopb.Decode.{make_string_substream}
use ivr_repo.Nanopb.Descriptor.{Field, ltype_uvarint, ltype_submessage}
use ivr_repo.Nanopb.Encode.{varint_bytes, encode_tag_for_field, encode_wire_type, wire_type}
use ivr_repo.Nanopb.Encode.{encode_tag, encode_varint, varint_groups, clear_last}
use ivr_repo.Nanopb.Input.Buffer.{buffer as input}
use ivr_repo.Nanopb.Iter.{iter_begin, first, iter_next, step, struct_size}
use ivr_repo.Nanopb.Memory.{load}
use ivr_repo.Nanopb.Message.Basic.{encode_basic_field, encode_at, encode_present, encode_tagged}
use ivr_repo.Nanopb.Message.Basic.{implicit_has}
use ivr_repo.Nanopb.Message.Encoder.{encode_message, encode_fields, encode_any, encode_field}
use ivr_repo.Nanopb.Message.Encoder.{encode, get_encoded_size}
use ivr_repo.Nanopb.Message.Fields.{Env, enc_uvarint, enc_submessage, encoder}
use ivr_repo.Nanopb.Message.Sizes.Encode.{UserDoes, Written, TooLong}
use ivr_repo.Nanopb.Message.Sizes.Exact.{encode-message_bytes}
use ivr_repo.Nanopb.Message.Sizes.Exact.{make_string_substream-encode_submessage}
use ivr_repo.Nanopb.Message.Does.{succeed-Does, writes}
use ivr_repo.Nanopb.Message.Wire.{UserBytes, tagged_bytes, present_at, present_bytes, value_bytes}
use ivr_repo.Nanopb.Message.Wire.{unsigned_bytes}
use ivr_repo.Nanopb.Message.Wire.Whole.{message_bytes, whole_bytes, fields_bytes, any_bytes}
use ivr_repo.Nanopb.Message.Wire.Whole.{field_bytes, basic_bytes, has_value}
use ivr_repo.Nanopb.Message.Submessage.{after_submessage, sized_submessage, write_submessage}
use ivr_repo.Nanopb.Message.Submessage.{encode_submessage}
use ivr_repo.Nanopb.Output.{ostream_from_buffer, write, succeed}
use ivr_repo.Nanopb.Output.Buffer.{buffer, write-Emits}

abbrev number_field : ℕ → Field
number_field tag = record {
  tag = tag;
  type = ltype_uvarint;
  data_offset = 0;
  size_offset = 0;
  data_size = 4;
  array_size = 0;
  ptr = 0;
}

abbrev part_field : Field
part_field = record {
  tag = 2;
  type = ltype_submessage;
  data_offset = 0;
  size_offset = 0;
  data_size = 4;
  array_size = 0;
  ptr = 7;
}

abbrev outer : List Field
outer = number_field 1 ∷ part_field ∷ []

-- The struct at address 100: 300, then 5.
abbrev struct_bytes : List ℕ
struct_bytes = 44 ∷ 1 ∷ 0 ∷ 0 ∷ 5 ∷ 0 ∷ 0 ∷ 0 ∷ []

abbrev env : Env
env = record {
  mem = λ p. get_or struct_bytes (p - 100) 0;
  descriptors = λ p. if p == 7 then number_field 1 ∷ [] else [];
  encode_callback = λ f field arg. write (9 ∷ []) 1;
  encode_extension = λ f extension. succeed;
}

-- What the user's functions of `env` write
abbrev user : UserBytes
user = record { of_callback = λ f field arg. some (9 ∷ []); of_extension = λ f extension. some [] }

env-UserDoes : UserDoes env user
env-UserDoes = record {
  callback = λ f field arg. writes (write-Emits (9 ∷ []));
  extension = λ f extension. succeed-Does;
}

outer_bytes : message_bytes env user 2 outer 100 ≡ some (8 ∷ 172 ∷ 2 ∷ 18 ∷ 2 ∷ 8 ∷ 5 ∷ [])
unfolding message_bytes whole_bytes fields_bytes any_bytes field_bytes basic_bytes present_at
    present_bytes tagged_bytes value_bytes unsigned_bytes has_value iter_begin first iter_next step
    struct_size load wire_type varint_bytes varint_groups clear_last
outer_bytes = refl

size_of_outer : get_encoded_size env 2 outer 100 ≡ some 7
unfolding get_encoded_size encode encode_message iter_begin encode_fields encode_any first
    encode_field encode_basic_field encode_at encode_present encode_tagged encode_tag_for_field
    encode_wire_type wire_type encode_tag encode_varint write varint_bytes varint_groups clear_last
    iter_next step struct_size load enc_uvarint enc_submessage encoder after_submessage
    encode_submessage sized_submessage write_submessage implicit_has
size_of_outer = refl

bytes_of_outer :
    encode env 2 outer 100 (ostream_from_buffer 16)
    ≡ (true, buffer 16 (8 ∷ 172 ∷ 2 ∷ 18 ∷ 2 ∷ 8 ∷ 5 ∷ []) 7 none)
unfolding ostream_from_buffer encode encode_message iter_begin encode_fields encode_any first
    encode_field encode_basic_field encode_at encode_present encode_tagged encode_tag_for_field
    encode_wire_type wire_type encode_tag encode_varint write varint_bytes varint_groups clear_last
    iter_next step struct_size load enc_uvarint enc_submessage encoder after_submessage
    encode_submessage sized_submessage write_submessage implicit_has
bytes_of_outer = refl

encode-message_bytes_example :
    let bs : List ℕ = 8 ∷ 172 ∷ 2 ∷ 18 ∷ 2 ∷ 8 ∷ 5 ∷ [] in
    (get_encoded_size env 2 outer 100 ≡ some 7)
    × (Written env 2 outer 100 16 bs ⊎ TooLong env 2 outer 100 16 bs)
encode-message_bytes_example =
    encode-message_bytes env user 2 outer 100 16 (8 ∷ 172 ∷ 2 ∷ 18 ∷ 2 ∷ 8 ∷ 5 ∷ []) env-UserDoes
      outer_bytes (omega arith)

make_string_substream-encode_submessage_example :
    (let front = varint_bytes 2 in
      (encode_submessage (write (8 ∷ 5 ∷ []) 2) (buffer 16 [] 0 none)
        ≡ (true, buffer 16 (front ++ (8 ∷ 5 ∷ [])) (0 + length (front ++ (8 ∷ 5 ∷ []))) none))
      × (make_string_substream (input (front ++ (8 ∷ 5 ∷ 1 ∷ [])) (length front + (2 + 1)) none)
          ≡ (some (input (8 ∷ 5 ∷ 1 ∷ []) 2 none), input (8 ∷ 5 ∷ 1 ∷ []) 1 none)))
make_string_substream-encode_submessage_example =
    make_string_substream-encode_submessage (write (8 ∷ 5 ∷ []) 2) (8 ∷ 5 ∷ []) 16 0 [] (1 ∷ []) 1
      none (write-Emits (8 ∷ 5 ∷ [])) (omega arith) (unfold varint_bytes in omega arith)
      (omega arith)

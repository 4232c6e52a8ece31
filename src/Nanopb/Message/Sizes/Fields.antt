-- ===== src/Nanopb/Message/Sizes/Fields.antt =====
-- What the encoder writes on every stream, and counts: the field encoders of PB_ENCODERS.
use ivr_repo.Base.{some, none, if◌then◌else◌, ℕ, ◌+◌, ◌≡◌, refl, ◌&&◌, List, [], ltb, ◌==◌}
use ivr_repo.Nanopb.Descriptor.{invalid_data_size, Field, ltype, atype}
use ivr_repo.Nanopb.Memory.{load, length-load_bytes}
use ivr_repo.Nanopb.Message.Fields.{Env, enc_varint, enc_uvarint, enc_svarint, enc_fixed32}
use ivr_repo.Nanopb.Message.Fields.{enc_fixed64, enc_bytes, enc_string, enc_submessage}
use ivr_repo.Nanopb.Message.Fields.{enc_fixed_length_bytes, encoder}
use ivr_repo.Nanopb.Message.Sizes.{encode_submessage-Does, Fixed}
use ivr_repo.Nanopb.Encode.{zigzag, fixed32_bytes, fixed64_bytes}
use ivr_repo.Nanopb.Message.Wire.{Bytes, by_size, behind_size, signed_bytes, unsigned_bytes}
use ivr_repo.Nanopb.Message.Wire.{bytes_bytes, string_bytes, value_bytes}
use ivr_repo.Nanopb.Message.Does.{Does, writes, if-Does, return_error-Does, encode_varint-Does}
use ivr_repo.Nanopb.Message.Does.{encode_svarint-Does, encode_fixed32-Emits}
use ivr_repo.Nanopb.Message.Does.{encode_fixed64-Emits, encode_string-Does}
use ivr_repo.Nanopb.Output.{return_error, Writer}
use ivr_repo.Nanopb.RoundTrip.Fixed.{length-fixed32_bytes, length-fixed64_bytes}
use ivr_repo.Nanopb.Descriptor

-- A choice by the size of the data.
sized :
    (size : ℕ) {a b c d : Writer} {o₁ o₂ o₃ o₄ : List ℕ}
    → Does a (some o₁)
    → Does b (some o₂)
    → Does c (some o₃)
    → Does d (some o₄)
    → Does
        (if size == 1
          then a
          else if size == 2
          then b
          else if size == 4
          then c
          else if size == 8
          then d
          else return_error invalid_data_size)
        (by_size size o₁ o₂ o₃ o₄)
sized size p q r s =
    if-Does (size == 1) p
      (if-Does (size == 2) q (if-Does (size == 4) r (if-Does (size == 8) s (return_error-Does _))))

module _ (env : Env) (sub : List Field → ℕ → Writer) (sub_bytes : List Field → ℕ → Bytes) where
  enc_varint-Does :
      (field : Field) (src : ℕ)
      → Does (enc_varint env sub field src) (signed_bytes env sub_bytes (λ v. v) field src)
  unfolding enc_varint signed_bytes
  enc_varint-Does field src =
      sized field.data_size (encode_varint-Does _) (encode_varint-Does _) (encode_varint-Does _)
        (encode_varint-Does _)

  enc_uvarint-Does :
      (field : Field) (src : ℕ)
      → Does (enc_uvarint env sub field src) (unsigned_bytes env sub_bytes field src)
  unfolding enc_uvarint unsigned_bytes
  enc_uvarint-Does field src =
      sized field.data_size (encode_varint-Does _) (encode_varint-Does _) (encode_varint-Does _)
        (encode_varint-Does _)

  enc_svarint-Does :
      (field : Field) (src : ℕ)
      → Does (enc_svarint env sub field src) (signed_bytes env sub_bytes zigzag field src)
  unfolding enc_svarint signed_bytes
  enc_svarint-Does field src =
      sized field.data_size (encode_svarint-Does _) (encode_svarint-Does _) (encode_svarint-Does _)
        (encode_svarint-Does _)

  enc_bytes-Does :
      (field : Field) (src : ℕ)
      → Does (enc_bytes env sub field src) (bytes_bytes env sub_bytes field src)
  unfolding enc_bytes bytes_bytes
  enc_bytes-Does field src =
      let size = load 4 env.mem src in
      if-Does (src == 0) (encode_string-Does [] 0 refl) (
        if-Does (atype field.type == Descriptor.atype_static && ltb field.data_size (size + 4))
          (return_error-Does _)
          (encode_string-Does _ size (length-load_bytes size env.mem (src + 4))))

  enc_string-Does :
      (field : Field) (src : ℕ)
      → Does (enc_string env sub field src) (string_bytes env sub_bytes field src)
  unfolding enc_string string_bytes
  enc_string-Does field src =
      if-Does (src == 0) (encode_string-Does [] 0 refl)
        (encode_string-Does _ _ (length-load_bytes _ env.mem src))

  module _
      (submessages : (fields : List Field) (src : ℕ)
        → Does (sub fields src) (sub_bytes fields src)) where
    enc_submessage-Does :
        (field : Field) (src : ℕ)
        → Does (enc_submessage env sub field src) (
            if field.ptr == 0
            then none
            else behind_size (sub_bytes (env.descriptors field.ptr) src))
    unfolding enc_submessage
    enc_submessage-Does field src =
        if-Does (field.ptr == 0) (return_error-Does _)
          (encode_submessage-Does (submessages (env.descriptors field.ptr) src))

    pub encoder-Does :
        (field : Field) (src : ℕ)
        → Does (encoder env sub field src) (value_bytes env sub_bytes field src)
    unfolding encoder enc_fixed32 enc_fixed64 enc_fixed_length_bytes value_bytes
    encoder-Does field src =
        let t = ltype field.type in
        if-Does (t == Descriptor.ltype_varint) (enc_varint-Does field src) (
          if-Does (t == Descriptor.ltype_uvarint) (enc_uvarint-Does field src) (
            if-Does (t == Descriptor.ltype_svarint) (enc_svarint-Does field src) (
              if-Does (t == Descriptor.ltype_fixed32) (writes (encode_fixed32-Emits _)) (
                if-Does (t == Descriptor.ltype_fixed64) (writes (encode_fixed64-Emits _)) (
                  if-Does (t == Descriptor.ltype_bytes) (enc_bytes-Does field src) (
                    if-Does (t == Descriptor.ltype_string) (enc_string-Does field src) (
                      if-Does (t == Descriptor.ltype_submessage) (enc_submessage-Does field src) (
                        if-Does (t == Descriptor.ltype_fixed_length_bytes)
                          (encode_string-Does _ _ (length-load_bytes field.data_size env.mem src))
                          (return_error-Does _)))))))))

  pub value_bytes-Fixed32 :
      (field : Field)
      → ltype field.type ≡ Descriptor.ltype_fixed32
      → Fixed 4 (value_bytes env sub_bytes field)
  unfolding value_bytes
  value_bytes-Fixed32 field h q =
      rw h (fixed32_bytes (load 4 env.mem q), refl, length-fixed32_bytes _)

  pub value_bytes-Fixed64 :
      (field : Field)
      → ltype field.type ≡ Descriptor.ltype_fixed64
      → Fixed 8 (value_bytes env sub_bytes field)
  unfolding value_bytes
  value_bytes-Fixed64 field h q =
      rw h (fixed64_bytes (load 8 env.mem q), refl, length-fixed64_bytes _)

-- ===== src/Nanopb/MessageDecode/Loop/Consumes.antt =====
-- The bytes left of a stream, over `pb_decode`, and the fuel of its loop.
use ivr_repo.Base.{if◌then◌else◌, arith, ◌==◌, ◌≤◌, Bool, ℕ, List, zero, suc, true}
use ivr_repo.Base.{false}
use ivr_repo.Nanopb.Decode.Shrinks.{make_string_substream-Shrinks}
use ivr_repo.Nanopb.Descriptor.{invalid_field_type, htype, invalid_field_descriptor, ltype, Field}
use ivr_repo.Nanopb.FieldDecode.Consumes.{dec_fixed_length_bytes-Consumes, dec_string-Consumes}
use ivr_repo.Nanopb.FieldDecode.Consumes.{dec_bytes-Consumes, dec_fixed64-Consumes}
use ivr_repo.Nanopb.FieldDecode.Consumes.{dec_fixed32-Consumes, dec_svarint-Consumes}
use ivr_repo.Nanopb.FieldDecode.Consumes.{dec_uvarint-Consumes, dec_varint-Consumes}
use ivr_repo.Nanopb.FieldDecode.Kept.{on_value-Kept, error-Kept, if-Kept, error-Consumes}
use ivr_repo.Nanopb.FieldDecode.Kept.{here-Kept, Kept, Consumes}
use ivr_repo.Nanopb.MessageDecode.{Iter, Decoder, Memory, DecodeEnv}
use ivr_repo.Nanopb.MessageDecode.AnyField.Consumes.{decode_by_extension-Kept, decode_field-Kept}
use ivr_repo.Nanopb.MessageDecode.AnyField.Consumes.{ConsumingEnv}
use ivr_repo.Nanopb.MessageDecode.Loop.{store, initial_locals, release, decode_error}
use ivr_repo.Nanopb.MessageDecode.Loop.{decode, decode_by_extension, decode_field, decode_with}
use ivr_repo.Nanopb.MessageDecode.Loop.{decoder, dec_submessage, run_message, IStream}
use ivr_repo.Nanopb.MessageDecode.Loop.{decode_noinit, decode_level, release_failed, message_end}
use ivr_repo.Nanopb.MessageDecode.Loop.Enough.{decode_loop-ends}
use ivr_repo.Nanopb.MessageDecode.Static.Consumes.{close_with-Kept}
use ivr_repo.Nanopb.Descriptor

message_end-Kept :
    {n : ℕ} (r : Bool × Memory × IStream) (s : IStream)
    → s.bytes_left ≤ n
    → Kept n (message_end r s)
unfolding message_end
message_end-Kept (status, mem, sub) s h = close_with-Kept status mem sub s h

release_failed-Kept :
    {n : ℕ} (release : Memory → Memory) {r : Bool × Memory × IStream}
    → Kept n r
    → Kept n (release_failed release r)
unfolding release_failed
release_failed-Kept {n} release {r} p = after r p.most
  where
    after : (r : Bool × Memory × IStream) → r.2.bytes_left ≤ n → Kept n (release_failed release r)
    after (true, mem, s) h = record { most = h }
    after (false, mem, s) h = record { most = h }

module _ (env : DecodeEnv) (init noinit : List Field → ℕ → Decoder) where
  dec_submessage-Consumes :
      (field : Field) (dest : ℕ) → Consumes (dec_submessage env init noinit field dest)
  unfolding dec_submessage
  dec_submessage-Consumes field dest = record {
    left = λ mem s. on_value-Kept mem s make_string_substream-Shrinks (omega arith) (on_sub field);
  }
    where
      on_sub :
          {n : ℕ} (field : Field) (sub : IStream) (mem : Memory) (s : IStream)
          → s.bytes_left ≤ n
          → Kept n (
              if field.ptr == 0
              then decode_error invalid_field_descriptor mem s
              else if htype field.type == Descriptor.htype_repeated
              then message_end (init (env.descriptors field.ptr) dest mem sub) s
              else message_end (noinit (env.descriptors field.ptr) dest mem sub) s)
      on_sub field sub mem s h =
          if-Kept (field.ptr == 0) (error-Kept invalid_field_descriptor mem s h) (
            if-Kept (htype field.type == Descriptor.htype_repeated)
              (message_end-Kept (init (env.descriptors field.ptr) dest mem sub) s h)
              (message_end-Kept (noinit (env.descriptors field.ptr) dest mem sub) s h))

  if-Items :
      (b : Bool) {d d' : ℕ → Decoder}
      → ((dest : ℕ) → Consumes (d dest))
      → ((dest : ℕ) → Consumes (d' dest))
      → (dest : ℕ) → Consumes ((if b then d else d') dest)
  if-Items true p q = p
  if-Items false p q = q

  pub decoder-Consumes : (field : Field) (dest : ℕ) → Consumes (decoder env init noinit field dest)
  unfolding decoder
  decoder-Consumes field =
      let t = ltype field.type in
      if-Items (t == Descriptor.ltype_varint) (dec_varint-Consumes field) (
        if-Items (t == Descriptor.ltype_uvarint) (dec_uvarint-Consumes field) (
          if-Items (t == Descriptor.ltype_svarint) (dec_svarint-Consumes field) (
            if-Items (t == Descriptor.ltype_fixed32) (dec_fixed32-Consumes field) (
              if-Items (t == Descriptor.ltype_fixed64) (dec_fixed64-Consumes field) (
                if-Items (t == Descriptor.ltype_bytes) (dec_bytes-Consumes env.realloc field) (
                  if-Items (t == Descriptor.ltype_string) (dec_string-Consumes env.realloc field) (
                    if-Items (t == Descriptor.ltype_submessage) (dec_submessage-Consumes field) (
                      if-Items (t == Descriptor.ltype_fixed_length_bytes)
                        (dec_fixed_length_bytes-Consumes field)
                        (λ dest. error-Consumes invalid_field_type)))))))))

module _ (env : DecodeEnv) (env-ConsumingEnv : ConsumingEnv env) where
  on_field :
      (depth : ℕ) (noinit : List Field → ℕ → Decoder) (wire_type : ℕ) (iter : Iter) (mem : Memory)
      (s : IStream)
      → let dec = decoder env (decode_with env depth noinit) noinit in
        Kept s.bytes_left (decode_field env depth dec wire_type iter mem s).1
  on_field depth noinit wire_type iter mem s =
      decode_field-Kept env depth (decoder env (decode_with env depth noinit) noinit)
        (decoder-Consumes env (decode_with env depth noinit) noinit) wire_type iter mem s
        (omega arith)

  on_extension :
      (depth : ℕ) (noinit : List Field → ℕ → Decoder) (tag wire_type : ℕ) (iter : Iter)
      (mem : Memory) (s : IStream)
      → let dec = decoder env (decode_with env depth noinit) noinit in
        Kept s.bytes_left (decode_by_extension env depth dec tag wire_type iter mem s)
  on_extension depth noinit tag wire_type iter mem s =
      decode_by_extension-Kept env depth (decoder env (decode_with env depth noinit) noinit)
        (decoder-Consumes env (decode_with env depth noinit) noinit) env-ConsumingEnv tag wire_type
        iter mem s (omega arith)

  decode_level-Kept :
      {n : ℕ} (depth : ℕ) (noinit : List Field → ℕ → Decoder) (fields : List Field) (dest : ℕ)
      (mem : Memory) (s : IStream)
      → s.bytes_left ≤ n
      → Kept n (decode_level env depth noinit fields dest mem s)
  unfolding decode_level run_message
  decode_level-Kept depth noinit fields dest mem s h =
      let dec = decoder env (decode_with env depth noinit) noinit in
      let (r, run, kept) =
        decode_loop-ends (env.count_slot depth) (decode_field env depth dec)
          (decode_by_extension env depth dec) (on_field depth noinit) (on_extension depth noinit)
          (suc s.bytes_left) (initial_locals fields dest) (store 4 0 mem (env.count_slot depth)) s h
          (omega arith) in
      rw run kept

  decode_noinit-Kept :
      {n : ℕ} (depth : ℕ) (fields : List Field) (dest : ℕ) (mem : Memory) (s : IStream)
      → s.bytes_left ≤ n
      → Kept n (decode_noinit env depth fields dest mem s)
  unfolding decode_noinit
  decode_noinit-Kept zero fields dest mem s h = here-Kept false mem s h
  decode_noinit-Kept (suc depth) fields dest mem s h =
      decode_level-Kept depth (decode_noinit env depth) fields dest mem s h

-- If the user's functions for extensions leave no more bytes of a stream than there were: so do
-- `pb_decode` and `pb_decode_noinit`, with or without success, whatever the stream holds.
pub decode-left :
    (env : DecodeEnv) (depth : ℕ) (fields : List Field) (dest : ℕ) (mem : Memory) (s : IStream)
    → ConsumingEnv env
    → ((decode env depth fields dest mem s).2.bytes_left ≤ s.bytes_left)
      × ((decode_noinit env depth fields dest mem s).2.bytes_left ≤ s.bytes_left)
unfolding decode decode_with
decode-left env depth fields dest mem s consuming =
    let run =
      λ (mem : Memory). decode_noinit-Kept env consuming depth fields dest mem s (omega arith) in
    ((release_failed-Kept (release env depth fields dest) (run _)).most, (run mem).most)

-- ===== src/Nanopb/Message/Sizes/Encode.antt =====
-- What the encoder writes on every stream, and counts: fields, extensions and messages.
use ivr_repo.Base.{ℕ, zero, suc, ◌+◌, ◌≤◌, ◌<◌, ◌≡◌, refl, ◌==◌, leb, not, ◌&&◌, ltb, Bool, true}
use ivr_repo.Base.{false, none, some, [], List, length}
use ivr_repo.Nanopb.Descriptor.{Field, ltype, atype, htype, word}
use ivr_repo.Nanopb.Iter.{Iter, field_at, current, iter_begin, iter_next}
use ivr_repo.Nanopb.Memory.{load}
use ivr_repo.Nanopb.Message.Basic.{entry, encode_tagged, encode_array, encode_present, encode_at}
use ivr_repo.Nanopb.Message.Basic.{encode_basic_field, implicit_has}
use ivr_repo.Nanopb.Message.Encoder.{callback_result, encode_callback_field, encode_field}
use ivr_repo.Nanopb.Message.Encoder.{default_extension_encoder, encode_one_extension}
use ivr_repo.Nanopb.Message.Encoder.{encode_extensions, encode_extension_field, encode_any}
use ivr_repo.Nanopb.Message.Encoder.{encode_fields, encode_message, encode}
use ivr_repo.Nanopb.Message.Fields.{Env, encoder}
use ivr_repo.Nanopb.Message.Does.{Does, writes, refuses, if-Does, >>-Does, succeed-Does}
use ivr_repo.Nanopb.Message.Does.{return_error-Does, encode_tag-Does, encode_tag_for_field-Does}
use ivr_repo.Nanopb.Message.Wire.{Bytes, UserBytes, tagged_bytes, array_bytes, item_address}
use ivr_repo.Nanopb.Message.Wire.{present_bytes, present_at}
use ivr_repo.Nanopb.Message.Wire.Whole.{has_value, basic_bytes, callback_bytes, field_bytes}
use ivr_repo.Nanopb.Message.Wire.Whole.{extension_bytes, extensions_bytes, any_bytes}
use ivr_repo.Nanopb.Message.Wire.Whole.{fields_bytes, whole_bytes, message_bytes}
use ivr_repo.Nanopb.Message.Sizes.{encode_items-Does, encode_packed-Does}
use ivr_repo.Nanopb.Message.Sizes.Fields.{encoder-Does, value_bytes-Fixed32, value_bytes-Fixed64}
use ivr_repo.Nanopb.Output.{succeed, OStream, Writer, ostream_from_buffer}
use ivr_repo.Nanopb.Output.Buffer.{buffer}
use ivr_repo.Nanopb.Descriptor

-- The user's functions write the bytes that are given for them on every stream, or fail where it
-- only counts.
pub record UserDoes (env : Env) (user : UserBytes) : Type 0 where
  pub callback :
      (f : ℕ) (field : Field) (arg : ℕ)
      → Does (env.encode_callback f field arg) (user.of_callback f field arg)
  pub extension : (f e : ℕ) → Does (env.encode_extension f e) (user.of_extension f e)

refused_callback : (r : Bool × OStream) → r.0 ≡ false → (callback_result r).0 ≡ false
unfolding callback_result
refused_callback (true, s) h = cc
refused_callback (false, s) h = refl

callback_result-Does : {w : Writer} {o : Bytes} → Does w o → Does (λ s. callback_result (w s)) o
unfolding callback_result
callback_result-Does (writes p) = writes (record {
  fits = λ max st n h hm. rw (p.fits max st n h hm);
  full = λ max st n hn h hm. refused_callback _ (p.full max st n hn h hm);
  counts = λ max st n h. rw (p.counts max st n h);
})
callback_result-Does (refuses r) = refuses (λ max st n h. refused_callback _ (r max st n h))

module _ (env : Env) (user : UserBytes) (user-Does : UserDoes env user) (depth : ℕ)
    (sub : List Field → ℕ → Writer) (sub_bytes : List Field → ℕ → Bytes)
    (submessages : (fields : List Field) (src : ℕ)
      → Does (sub fields src) (sub_bytes fields src)) where
  encode_tagged-Does :
      (field : Field) (p : ℕ)
      → Does (encode_tagged env sub field p) (tagged_bytes env sub_bytes field p)
  unfolding encode_tagged tagged_bytes
  encode_tagged-Does field p =
      >>-Does (encode_tag_for_field-Does field) (encoder-Does env sub sub_bytes submessages field p)

  encode_array-Does :
      (field : Field) (p_data count : ℕ)
      → Does
          (encode_array env sub field p_data count)
          (array_bytes env sub_bytes field p_data count)
  unfolding encode_array array_bytes entry item_address
  encode_array-Does field p_data count = if-Does (count == 0) succeed-Does (
      if-Does (not (atype field.type == Descriptor.atype_pointer) && ltb field.array_size count)
        (return_error-Does _)
        (if-Does (leb (ltype field.type) Descriptor.ltype_last_packable)
          (>>-Does (encode_tag-Does _ _) (
            encode_packed-Does field (encoder env sub field) _ count p_data
              (encoder-Does env sub sub_bytes submessages field)
              (value_bytes-Fixed32 env sub sub_bytes field)
              (value_bytes-Fixed64 env sub sub_bytes field)))
          (encode_items-Does field.data_size _ _
            (λ q. encode_tagged-Does field (entry env sub field q)) count p_data)))

  encode_present-Does :
      (field : Field) (p_data : ℕ) (has : Bool) (count which : ℕ)
      → Does
          (encode_present env depth sub field p_data has count which)
          (present_bytes env sub_bytes field p_data has count which)
  unfolding encode_present present_bytes
  encode_present-Does field p_data has count which =
      let h = htype field.type in
      if-Does (h == Descriptor.htype_required)
        (if-Does (p_data == 0) (return_error-Does _) (encode_tagged-Does field p_data))
        (if-Does (h == Descriptor.htype_optional)
          (if-Does has (encode_tagged-Does field p_data) succeed-Does)
          (if-Does (h == Descriptor.htype_repeated) (encode_array-Does field p_data count)
            (if-Does (which == field.tag) (encode_tagged-Does field p_data) succeed-Does)))

  encode_at-Does :
      (field : Field) (p_size p_data : ℕ) (implicit : Bool)
      → Does
          (encode_at env depth sub field p_size p_data implicit)
          (present_at env sub_bytes field p_size p_data implicit)
  unfolding encode_at present_at
  encode_at-Does field p_size p_data implicit =
      if-Does (field.size_offset == 0) (encode_present-Does field p_data _ _ _)
        (encode_present-Does field p_data _ _ _)

  encode_callback_field-Does :
      (field : Field) (p_data : ℕ)
      → Does
          (encode_callback_field env field p_data)
          (callback_bytes env user depth sub_bytes field p_data)
  unfolding encode_callback_field callback_bytes
  encode_callback_field-Does field p_data =
      if-Does (load 8 env.mem p_data == 0) succeed-Does
        (callback_result-Does (user-Does.callback (load 8 env.mem p_data) field (p_data + 8)))

  encode_basic_field-Does :
      (field : Field) (p_data : ℕ)
      → Does
          (encode_basic_field env depth sub field p_data)
          (basic_bytes env user depth sub_bytes field p_data)
  unfolding encode_basic_field basic_bytes implicit_has has_value
  encode_basic_field-Does field p_data =
      if-Does (atype field.type == Descriptor.atype_pointer) (encode_at-Does field _ _ _)
        (encode_at-Does field _ _ _)

  encode_field-Does :
      (field : Field) (p_data : ℕ)
      → Does
          (encode_field env depth sub field p_data)
          (field_bytes env user depth sub_bytes field p_data)
  unfolding encode_field field_bytes
  encode_field-Does field p_data =
      let a = atype field.type in
      if-Does (a == Descriptor.atype_static) (encode_basic_field-Does field p_data) (
        if-Does (a == Descriptor.atype_pointer) (encode_basic_field-Does field p_data) (
          if-Does (a == Descriptor.atype_callback) (encode_callback_field-Does field p_data)
            (return_error-Does _)))

  encode_one_extension-Does :
      (extension : ℕ)
      → Does
          (encode_one_extension env depth sub extension)
          (extension_bytes env user depth sub_bytes extension)
  unfolding encode_one_extension default_extension_encoder extension_bytes
  encode_one_extension-Does extension =
      let f = load 8 env.mem (load 8 env.mem extension + 8) in
      if-Does (f == 0)
        (if-Does (atype field.type == Descriptor.atype_pointer)
          (encode_field-Does field (extension + 8))
          (encode_field-Does field (load 8 env.mem (extension + 8))))
        (user-Does.extension f extension)
    where
      field : Field
      field = field_at (env.descriptors (load 8 env.mem (load 8 env.mem extension + 16))) 0

  encode_extensions-Does :
      (fuel extension : ℕ)
      → Does
          (encode_extensions env depth sub fuel extension)
          (extensions_bytes env user depth sub_bytes fuel extension)
  unfolding encode_extensions extensions_bytes
  encode_extensions-Does zero extension = refuses (λ max st n h. refl)
  encode_extensions-Does (suc fuel) extension = if-Does (extension == 0) succeed-Does (
      >>-Does (encode_one_extension-Does extension)
        (encode_extensions-Does fuel (load 8 env.mem (extension + 16))))

  encode_any-Does :
      (field : Field) (p_data : ℕ)
      → Does
          (encode_any env depth sub field p_data)
          (any_bytes env user depth sub_bytes field p_data)
  unfolding encode_any encode_extension_field any_bytes
  encode_any-Does field p_data =
      if-Does (ltype field.type == Descriptor.ltype_extension)
        (encode_extensions-Does depth (load 8 env.mem p_data)) (encode_field-Does field p_data)

module _ (each : Field → ℕ → Writer) (each_bytes : Field → ℕ → Bytes)
    (does : (field : Field) (p_data : ℕ) → Does (each field p_data) (each_bytes field p_data)) where
  encode_fields-Does :
      (fuel : ℕ) (iter : Iter)
      → Does (encode_fields each fuel iter) (fields_bytes each_bytes fuel iter)
  unfolding encode_fields fields_bytes
  encode_fields-Does zero iter = succeed-Does
  encode_fields-Does (suc fuel) iter =
      >>-Does (does (current iter) iter.p_data)
        (next (iter_next iter) (λ iter'. encode_fields-Does fuel iter'))
    where
      next :
          (r : Bool × Iter)
          → ((iter' : Iter)
              → Does (encode_fields each fuel iter') (fields_bytes each_bytes fuel iter'))
          → Does
              (elim r.0 as (λ _. Writer) [ true ↦ encode_fields each fuel r.1 | false ↦ succeed ])
              (elim r.0 as (λ _. Bytes) [
                | true ↦ fields_bytes each_bytes fuel r.1
                | false ↦ some []
              ])
      next (true, iter') rest = rest iter'
      next (false, iter') rest = succeed-Does

  encode_message-Does :
      (fields : List Field) (src : ℕ)
      → Does (encode_message each fields src) (whole_bytes each_bytes fields src)
  unfolding encode_message whole_bytes
  encode_message-Does fields src = begin (iter_begin fields src)
    where
      begin :
          (r : Bool × Iter)
          → Does
              (elim r.0 as (λ _. Writer) [
                | true ↦ encode_fields each (length fields) r.1
                | false ↦ succeed
              ])
              (elim r.0 as (λ _. Bytes) [
                | true ↦ fields_bytes each_bytes (length fields) r.1
                | false ↦ some []
              ])
      begin (true, iter) = encode_fields-Does (length fields) iter
      begin (false, iter) = succeed-Does

pub encode-Does :
    (env : Env) (user : UserBytes) (depth : ℕ) (fields : List Field) (src : ℕ)
    → UserDoes env user
    → Does (encode env depth fields src) (message_bytes env user depth fields src)
unfolding encode message_bytes
encode-Does env user zero fields src does = refuses (λ max st n h. refl)
encode-Does env user (suc depth) fields src does =
    encode_message-Does (encode_any env depth (encode env depth)) _
      (encode_any-Does env user does depth (encode env depth) (message_bytes env user depth)
        (λ table p. encode-Does env user depth table p does))
      fields src

-- What a run of `pb_encode` on a buffer of `max` bytes does with the bytes `bs` of a message.
abbrev pub Written : Env → ℕ → List Field → ℕ → ℕ → List ℕ → Type 0
Written env depth fields src max bs =
    (length bs ≤ max)
    × (encode env depth fields src (ostream_from_buffer max)
        ≡ (true, buffer max bs (length bs) none))

abbrev pub TooLong : Env → ℕ → List Field → ℕ → ℕ → List ℕ → Type 0
TooLong env depth fields src max bs =
    (max < length bs) × ((encode env depth fields src (ostream_from_buffer max)).0 ≡ false)

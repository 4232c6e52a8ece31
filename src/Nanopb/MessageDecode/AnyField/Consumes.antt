-- ===== src/Nanopb/MessageDecode/AnyField/Consumes.antt =====
-- The bytes left of a stream, over `decode_field` and the extensions.
use ivr_repo.Base.{
  Option, none, some, length, ◌+◌, inr, ◌||◌, ◌&&◌, inl, ◌==◌, not, Bool-cases, ◌≤◌, Bool, ℕ, true,
}
use ivr_repo.Base.{false, zero, suc}
use ivr_repo.Nanopb.Decode.Shrinks.{read_raw_value-Shrinks, make_string_substream-Shrinks}
use ivr_repo.Nanopb.Decode.Shrinks.{skip_field-Shrinks}
use ivr_repo.Nanopb.Descriptor.{invalid_field_type, iterator_error, invalid_union_tag, htype}
use ivr_repo.Nanopb.Descriptor.{callback_failed, atype, Field}
use ivr_repo.Nanopb.FieldDecode.Kept.{Kept-le, on_value-Kept, on_done-Kept, if-Kept, here-Kept}
use ivr_repo.Nanopb.FieldDecode.Kept.{error-Kept, Kept, Consumes}
use ivr_repo.Nanopb.Iter.{current, field_at, iter_find}
use ivr_repo.Nanopb.MessageDecode.{extension_table, load, Memory, Iter, Decoder, DecodeEnv}
use ivr_repo.Nanopb.MessageDecode.AnyField.{release_single_field, istream_from_buffer}
use ivr_repo.Nanopb.MessageDecode.AnyField.{defaults_at, callback_loop, default_extension_decoder}
use ivr_repo.Nanopb.MessageDecode.AnyField.{decode_one_extension, decode_field, decode_extensions}
use ivr_repo.Nanopb.MessageDecode.AnyField.{decode_by_extension, decode_by_allocation}
use ivr_repo.Nanopb.MessageDecode.AnyField.{after_release, IStream, skip_value}
use ivr_repo.Nanopb.MessageDecode.AnyField.{run_decode_callback, on_buffer, decode_callback_field}
use ivr_repo.Nanopb.MessageDecode.AnyField.{callback_end}
use ivr_repo.Nanopb.MessageDecode.Pointer.Consumes.{decode_pointer_field-Kept}
use ivr_repo.Nanopb.MessageDecode.Release.{release_union_field, found_old, found_new}
use ivr_repo.Nanopb.MessageDecode.Static.Consumes.{decode_static_field-Kept, close_with-Kept}
use ivr_repo.Nanopb.Descriptor

-- The user's functions for extensions leave no more bytes than there were.
pub record ConsumingEnv (env : DecodeEnv) : Type 0 where
  pub of_extension :
      (f extension tag wire_type : ℕ) → Consumes (env.decode_extension f extension tag wire_type)

callback_end-Kept :
    {n : ℕ} (r : Option (Bool × Memory × IStream)) (mem : Memory) (s : IStream)
    → s.bytes_left ≤ n
    → Kept n (callback_end r mem s)
unfolding callback_end
callback_end-Kept none mem s h = here-Kept false mem s h
callback_end-Kept (some (false, mem, sub)) _ s h = error-Kept callback_failed mem s h
callback_end-Kept (some (true, mem, sub)) _ s h = close_with-Kept true mem sub s h

on_buffer-Kept :
    {n : ℕ} (r : Bool × Memory × IStream) (s : IStream) → s.bytes_left ≤ n → Kept n (on_buffer r s)
unfolding on_buffer
on_buffer-Kept (status, mem, sub) s h = here-Kept status mem s h

run_decode_callback-Kept :
    {n : ℕ} (callback : Decoder) (wire_type : ℕ) (mem : Memory) (s : IStream)
    → s.bytes_left ≤ n
    → Kept n (run_decode_callback callback wire_type mem s)
unfolding run_decode_callback
run_decode_callback-Kept callback wire_type mem s h =
    if-Kept (wire_type == Descriptor.wt_string)
      (on_value-Kept mem s make_string_substream-Shrinks h (λ sub mem s h.
        callback_end-Kept (callback_loop callback (suc sub.bytes_left) mem sub) mem s h))
      (on_value-Kept mem s (read_raw_value-Shrinks wire_type 10) h (λ bytes mem s h.
        on_buffer-Kept (callback mem (istream_from_buffer bytes (length bytes))) s h))

skip_value-Kept :
    {n : ℕ} (wire_type : ℕ) (mem : Memory) (s : IStream)
    → s.bytes_left ≤ n
    → Kept n (skip_value wire_type mem s)
unfolding skip_value
skip_value-Kept wire_type mem s h =
    on_value-Kept mem s (skip_field-Shrinks wire_type) h (λ _ mem s h. here-Kept true mem s h)

decode_callback_field-Kept :
    {n : ℕ} (env : DecodeEnv) (wire_type : ℕ) (iter : Iter) (mem : Memory) (s : IStream)
    → s.bytes_left ≤ n
    → Kept n (decode_callback_field env wire_type iter mem s)
unfolding decode_callback_field
decode_callback_field-Kept env wire_type iter mem s h =
    if-Kept (iter.p_data == 0 || load 8 mem iter.p_data == 0) (skip_value-Kept wire_type mem s h)
      (run_decode_callback-Kept _ wire_type mem s h)

found_new-Kept :
    {n : ℕ} (r : Bool × Iter) (mem : Memory) (s : IStream)
    → s.bytes_left ≤ n
    → Kept n (found_new r mem s).1
unfolding found_new
found_new-Kept (true, iter) mem s h = here-Kept true mem s h
found_new-Kept (false, iter) mem s h = error-Kept iterator_error mem s h

found_old-Kept :
    {n : ℕ} (env : DecodeEnv) (depth new_tag : ℕ) (r : Bool × Iter) (mem : Memory) (s : IStream)
    → s.bytes_left ≤ n
    → Kept n (found_old env depth new_tag r mem s).1
unfolding found_old
found_old-Kept env depth new_tag (true, iter) mem s h =
    found_new-Kept (iter_find new_tag iter) _ s h
found_old-Kept env depth new_tag (false, iter) mem s h = error-Kept invalid_union_tag mem s h

release_union_field-Kept :
    {n : ℕ} (env : DecodeEnv) (depth : ℕ) (iter : Iter) (mem : Memory) (s : IStream)
    → s.bytes_left ≤ n
    → Kept n (release_union_field env depth iter mem s).1
unfolding release_union_field
release_union_field-Kept env depth iter mem s h =
    elim (Bool-cases
      (load 4 mem iter.p_size == 0 || load 4 mem iter.p_size == (current iter).tag)) [
        | inl same ↦ rw same (here-Kept true mem s h)
        | inr other ↦
            rw other (found_old-Kept env depth _ (iter_find (load 4 mem iter.p_size) iter) mem s h)
      ]

module _ (env : DecodeEnv) (depth : ℕ) (dec : Field → ℕ → Decoder)
    (on_item : (field : Field) (dest : ℕ) → Consumes (dec field dest)) where
  decode_by_allocation-Kept :
      {n : ℕ} (wire_type : ℕ) (iter : Iter) (mem : Memory) (s : IStream)
      → s.bytes_left ≤ n
      → Kept n (decode_by_allocation env depth dec wire_type iter mem s)
  unfolding decode_by_allocation
  decode_by_allocation-Kept wire_type iter mem s h =
      elim (Bool-cases (atype (current iter).type == Descriptor.atype_static)) [
        | inl a ↦ rw a (
            decode_static_field-Kept dec (defaults_at env depth dec) on_item iter wire_type mem s h)
        | inr a ↦ elim (Bool-cases (atype (current iter).type == Descriptor.atype_pointer)) [
          | inl p ↦
              rw (a, p)
                (decode_pointer_field-Kept env.realloc (release_single_field env depth)
                  (defaults_at env depth dec) dec on_item iter wire_type mem s h)
          | inr p ↦ elim (Bool-cases (atype (current iter).type == Descriptor.atype_callback)) [
            | inl c ↦ rw (a, p, c) (decode_callback_field-Kept env wire_type iter mem s h)
            | inr c ↦ rw (a, p, c) (error-Kept invalid_field_type mem s h)
          ]
        ]
      ]

  after_release-Kept :
      {n : ℕ} (wire_type : ℕ) (r : Iter × (Bool × Memory × IStream))
      → Kept n r.1
      → Kept n (after_release r (decode_by_allocation env depth dec wire_type)).1
  unfolding after_release
  after_release-Kept wire_type (iter, r) h =
      on_done-Kept h (λ mem s h. decode_by_allocation-Kept wire_type iter mem s h)

  pub decode_field-Kept :
      {n : ℕ} (wire_type : ℕ) (iter : Iter) (mem : Memory) (s : IStream)
      → s.bytes_left ≤ n
      → Kept n (decode_field env depth dec wire_type iter mem s).1
  unfolding decode_field
  decode_field-Kept wire_type iter mem s h =
      elim (Bool-cases (htype (current iter).type == Descriptor.htype_oneof)) [
        | inl o ↦ rw o (
            after_release-Kept wire_type (release_union_field env depth iter mem s)
              (release_union_field-Kept env depth iter mem s h))
        | inr o ↦ rw o (decode_by_allocation-Kept wire_type iter mem s h)
      ]

  default_extension_decoder-Kept :
      {n : ℕ} (extension tag wire_type : ℕ) (mem : Memory) (s : IStream)
      → s.bytes_left ≤ n
      → Kept n (default_extension_decoder env depth dec extension tag wire_type mem s)
  unfolding default_extension_decoder
  default_extension_decoder-Kept extension tag wire_type mem s h =
      if-Kept ((field_at (extension_table env mem extension) 0).tag == tag)
        (decode_field-Kept wire_type _ _ s h) (here-Kept true mem s h)

  module _ (env-ConsumingEnv : ConsumingEnv env) where
    decode_one_extension-Kept :
        {n : ℕ} (extension tag wire_type : ℕ) (mem : Memory) (s : IStream)
        → s.bytes_left ≤ n
        → Kept n (decode_one_extension env depth dec extension tag wire_type mem s)
    unfolding decode_one_extension
    decode_one_extension-Kept extension tag wire_type mem s h =
        elim (Bool-cases (load 8 mem (load 8 mem extension) == 0)) [
          | inl own ↦ rw own (default_extension_decoder-Kept extension tag wire_type mem s h)
          | inr user ↦ rw user (
              Kept-le
                ((env-ConsumingEnv.of_extension (load 8 mem (load 8 mem extension)) extension tag
                    wire_type).left
                  mem s)
                h)
        ]

    decode_extensions-Kept :
        {n : ℕ} (fuel pos extension tag wire_type : ℕ) (mem : Memory) (s : IStream)
        → s.bytes_left ≤ n
        → Kept n (decode_extensions env depth dec fuel pos extension tag wire_type mem s)
    unfolding decode_extensions
    decode_extensions-Kept zero pos extension tag wire_type mem s h = here-Kept _ mem s h
    decode_extensions-Kept (suc fuel) pos extension tag wire_type mem s h =
        elim (Bool-cases (not (extension == 0) && (pos == s.bytes_left))) [
          | inr last ↦ rw (last, decode_extensions) (here-Kept true mem s h)
          | inl more ↦
              rw (more, decode_extensions)
                (on_done-Kept (decode_one_extension-Kept extension tag wire_type mem s h)
                  (λ mem s h.
                    decode_extensions-Kept fuel pos (load 8 mem (extension + 16)) tag wire_type mem
                      s h))
        ]

    pub decode_by_extension-Kept :
        {n : ℕ} (tag wire_type : ℕ) (iter : Iter) (mem : Memory) (s : IStream)
        → s.bytes_left ≤ n
        → Kept n (decode_by_extension env depth dec tag wire_type iter mem s)
    unfolding decode_by_extension
    decode_by_extension-Kept tag wire_type iter mem s h =
        decode_extensions-Kept depth s.bytes_left (load 8 mem iter.p_data) tag wire_type mem s h

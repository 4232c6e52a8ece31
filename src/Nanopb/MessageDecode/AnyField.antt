-- ===== src/Nanopb/MessageDecode/AnyField.antt =====
-- `decode_callback_field`, `decode_field` and the extensions.
pub mod Consumes
pub mod Callback
use ivr_repo.Base.{
  Option, none, some, ℕ, zero, suc, ◌+◌, Bool, true, false, not, ◌&&◌, ◌||◌, length, ◌==◌,
}
use ivr_repo.Base.{if◌then◌else◌}
use ivr_repo.Nanopb.Decode.{make_string_substream, close_string_substream, skip_field}
use ivr_repo.Nanopb.Decode.{read_raw_value}
use ivr_repo.Nanopb.Descriptor.{Field, ltype, htype, atype, callback_failed, invalid_field_type}
use ivr_repo.Nanopb.FieldDecode.{Decoder, decode_error, on_value, on_done}
use ivr_repo.Nanopb.Input.{IStream, istream_from_buffer}
use ivr_repo.Nanopb.Iter.{Iter, current, field_at, iter_next}
use ivr_repo.Nanopb.Memory.{Memory, load}
use ivr_repo.Nanopb.Memory.Store.{store_byte}
use ivr_repo.Nanopb.MessageDecode.{DecodeEnv, iter_from_extension, extension_table}
use ivr_repo.Nanopb.MessageDecode.Defaults.{message_set_to_defaults}
use ivr_repo.Nanopb.MessageDecode.Pointer.{decode_pointer_field}
use ivr_repo.Nanopb.MessageDecode.Release.{IterDecoder, release_single_field, release_union_field}
use ivr_repo.Nanopb.MessageDecode.Static.{close_with, decode_static_field}
use ivr_repo.Nanopb.Descriptor

-- What follows a call of the callback: the next one, if bytes are left.
abbrev pub after_call :
    (Memory → IStream → Option (Bool × Memory × IStream))
    → Bool × Memory × IStream
    → Option (Bool × Memory × IStream)
after_call next (false, mem, sub) = some (false, mem, sub)
after_call next (true, mem, sub) = elim (sub.bytes_left == 0) [
  | true ↦ some (true, mem, sub)
  | false ↦ next mem sub
]

-- The loop on the substream of a string, until the callback fails or no byte is left; `none` is a
-- loop that is still running when the fuel is used up.
unfoldable pub callback_loop : Decoder → ℕ → Memory → IStream → Option (Bool × Memory × IStream)
callback_loop callback zero mem sub = none
callback_loop callback (suc fuel) mem sub =
    after_call (λ mem sub. callback_loop callback fuel mem sub) (callback mem sub)

-- What follows the loop: an error goes to the stream. With a callback that reads a byte at least
-- each time that it returns true, the fuel is enough; with another one the loop may run forever, and
-- the model has a failure there.
unfoldable pub callback_end : Option (Bool × Memory × IStream) → Decoder
callback_end none mem s = (false, mem, s)
callback_end (some (false, mem, sub)) _ s = decode_error callback_failed mem s
callback_end (some (true, mem, sub)) _ s = close_with true mem (close_string_substream sub s)

-- A callback's result on a buffer of its own; the stream is not touched.
unfoldable pub on_buffer : Bool × Memory × IStream → IStream → Bool × Memory × IStream
on_buffer (status, mem, sub) s = (status, mem, s)

unfoldable pub run_decode_callback : Decoder → ℕ → Decoder
run_decode_callback callback wire_type mem s =
    if wire_type == Descriptor.wt_string
    then on_value (make_string_substream s) mem
        (λ sub mem s. callback_end (callback_loop callback (suc sub.bytes_left) mem sub) mem s)
    else on_value (read_raw_value wire_type 10 s) mem
        (λ bytes mem s. on_buffer (callback mem (istream_from_buffer bytes (length bytes))) s)

-- A value that is only skipped.
unfoldable pub skip_value : ℕ → Decoder
skip_value wire_type mem s = on_value (skip_field wire_type s) mem (λ _ mem s. (true, mem, s))

unfoldable pub decode_callback_field : DecodeEnv → ℕ → Iter → Decoder
decode_callback_field env wire_type iter mem s =
    if iter.p_data == 0 || load 8 mem iter.p_data == 0
    then skip_value wire_type mem s
    else run_decode_callback
        (env.decode_callback (load 8 mem iter.p_data) (current iter) (iter.p_data + 8)) wire_type
        mem s

-- Whether an iterator has come to an extension field.
unfoldable pub at_extension : Iter → Bool
at_extension iter = ltype (current iter).type == Descriptor.ltype_extension

-- The loop of `find_extension_field`, as that of `pb_field_iter_find`.
unfoldable pub find_extension_loop : ℕ → ℕ → Iter → Bool × Iter
find_extension_loop zero stop iter = (false, iter)
find_extension_loop (suc fuel) stop iter = elim (at_extension iter) [
  | true ↦ (true, iter)
  | false ↦
      let (more, iter') = iter_next iter in
      elim (iter'.pos == stop) [
        | true ↦ (false, iter')
        | false ↦ find_extension_loop fuel stop iter'
      ]
]

unfoldable pub find_extension_field : Iter → Bool × Iter
find_extension_field iter = find_extension_loop (suc (length iter.start)) iter.pos iter

-- The result is passed on with the iterator that the release left.
unfoldable pub after_release :
    Iter × (Bool × Memory × IStream) → (Iter → Decoder) → Iter × (Bool × Memory × IStream)
after_release (iter, r) k = (iter, on_done r (k iter))

-- `depth` is fuel, for the nesting of what is released or set to defaults and for the lists of
-- extensions; `dec` is the function of PB_DECODERS.
module _ (env : DecodeEnv) (depth : ℕ) (dec : Field → ℕ → Decoder) where
  unfoldable pub defaults_at : ℕ → ℕ → Memory → Memory
  defaults_at ptr = message_set_to_defaults env depth (env.descriptors ptr)

  unfoldable pub decode_by_allocation : ℕ → Iter → Decoder
  decode_by_allocation wire_type iter =
      if atype type == Descriptor.atype_static
      then decode_static_field dec defaults_at iter wire_type
      else if atype type == Descriptor.atype_pointer
      then decode_pointer_field env.realloc (release_single_field env depth) defaults_at dec iter
          wire_type
      else if atype type == Descriptor.atype_callback
      then decode_callback_field env wire_type iter
      else decode_error invalid_field_type
    where
      type : ℕ
      type = (current iter).type

  unfoldable pub decode_field : ℕ → IterDecoder
  decode_field wire_type iter mem s =
      if htype (current iter).type == Descriptor.htype_oneof
      then after_release (release_union_field env depth iter mem s) (decode_by_allocation wire_type)
      else (iter, decode_by_allocation wire_type iter mem s)

  unfoldable pub default_extension_decoder : ℕ → ℕ → ℕ → Decoder
  default_extension_decoder extension tag wire_type mem s =
      if (field_at (extension_table env mem extension) 0).tag == tag
      then (decode_field wire_type (iter_from_extension env mem extension)
          (store_byte mem (extension + 24) 1) s).1
      else (true, mem, s)

  unfoldable pub decode_one_extension : ℕ → ℕ → ℕ → Decoder
  decode_one_extension extension tag wire_type mem =
      if load 8 mem (load 8 mem extension) == 0
      then default_extension_decoder extension tag wire_type mem
      else env.decode_extension (load 8 mem (load 8 mem extension)) extension tag wire_type mem

  -- The list of extensions, until one of them has read of the stream; a longer list than the fuel
  -- allows for fails.
  unfoldable pub decode_extensions : ℕ → ℕ → ℕ → ℕ → ℕ → Decoder
  decode_extensions zero pos extension tag wire_type mem s =
      (extension == 0 || not (pos == s.bytes_left), mem, s)
  decode_extensions (suc fuel) pos extension tag wire_type mem s =
      elim (not (extension == 0) && (pos == s.bytes_left)) [
        | false ↦ (true, mem, s)
        | true ↦
            on_done (decode_one_extension extension tag wire_type mem s)
              (λ mem. decode_extensions fuel pos (load 8 mem (extension + 16)) tag wire_type mem)
      ]

  -- `decode_extension`
  unfoldable pub decode_by_extension : ℕ → ℕ → Iter → Decoder
  decode_by_extension tag wire_type iter mem s =
      decode_extensions depth s.bytes_left (load 8 mem iter.p_data) tag wire_type mem s

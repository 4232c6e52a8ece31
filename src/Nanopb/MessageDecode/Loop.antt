-- ===== src/Nanopb/MessageDecode/Loop.antt =====
-- `pb_decode_noinit` and the functions that call it: `pb_decode`, `pb_dec_submessage`, and the
-- delimited forms.
pub mod Enough
pub mod Empty
pub mod Consumes
use ivr_repo.Base.{◌^◌, ℕ, zero, suc, ◌-◌, Bool, true, false, not, ◌&&◌, Option, none, some, List}
use ivr_repo.Base.{leb, ◌==◌, if◌then◌else◌}
use ivr_repo.Nanopb.Decode.{decode_tag, make_string_substream, close_string_substream, skip_field}
use ivr_repo.Nanopb.Descriptor.{Field, ltype, htype, wrong_size_for_fixed_count}
use ivr_repo.Nanopb.Descriptor.{missing_required_field, invalid_field_descriptor}
use ivr_repo.Nanopb.Descriptor.{invalid_field_type}
use ivr_repo.Nanopb.FieldDecode.{Decoder, decode_error, on_value, dec_varint, dec_uvarint}
use ivr_repo.Nanopb.FieldDecode.{dec_svarint, dec_fixed32, dec_fixed64, dec_bytes, dec_string}
use ivr_repo.Nanopb.FieldDecode.{dec_fixed_length_bytes}
use ivr_repo.Nanopb.Input.{IStream}
use ivr_repo.Nanopb.Iter.{Iter, current, field_at, first, iter_find}
use ivr_repo.Nanopb.Memory.{Memory, load}
use ivr_repo.Nanopb.Memory.Store.{store}
use ivr_repo.Nanopb.MessageDecode.{DecodeEnv}
use ivr_repo.Nanopb.MessageDecode.AnyField.{decode_field, decode_by_extension}
use ivr_repo.Nanopb.MessageDecode.AnyField.{find_extension_field}
use ivr_repo.Nanopb.MessageDecode.Defaults.{message_set_to_defaults}
use ivr_repo.Nanopb.MessageDecode.Release.{release}
use ivr_repo.Nanopb.MessageDecode.Required.{none_seen, mark_field, required_count, all_seen}
use ivr_repo.Nanopb.MessageDecode.Static.{close_with}
use ivr_repo.Nanopb.Descriptor

-- The local variables of `pb_decode_noinit`, but `fixed_count_size`, which stands in the memory at
-- `slot`. `fixed_count_field` is an index into the table.
pub record Locals : Type 0 where
  pub iter : Iter
  pub fields_seen : List ℕ
  pub extension_range_start : ℕ
  pub fixed_count_field : Option ℕ

abbrev pub initial_locals : List Field → ℕ → Locals
initial_locals fields dest_struct = record {
  iter = first fields dest_struct;
  fields_seen = none_seen;
  extension_range_start = 0;
  fixed_count_field = none;
}

-- The result of a loop; for one that has not come to its end, a failure.
abbrev pub ended : Memory → IStream → Option (Bool × Memory × IStream) → Bool × Memory × IStream
ended mem s none = (false, mem, s)
ended mem s (some r) = r

-- What a round of the loop comes to: another round, the end of the loop, or the result false.
pub data Round : Type 0 where
  again : Locals → Memory → IStream → Round
  finished : Locals → Memory → IStream → Round
  failed : Memory → IStream → Round

abbrev pub after_field : Locals → Iter × (Bool × Memory × IStream) → Round
after_field locals (iter, (true, mem, s)) = again (record locals { iter = iter }) mem s
after_field locals (iter, (false, mem, s)) = failed mem s

abbrev pub after_skip : Locals → Memory → Option (Unit {0}) × IStream → Round
after_skip locals mem (some _, s) = again locals mem s
after_skip locals mem (none, s) = failed mem s

-- Data that no field and no extension takes
unfoldable pub skip_unknown : Locals → ℕ → Memory → IStream → Round
skip_unknown locals wire_type mem s = after_skip locals mem (skip_field wire_type s)

-- What follows `decode_extension`: the data is skipped if nothing was read, `pos` bytes being left.
unfoldable pub after_extension : Locals → ℕ → ℕ → Bool × Memory × IStream → Round
after_extension locals wire_type pos (false, mem, s) = failed mem s
after_extension locals wire_type pos (true, mem, s) =
    if pos == s.bytes_left then skip_unknown locals wire_type mem s else again locals mem s

-- Whether the fixed count field at this index has all its items, if there is one.
unfoldable pub count_complete : ℕ → Iter → Option ℕ → Memory → Bool
count_complete slot iter none mem = true
count_complete slot iter (some pos) mem = load 4 mem slot == (field_at iter.start pos).array_size

abbrev pub same_index : Option ℕ → ℕ → Bool
same_index none i = false
same_index (some j) i = j == i

-- A repeated field without a counter in the struct
abbrev pub is_fixed_count : Iter → Bool
is_fixed_count iter =
    (htype (current iter).type == Descriptor.htype_repeated) && (iter.p_size == iter.p_data)

-- `slot` is the address of `fixed_count_size`; `field` is `decode_field`, `extension` is
-- `decode_extension`.
module _ (slot : ℕ) (field : ℕ → Iter → Memory → IStream → Iter × (Bool × Memory × IStream))
    (extension : ℕ → ℕ → Iter → Decoder) where
  unfoldable pub decode_marked : Locals → ℕ → Memory → IStream → Round
  decode_marked locals wire_type mem s = after_field locals' (field wire_type locals'.iter mem s)
    where
      locals' : Locals
      locals' = record locals { fields_seen = mark_field locals.iter locals.fields_seen }

  -- A fixed count field is counted in `fixed_count_size`, which starts at 0 with each new one.
  unfoldable pub decode_known : Locals → ℕ → Memory → IStream → Round
  decode_known locals wire_type mem s =
      if is_fixed_count locals.iter
      then if same_index locals.fixed_count_field locals.iter.pos
        then decode_marked (record locals { iter = counted }) wire_type mem s
        else if count_complete slot locals.iter locals.fixed_count_field mem
        then decode_marked
            (record locals { iter = counted; fixed_count_field = some locals.iter.pos }) wire_type
            (store 4 0 mem slot) s
        else failed mem (decode_error wrong_size_for_fixed_count mem s).2
      else decode_marked locals wire_type mem s
    where
      counted : Iter
      counted = record locals.iter { p_size = slot }

  -- A tag from `extension_range_start` on is offered to the extensions.
  unfoldable pub offer : Bool × Iter → Locals → ℕ → ℕ → Memory → IStream → Round
  offer (found, iter) locals tag wire_type mem s =
      if leb start tag
      then after_extension locals' wire_type s.bytes_left (extension tag wire_type iter mem s)
      else skip_unknown locals' wire_type mem s
    where
      start : ℕ
      start = if found then (current iter).tag else 2 ^ 32 - 1

      locals' : Locals
      locals' = record locals { iter = iter; extension_range_start = start }

  unfoldable pub decode_unknown : Locals → ℕ → ℕ → Memory → IStream → Round
  decode_unknown locals tag wire_type mem s =
      if leb locals.extension_range_start tag
      then offer (find_extension_field locals.iter) locals tag wire_type mem s
      else skip_unknown locals wire_type mem s

  unfoldable pub dispatch : Bool × Iter → Locals → ℕ → ℕ → Memory → IStream → Round
  dispatch (true, iter) locals tag wire_type =
      decode_known (record locals { iter = iter }) wire_type
  dispatch (false, iter) locals tag wire_type =
      decode_unknown (record locals { iter = iter }) tag wire_type

  unfoldable pub after_tag : Locals → Memory → Bool × Option (ℕ × ℕ) × IStream → Round
  after_tag locals mem (true, none, s) = finished locals mem s
  after_tag locals mem (false, none, s) = failed mem s
  after_tag locals mem (eof, some (wire_type, tag), s) =
      dispatch (iter_find tag locals.iter) locals tag wire_type mem s

  unfoldable pub decode_round : Locals → Memory → IStream → Round
  decode_round locals mem s =
      if s.bytes_left == 0 then finished locals mem s else after_tag locals mem (decode_tag s)

  -- What follows the loop
  unfoldable pub decode_end : Locals → Decoder
  decode_end locals mem s =
      if not (count_complete slot locals.iter locals.fixed_count_field mem)
      then decode_error wrong_size_for_fixed_count mem s
      else if not (all_seen (required_count locals.iter) locals.fields_seen)
      then decode_error missing_required_field mem s
      else (true, mem, s)

  -- The loop and what follows it; `none` is a loop that is still running when the fuel is used up.
  unfoldable pub decode_loop : ℕ → Locals → Memory → IStream → Option (Bool × Memory × IStream)
  decode_loop zero locals mem s = none
  decode_loop (suc fuel) locals mem s = elim (decode_round locals mem s) [
    | again locals' mem' s' ↦ decode_loop fuel locals' mem' s'
    | finished locals' mem' s' ↦ some (decode_end locals' mem' s')
    | failed mem' s' ↦ some (false, mem', s')
  ]

  -- A round reads a tag at least, so the bytes left and one more are fuel enough.
  unfoldable pub run_message : List Field → ℕ → Decoder
  run_message fields dest_struct mem s =
      ended mem s
        (decode_loop (suc s.bytes_left) (initial_locals fields dest_struct) (store 4 0 mem slot) s)

-- What follows the decoding of a message on a substream.
unfoldable pub message_end : Bool × Memory × IStream → IStream → Bool × Memory × IStream
message_end (status, mem, sub) s = close_with status mem (close_string_substream sub s)

-- A message behind its length
unfoldable pub on_substream : Decoder → Decoder
on_substream message mem s =
    on_value (make_string_substream s) mem (λ sub mem s. message_end (message mem sub) s)

-- A message that could not be decoded is released.
unfoldable pub release_failed :
    (Memory → Memory) → Bool × Memory × IStream → Bool × Memory × IStream
release_failed release (true, mem, s) = (true, mem, s)
release_failed release (false, mem, s) = (false, release mem, s)

-- `init` and `noinit` are `pb_decode` and `pb_decode_noinit`.
module _ (env : DecodeEnv) (init noinit : List Field → ℕ → Decoder) where
  -- `pb_dec_submessage`, on a substream: without a table it fails, and the stream goes on at the
  -- substream's start.
  unfoldable pub dec_submessage : Field → ℕ → Decoder
  dec_submessage field dest mem s = on_value (make_string_substream s) mem (λ sub mem s.
      if field.ptr == 0
      then decode_error invalid_field_descriptor mem s
      else if htype field.type == Descriptor.htype_repeated
      then message_end (init (env.descriptors field.ptr) dest mem sub) s
      else message_end (noinit (env.descriptors field.ptr) dest mem sub) s)

  -- `PB_DECODERS[PB_LTYPE(type)]`. There is no function at the other indices.
  unfoldable pub decoder : Field → ℕ → Decoder
  decoder field =
      if t == Descriptor.ltype_varint
      then dec_varint field
      else if t == Descriptor.ltype_uvarint
      then dec_uvarint field
      else if t == Descriptor.ltype_svarint
      then dec_svarint field
      else if t == Descriptor.ltype_fixed32
      then dec_fixed32 field
      else if t == Descriptor.ltype_fixed64
      then dec_fixed64 field
      else if t == Descriptor.ltype_bytes
      then dec_bytes env.realloc field
      else if t == Descriptor.ltype_string
      then dec_string env.realloc field
      else if t == Descriptor.ltype_submessage
      then dec_submessage field
      else if t == Descriptor.ltype_fixed_length_bytes
      then dec_fixed_length_bytes field
      else λ dest. decode_error invalid_field_type
    where
      t : ℕ
      t = ltype field.type

-- `pb_decode`, for a given `pb_decode_noinit`.
unfoldable pub decode_with : DecodeEnv → ℕ → (List Field → ℕ → Decoder) → List Field → ℕ → Decoder
decode_with env depth noinit fields dest_struct mem s =
    release_failed (release env depth fields dest_struct)
      (noinit fields dest_struct (message_set_to_defaults env depth fields dest_struct mem) s)

-- The body of `pb_decode_noinit`; `noinit` is the function itself, for submessages.
unfoldable pub decode_level : DecodeEnv → ℕ → (List Field → ℕ → Decoder) → List Field → ℕ → Decoder
decode_level env depth noinit =
    run_message (env.count_slot depth) (decode_field env depth dec)
      (decode_by_extension env depth dec)
  where
    dec : Field → ℕ → Decoder
    dec = decoder env (decode_with env depth noinit) noinit

-- `pb_decode_noinit`. The fuel bounds the nesting of submessages and the lists of extensions; a run
-- that needs more of it fails.
unfoldable pub decode_noinit : DecodeEnv → ℕ → List Field → ℕ → Decoder
decode_noinit env zero fields dest_struct mem s = (false, mem, s)
decode_noinit env (suc depth) fields dest_struct mem s =
    decode_level env depth (decode_noinit env depth) fields dest_struct mem s

unfoldable pub decode : DecodeEnv → ℕ → List Field → ℕ → Decoder
decode env depth = decode_with env depth (decode_noinit env depth)

unfoldable pub decode_delimited_noinit : DecodeEnv → ℕ → List Field → ℕ → Decoder
decode_delimited_noinit env depth fields dest_struct =
    on_substream (decode_noinit env depth fields dest_struct)

unfoldable pub decode_delimited : DecodeEnv → ℕ → List Field → ℕ → Decoder
decode_delimited env depth fields dest_struct = on_substream (decode env depth fields dest_struct)

unfoldable pub decode_nullterminated : DecodeEnv → ℕ → List Field → ℕ → Decoder
decode_nullterminated = decode

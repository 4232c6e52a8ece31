-- ===== src/Nanopb/MessageDecode/Examples.antt =====
-- The message decoder on an array of four numbers, on strings behind a pointer, and on a number.
use ivr_repo.Base.{
  leb, ◌&&◌, not, ◌==◌, suc, Option, Bool, ◌⊎◌, ◌<◌, List, inr, arith, ◌≤◌, length, false, ◌≡◌,
  ◌++◌, ◌*◌, ◌∷◌, ◌-◌, true, ◌^◌, ◌+◌,
}
use ivr_repo.Base.{[], ℕ, none, some, refl, every}
use ivr_repo.Nanopb.Descriptor.{missing_required_field, htype_optional, htype_required}
use ivr_repo.Nanopb.Descriptor.{realloc_failed, ltype_string, ltype_uvarint}
use ivr_repo.Nanopb.Descriptor.{htype_repeated, atype_pointer, Field}
use ivr_repo.Nanopb.Encode.{varint_bytes}
use ivr_repo.Nanopb.FieldDecode.{
  Decoder, on_value, dec_string, dec_uvarint, store_unsigned, store_clamped,
}
use ivr_repo.Nanopb.Input.{IStream, readbyte}
use ivr_repo.Nanopb.Input.Buffer.{buffer}
use ivr_repo.Nanopb.Input.Shrinks.{Less, readbyte-Less}
use ivr_repo.Nanopb.Iter.{first, Iter}
use ivr_repo.Nanopb.Iter.Cycle.{advance}
use ivr_repo.Nanopb.Memory.{load, Memory}
use ivr_repo.Nanopb.Memory.Store.{load-store, store}
use ivr_repo.Nanopb.MessageDecode.{DecodeEnv}
use ivr_repo.Nanopb.MessageDecode.AnyField.{callback_loop}
use ivr_repo.Nanopb.MessageDecode.AnyField.Callback.{Progress, callback_loop-Progress}
use ivr_repo.Nanopb.MessageDecode.AnyField.Consumes.{ConsumingEnv}
use ivr_repo.Nanopb.MessageDecode.Loop.{decode_noinit, decode, on_substream}
use ivr_repo.Nanopb.MessageDecode.Loop.Consumes.{decode-left}
use ivr_repo.Nanopb.MessageDecode.Loop.Empty.{decode_noinit_empty}
use ivr_repo.Nanopb.MessageDecode.Pointer.{decode_pointer_item}
use ivr_repo.Nanopb.MessageDecode.Pointer.Count.{decode_pointer_item-free_strings}
use ivr_repo.Nanopb.MessageDecode.Release.{release_single_field, free_entries, free_strings}
use ivr_repo.Nanopb.MessageDecode.Release.Cleared.{release_single_field-cleared}
use ivr_repo.Nanopb.MessageDecode.Required.{required_count, all_seen}
use ivr_repo.Nanopb.MessageDecode.Required.Count.{required_count-first}
use ivr_repo.Nanopb.MessageDecode.Required.Seen.{all_seen-mark_all, contains, mark_all}
use ivr_repo.Nanopb.MessageDecode.Static.{packed_loop, decode_item, count_up}
use ivr_repo.Nanopb.MessageDecode.Static.Bounds.{packed_loop-Outside}
use ivr_repo.Nanopb.MessageDecode.Static.Item.{dec_uvarint-Confined, decode_item-Outside}
use ivr_repo.Nanopb.MessageDecode.Substream.{on_substream-buffer}
use ivr_repo.Nanopb.Varint.{decode_varint, varint_loop}

abbrev zeros : Memory
zeros p = 0

abbrev repeated_field : ℕ → Field
repeated_field type = record {
  tag = 1;
  type = type;
  data_offset = 4;
  size_offset = 2 ^ 32 - 4;
  data_size = 4;
  array_size = 4;
  ptr = 0;
}

-- The field of a struct at 96: the count at 96, the array or its pointer at 100.
abbrev at_field : ℕ → Iter
at_field type = record {
  start = repeated_field type ∷ [];
  pos = 0;
  required_field_index = 0;
  dest_struct = 96;
  p_data = 100;
  p_size = 96;
}

abbrev no_defaults : ℕ → ℕ → Memory → Memory
no_defaults ptr p mem = mem

packed_loop-Outside_example :
    let mem' =
      (packed_loop dec_uvarint no_defaults
        (at_field (htype_repeated + ltype_uvarint))
        4
        zeros
        (buffer (5 ∷ 6 ∷ []) 2 none)).1 in
    (load 4 mem' 96 ≤ 4) × (mem' 116 ≡ 0)
unfolding load
packed_loop-Outside_example =
    packed_loop-Outside dec_uvarint no_defaults (at_field (htype_repeated + ltype_uvarint)) 4 116
      zeros (buffer (5 ∷ 6 ∷ []) 2 none) (omega arith) (omega arith)
      (dec_uvarint-Confined (repeated_field (htype_repeated + ltype_uvarint))) (inr (omega arith))
      (inr (omega arith)) (inr (omega arith)) (omega arith)

abbrev full : Memory
full = store 4 4 zeros 96

full_count : load 4 full 96 ≡ 4
full_count = load-store 4 4 zeros 96 (omega arith)

-- The array is full: byte 116 behind it is kept.
decode_item-Outside_example :
    let after =
      decode_item dec_uvarint no_defaults
        (at_field (htype_repeated + ltype_uvarint))
        full
        (buffer (5 ∷ []) 1 none) in
    (after.1 116 ≡ full 116)
    × (load 4 after.1 96 ≡ suc (load 4 full 96))
    × ((leb 4 (load 4 full 96) && after.0) ≡ false)
decode_item-Outside_example =
    decode_item-Outside dec_uvarint no_defaults (at_field (htype_repeated + ltype_uvarint)) 116 full
      (buffer (5 ∷ []) 1 none) (omega arith) (omega arith)
      (dec_uvarint-Confined (repeated_field (htype_repeated + ltype_uvarint))) (inr (omega arith))
      (inr (omega arith)) (inr (omega arith)) (omega (arith, full_count))

-- A callback that reads one byte
abbrev byte_callback : Decoder
byte_callback mem sub = on_value (readbyte sub) mem (λ b mem sub. (true, mem, sub))

byte_callback-Progress : Progress byte_callback
byte_callback-Progress mem sub ok = read (readbyte sub) (readbyte-Less sub) ok
  where
    read :
        (r : Option ℕ × IStream)
        → Less sub.bytes_left r
        → (on_value r mem (λ b mem sub. (true, mem, sub))).0 ≡ true
        → ((on_value r mem (λ b mem sub. (true, mem, sub))).2.bytes_left ≡ 0)
          ⊎ ((on_value r mem (λ b mem sub. (true, mem, sub))).2.bytes_left < sub.bytes_left)
    read (none, sub') less ok = cc
    read (some b, sub') less ok = inr less

callback_loop-Progress_example :
    (r : Bool × Memory × IStream) × (callback_loop byte_callback 7 zeros
        (buffer (5 ∷ 6 ∷ []) 2 none)
      ≡ some r)
    × (callback_loop byte_callback 3 zeros (buffer (5 ∷ 6 ∷ []) 2 none) ≡ some r)
    × ((r.0 && not (r.2.bytes_left == 0)) ≡ false)
callback_loop-Progress_example =
    callback_loop-Progress byte_callback 7 zeros (buffer (5 ∷ 6 ∷ []) 2 none) byte_callback-Progress
      (omega arith)

-- No memory is left.
abbrev env : DecodeEnv
env = record {
  descriptors = λ p. [];
  realloc = λ mem p size. (0, mem);
  free = λ mem p. mem;
  decode_callback = λ f field arg mem s. (true, mem, s);
  decode_extension = λ f extension tag wire_type mem s. (true, mem, s);
  count_slot = λ depth. 10000 + depth * 4;
}

abbrev no_release : Iter → Memory → Memory
no_release iter mem = mem

decode_pointer_item-free_strings_example :
    let iter = at_field (atype_pointer + htype_repeated + ltype_string) in
    let after = count_up iter full in
    (decode_pointer_item env.realloc no_release no_defaults
        (dec_string env.realloc)
        iter
        full
        (buffer (0 ∷ []) 1 none)
      ≡ (false, after, buffer (0 ∷ []) 1 (some realloc_failed)))
    × (free_strings env iter after ≡ free_entries env 5 (load 8 after 100) after)
decode_pointer_item-free_strings_example =
    decode_pointer_item-free_strings env no_release no_defaults (dec_string env.realloc)
      (at_field (atype_pointer + htype_repeated + ltype_string)) full (buffer (0 ∷ []) 1 none) 4
      refl refl full_count (omega arith) (omega arith) (omega arith) (λ m p size. refl)

abbrev number : Field
number = record {
  tag = 1;
  type = ltype_uvarint;
  data_offset = 0;
  size_offset = 0;
  data_size = 4;
  array_size = 0;
  ptr = 0;
}

read_five :
    dec_uvarint number 100 zeros (buffer (5 ∷ 6 ∷ 7 ∷ []) 2 none)
    ≡ (true, store 4 5 zeros 100, buffer (6 ∷ 7 ∷ []) 1 none)
unfolding dec_uvarint decode_varint varint_loop readbyte store_unsigned store_clamped
read_five = refl

on_substream-buffer_example :
    let front = varint_bytes 2 in
    on_substream
      (dec_uvarint number 100)
      zeros
      (buffer (front ++ (5 ∷ 6 ∷ 7 ∷ [])) (length front + (2 + 1)) none)
    ≡ (true, store 4 5 zeros 100, buffer (7 ∷ []) 1 none)
on_substream-buffer_example =
    on_substream-buffer (dec_uvarint number 100) zeros (store 4 5 zeros 100) true (5 ∷ 6 ∷ [])
      (7 ∷ []) 1 1 none none (omega arith) (omega arith) read_five

env-ConsumingEnv : ConsumingEnv env
env-ConsumingEnv = record {
  of_extension =
      λ f extension tag wire_type. record { left = λ mem s. record { most = omega arith } };
}

-- The field 1 with the value 5.
abbrev five : IStream
five = buffer (8 ∷ 5 ∷ []) 2 none

decode-left_example :
    ((decode env 1 (number ∷ []) 100 zeros five).2.bytes_left ≤ 2)
    × ((decode_noinit env 1 (number ∷ []) 100 zeros five).2.bytes_left ≤ 2)
decode-left_example = decode-left env 1 (number ∷ []) 100 zeros five env-ConsumingEnv

all_seen-mark_all_example :
    all_seen 40 (mark_all (39 ∷ 3 ∷ 3 ∷ [])) ≡ every 40 (contains (39 ∷ 3 ∷ 3 ∷ []))
all_seen-mark_all_example =
    all_seen-mark_all 40 (39 ∷ 3 ∷ 3 ∷ []) (omega arith)
      (omega arith, (omega arith, (omega arith, tt)))

-- Two required fields and an optional one between them
abbrev mixed : List Field
mixed =
    record number { type = htype_required + ltype_uvarint }
    ∷ record number { tag = 2; type = htype_optional + ltype_uvarint }
    ∷ record number { tag = 3; type = htype_required + ltype_uvarint }
    ∷ []

required_count-first_example : required_count (advance 1 (first mixed 100)) ≡ 2
required_count-first_example =
    required_count-first mixed 100 1 2 (omega arith, (omega arith, (omega arith, tt))) refl
      (omega arith)

-- Two fields of the three are missing.
decode_noinit_empty_example :
    decode_noinit env 1 mixed 100 zeros (buffer [] 0 none)
    ≡ (false, store 4 0 zeros 10000, buffer [] 0 (some missing_required_field))
decode_noinit_empty_example =
    decode_noinit_empty env 0 2 mixed 100 zeros (buffer [] 0 none)
      (omega arith, (omega arith, (omega arith, tt))) refl refl

release_single_field-cleared_example :
    let mem' =
      release_single_field env 1 (at_field (atype_pointer + htype_repeated + ltype_string)) full in
    (load 8 mem' 100 ≡ 0) × (load 4 mem' 96 ≡ 0)
release_single_field-cleared_example =
    release_single_field-cleared env 0 (at_field (atype_pointer + htype_repeated + ltype_string))
      full refl refl (inr (omega arith)) (λ m p. refl)

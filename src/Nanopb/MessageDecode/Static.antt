-- ===== src/Nanopb/MessageDecode/Static.antt =====
-- `decode_static_field`.
pub mod Bounds
pub mod Item
pub mod Consumes
use ivr_repo.Base.{ℕ, zero, suc, ◌+◌, ◌*◌, ◌%◌, ◌^◌, Bool, true, false, not, ◌&&◌, Option, none}
use ivr_repo.Base.{some, ltb, leb, ◌==◌, if◌then◌else◌}
use ivr_repo.Nanopb.Decode.{make_string_substream, close_string_substream}
use ivr_repo.Nanopb.Descriptor.{Field, ltype, htype, array_overflow, invalid_field_type}
use ivr_repo.Nanopb.FieldDecode.{Decoder, decode_error, on_value, on_done}
use ivr_repo.Nanopb.Input.{IStream}
use ivr_repo.Nanopb.Iter.{Iter, current}
use ivr_repo.Nanopb.Memory.{Memory, load}
use ivr_repo.Nanopb.Memory.Store.{store, store_byte}
use ivr_repo.Nanopb.MessageDecode.Defaults.{clear}
use ivr_repo.Nanopb.Descriptor

-- The offset of item `i`: a product of two `pb_size_t`, which has 32 bits.
unfoldable pub item_offset : Field → ℕ → ℕ
item_offset field i = field.data_size * i % 2 ^ 32

-- What follows a substream: it is closed, and `status` is the result.
abbrev pub close_with : Bool → Memory → Option (Unit {0}) × IStream → Bool × Memory × IStream
close_with status mem (none, s) = (false, mem, s)
close_with status mem (some _, s) = (status, mem, s)

-- `(*size)++`
unfoldable pub count_up : Iter → Memory → Memory
count_up iter mem = store 4 (load 4 mem iter.p_size + 1) mem iter.p_size

-- `*(bool*)iter->pSize = true`, where there is such a flag
unfoldable pub set_has : Iter → Memory → Memory
set_has iter mem = if iter.p_size == iter.p_data then mem else store_byte mem iter.p_size 1

-- Items that are packed, in a stream of them
unfoldable pub is_packed : Iter → ℕ → Bool
is_packed iter wire_type =
    (wire_type == Descriptor.wt_string)
    && leb (ltype (current iter).type) Descriptor.ltype_last_packable

module _ (dec : Field → ℕ → Decoder) (defaults : ℕ → ℕ → Memory → Memory) (iter : Iter) where
  -- The loop of a packed array, on the substream. A decoder of a packed item reads a byte at least
  -- where it succeeds, so the bytes left are fuel enough.
  unfoldable pub packed_loop : ℕ → Decoder
  packed_loop zero mem sub = (true, mem, sub)
  packed_loop (suc fuel) mem sub =
      elim (not (sub.bytes_left == 0) && ltb (load 4 mem iter.p_size) (current iter).array_size) [
        | false ↦ (true, mem, sub)
        | true ↦
            on_done
              (dec (current iter)
                (iter.p_data + item_offset (current iter) (load 4 mem iter.p_size)) mem sub)
              (λ mem. packed_loop fuel (count_up iter mem))
      ]

  -- What follows the loop; `s` is the stream, with the substream's bytes taken off.
  unfoldable pub packed_end : IStream → Bool × Memory × IStream → Bool × Memory × IStream
  packed_end s (status, mem, sub) =
      if not (sub.bytes_left == 0)
      then decode_error array_overflow mem s
      else close_with status mem (close_string_substream sub s)

  unfoldable pub decode_packed : Decoder
  decode_packed mem s =
      on_value (make_string_substream s) mem
        (λ sub mem s. packed_end s (packed_loop (suc sub.bytes_left) mem sub))

  -- An item that is not packed: the count goes up before it is compared.
  unfoldable pub decode_item : Decoder
  decode_item mem =
      if leb (current iter).array_size (load 4 mem iter.p_size)
      then decode_error array_overflow (count_up iter mem)
      else dec (current iter) (iter.p_data + item_offset (current iter) (load 4 mem iter.p_size))
          (count_up iter mem)

  unfoldable pub decode_oneof : Decoder
  decode_oneof mem =
      if ltype field.type == Descriptor.ltype_submessage
      then dec field iter.p_data
          (defaults field.ptr iter.p_data (clear field.data_size iter.p_data mem'))
      else dec field iter.p_data mem'
    where
      field : Field
      field = current iter

      mem' : Memory
      mem' = store 4 field.tag mem iter.p_size

  -- `htype` has no other value than these four.
  unfoldable pub decode_static_field : ℕ → Decoder
  decode_static_field wire_type mem =
      if htype (current iter).type == Descriptor.htype_required
      then dec (current iter) iter.p_data mem
      else if htype (current iter).type == Descriptor.htype_optional
      then dec (current iter) iter.p_data (set_has iter mem)
      else if htype (current iter).type == Descriptor.htype_repeated
      then if is_packed iter wire_type then decode_packed mem else decode_item mem
      else decode_oneof mem

-- ===== src/Nanopb/MessageDecode/Pointer.antt =====
-- `decode_pointer_field` and `initialize_pointer_field`.
pub mod Count
pub mod Consumes
use ivr_repo.Base.{ℕ, zero, suc, ◌+◌, ◌-◌, ◌/◌, Bool, true, false, not, ◌&&◌, ◌||◌, some, ltb}
use ivr_repo.Base.{◌==◌, if◌then◌else◌}
use ivr_repo.Nanopb.Decode.{make_string_substream, close_string_substream}
use ivr_repo.Nanopb.Descriptor.{Field, ltype, htype, size_max, too_many_array_entries}
use ivr_repo.Nanopb.FieldDecode.{Decoder, decode_error, on_value, on_done, allocate_field}
use ivr_repo.Nanopb.Input.{IStream}
use ivr_repo.Nanopb.Iter.{Iter, current}
use ivr_repo.Nanopb.Memory.{Memory, load}
use ivr_repo.Nanopb.Memory.Store.{store}
use ivr_repo.Nanopb.MessageDecode.Defaults.{clear}
use ivr_repo.Nanopb.MessageDecode.Static.{item_offset, close_with, count_up, is_packed}
use ivr_repo.Nanopb.Descriptor

abbrev pub is_text : Field → Bool
is_text field =
    ltype field.type == Descriptor.ltype_string || ltype field.type == Descriptor.ltype_bytes

-- A packed array in the making: the memory, the substream, and the stream itself.
pub record Packed : Type 0 where
  pub status : Bool
  pub mem : Memory
  pub sub : IStream
  pub outer : IStream

module _ (realloc : Memory → ℕ → ℕ → ℕ × Memory) (release : Iter → Memory → Memory)
    (defaults : ℕ → ℕ → Memory → Memory) (dec : Field → ℕ → Decoder) (iter : Iter) where
  unfoldable pub initialize_pointer_field : ℕ → Memory → Memory
  initialize_pointer_field p_item mem =
      if is_text (current iter)
      then store 8 0 mem p_item
      else if ltype (current iter).type == Descriptor.ltype_submessage
      then defaults (current iter).ptr p_item (clear (current iter).data_size p_item mem)
      else mem

  -- A submessage that was decoded before is released.
  unfoldable pub release_duplicate : Memory → Memory
  release_duplicate mem =
      if ltype (current iter).type == Descriptor.ltype_submessage
        && not (load 8 mem iter.p_data == 0)
      then release iter mem
      else mem

  unfoldable pub set_which : Memory → Memory
  set_which mem =
      if htype (current iter).type == Descriptor.htype_oneof
      then store 4 (current iter).tag mem iter.p_size
      else mem

  -- An item at `p_item`, initialised and decoded.
  unfoldable pub decode_new : ℕ → Decoder
  decode_new p_item mem = dec (current iter) p_item (initialize_pointer_field p_item mem)

  unfoldable pub decode_pointer_single : Decoder
  decode_pointer_single mem s =
      if is_text (current iter)
      then dec (current iter) iter.p_data (set_which (release_duplicate mem)) s
      else on_done
          (allocate_field realloc iter.p_data (current iter).data_size 1
            (set_which (release_duplicate mem)) s)
          (λ mem. decode_new (load 8 mem iter.p_data) mem)

  -- The address of the item behind those that `*size` counts.
  unfoldable pub next_item : Memory → ℕ
  next_item mem = load 8 mem iter.p_data + item_offset (current iter) (load 4 mem iter.p_size)

  -- What follows a packed item: a full count gives an error to the stream, not the substream.
  unfoldable pub packed_next :
      (Memory → IStream → IStream → Packed) → Bool × Memory × IStream → IStream → Packed
  packed_next go (false, mem, sub) outer = record {
    status = false;
    mem = mem;
    sub = sub;
    outer = outer;
  }
  packed_next go (true, mem, sub) outer =
      if load 4 mem iter.p_size == size_max
      then record {
        status = false;
        mem = mem;
        sub = sub;
        outer = record outer { errmsg = some too_many_array_entries };
      }
      else go (count_up iter mem) sub outer

  -- The room that is asked for: a guess at the number of items left, rounded up.
  unfoldable pub guess : ℕ → IStream → ℕ
  guess allocated sub = allocated + ((sub.bytes_left - 1) / (current iter).data_size + 1)

  unfoldable pub grow : ℕ → Memory → IStream → Bool × Memory × IStream
  grow allocated mem sub =
      if ltb allocated (load 4 mem iter.p_size + 1)
      then allocate_field realloc iter.p_data (current iter).data_size (guess allocated sub) mem sub
      else (true, mem, sub)

  unfoldable pub grown : ℕ → Memory → IStream → ℕ
  grown allocated mem sub =
      if ltb allocated (load 4 mem iter.p_size + 1) then guess allocated sub else allocated

  -- The loop of a packed array. A decoder of a packed item reads a byte at least where it succeeds,
  -- so the bytes left are fuel enough.
  unfoldable pub pointer_loop : ℕ → ℕ → Memory → IStream → IStream → Packed
  pointer_loop zero allocated mem sub outer = record {
    status = true;
    mem = mem;
    sub = sub;
    outer = outer;
  }
  pointer_loop (suc fuel) allocated mem sub outer = elim (sub.bytes_left == 0) [
    | true ↦ record { status = true; mem = mem; sub = sub; outer = outer }
    | false ↦
        packed_next (pointer_loop fuel (grown allocated mem sub))
          (on_done (grow allocated mem sub) (λ mem. decode_new (next_item mem) mem)) outer
  ]

  unfoldable pub pointer_packed_end : Packed → Bool × Memory × IStream
  pointer_packed_end p = close_with p.status p.mem (close_string_substream p.sub p.outer)

  unfoldable pub decode_pointer_packed : Decoder
  decode_pointer_packed mem s = on_value (make_string_substream s) mem (λ sub mem s.
      pointer_packed_end (pointer_loop (suc sub.bytes_left) (load 4 mem iter.p_size) mem sub s))

  -- One item more: the count goes up before the room for it is there.
  unfoldable pub decode_pointer_item : Decoder
  decode_pointer_item mem s =
      if load 4 mem iter.p_size == size_max
      then decode_error too_many_array_entries mem s
      else on_done
          (allocate_field realloc iter.p_data (current iter).data_size
            (load 4 (count_up iter mem) iter.p_size) (count_up iter mem) s)
          (λ mem.
            decode_new
              (load 8 mem iter.p_data + item_offset (current iter) (load 4 mem iter.p_size - 1))
              mem)

  unfoldable pub decode_pointer_field : ℕ → Decoder
  decode_pointer_field wire_type mem =
      if htype (current iter).type == Descriptor.htype_repeated
      then if is_packed iter wire_type then decode_pointer_packed mem else decode_pointer_item mem
      else decode_pointer_single mem

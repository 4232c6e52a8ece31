-- ===== src/Nanopb/MessageDecode/Release.antt =====
-- `pb_release`, `pb_release_single_field` and `pb_release_union_field`.
pub mod Cleared
use ivr_repo.Base.{ℕ, zero, suc, ◌+◌, Bool, true, false, not, ◌&&◌, ◌||◌, List, ltb, ◌==◌}
use ivr_repo.Base.{if◌then◌else◌}
use ivr_repo.Nanopb.Descriptor.{Field, ltype, htype, atype, ErrMsg, set_error, invalid_union_tag}
use ivr_repo.Nanopb.Descriptor.{iterator_error}
use ivr_repo.Nanopb.Input.{IStream}
use ivr_repo.Nanopb.Iter.{Iter, current, iter_find}
use ivr_repo.Nanopb.Memory.{Memory, load}
use ivr_repo.Nanopb.Memory.Store.{store}
use ivr_repo.Nanopb.MessageDecode.{DecodeEnv, for_message, for_extensions, iter_from_extension}
use ivr_repo.Nanopb.Descriptor

-- The items of an array of submessages. `message` is `pb_release`.
unfoldable pub release_items : (ℕ → Memory → Memory) → ℕ → ℕ → ℕ → Memory → Memory
release_items message data_size zero p_item mem = mem
release_items message data_size (suc count) p_item mem =
    release_items message data_size count (p_item + data_size) (message p_item mem)

-- The number of submessages at a field.
unfoldable pub release_count : Iter → Memory → ℕ
release_count iter mem =
    if htype field.type == Descriptor.htype_repeated
    then if is_static && iter.p_size == iter.p_data
      then field.array_size
      else if is_static && ltb field.array_size (load 4 mem iter.p_size)
      then field.array_size
      else load 4 mem iter.p_size
    else 1
  where
    field : Field
    field = current iter

    is_static : Bool
    is_static = atype field.type == Descriptor.atype_static

-- `pb_release` on one submessage: a NULL pointer is ignored.
unfoldable pub release_message : (Iter → Memory → Memory) → List Field → ℕ → Memory → Memory
release_message each fields dest_struct mem =
    if dest_struct == 0 then mem else for_message each fields dest_struct mem

unfoldable pub release_submessages : DecodeEnv → (Iter → Memory → Memory) → Iter → Memory → Memory
release_submessages env each iter mem =
    if p_item == 0
    then mem
    else release_items (release_message each (env.descriptors field.ptr)) field.data_size
        (release_count iter mem) p_item mem
  where
    field : Field
    field = current iter

    p_item : ℕ
    p_item =
        if atype field.type == Descriptor.atype_pointer then load 8 mem iter.p_data else iter.p_data

-- The strings of a repeated field, each freed and its pointer cleared.
unfoldable pub free_entries : DecodeEnv → ℕ → ℕ → Memory → Memory
free_entries env zero p_item mem = mem
free_entries env (suc count) p_item mem =
    free_entries env count (p_item + 8) (store 8 0 (env.free mem (load 8 mem p_item)) p_item)

unfoldable pub free_strings : DecodeEnv → Iter → Memory → Memory
free_strings env iter mem =
    if htype field.type == Descriptor.htype_repeated
      && (ltype field.type == Descriptor.ltype_string || ltype field.type == Descriptor.ltype_bytes)
    then free_entries env (load 4 mem iter.p_size) (load 8 mem iter.p_data) mem
    else mem
  where
    field : Field
    field = current iter

unfoldable pub clear_count : Iter → Memory → Memory
clear_count iter mem =
    if htype (current iter).type == Descriptor.htype_repeated
    then store 4 0 mem iter.p_size
    else mem

unfoldable pub free_main : DecodeEnv → Iter → Memory → Memory
free_main env iter mem = store 8 0 (env.free mem (load 8 mem iter.p_data)) iter.p_data

-- The last part of `pb_release_single_field`.
unfoldable pub release_pointer : DecodeEnv → Iter → Memory → Memory
release_pointer env iter mem =
    if atype (current iter).type == Descriptor.atype_pointer
    then free_main env iter (clear_count iter (free_strings env iter mem))
    else mem

-- The part before that; `each` is the function itself.
unfoldable pub release_inside : DecodeEnv → ℕ → (Iter → Memory → Memory) → Iter → Memory → Memory
release_inside env depth each iter mem =
    if ltype (current iter).type == Descriptor.ltype_extension
    then for_extensions (λ extension mem. each (iter_from_extension env mem extension) mem) depth
        (load 8 mem iter.p_data) mem
    else if ltype (current iter).type == Descriptor.ltype_submessage
    then release_submessages env each iter mem
    else mem

-- A field of a union that is not its current one.
unfoldable pub is_other_union_field : Iter → Memory → Bool
is_other_union_field iter mem =
    htype (current iter).type == Descriptor.htype_oneof
    && not (load 4 mem iter.p_size == (current iter).tag)

-- The fuel bounds the nesting of submessages and the lists of extensions.
unfoldable pub release_single_field : DecodeEnv → ℕ → Iter → Memory → Memory
release_single_field env zero iter mem = mem
release_single_field env (suc depth) iter mem =
    if is_other_union_field iter mem
    then mem
    else release_pointer env iter
        (release_inside env depth (release_single_field env depth) iter mem)

unfoldable pub release : DecodeEnv → ℕ → List Field → ℕ → Memory → Memory
release env depth = release_message (release_single_field env depth)

-- A decoder that moves the iterator.
abbrev pub IterDecoder : Type 0
IterDecoder = Iter → Memory → IStream → Iter × (Bool × Memory × IStream)

-- What follows the search for the new tag.
unfoldable pub found_new : Bool × Iter → Memory → IStream → Iter × (Bool × Memory × IStream)
found_new (true, iter) mem s = (iter, (true, mem, s))
found_new (false, iter) mem s =
    (iter, (false, mem, record s { errmsg = set_error s.errmsg iterator_error }))

-- What follows the search for the old tag.
unfoldable pub found_old :
    DecodeEnv → ℕ → ℕ → Bool × Iter → Memory → IStream → Iter × (Bool × Memory × IStream)
found_old env depth new_tag (true, iter) mem s =
    found_new (iter_find new_tag iter) (release_single_field env depth iter mem) s
found_old env depth new_tag (false, iter) mem s =
    (iter, (false, mem, record s { errmsg = set_error s.errmsg invalid_union_tag }))

unfoldable pub release_union_field : DecodeEnv → ℕ → IterDecoder
release_union_field env depth iter mem s =
    if old_tag == 0 || old_tag == (current iter).tag
    then (iter, (true, mem, s))
    else found_old env depth (current iter).tag (iter_find old_tag iter) mem s
  where
    old_tag : ℕ
    old_tag = load 4 mem iter.p_size

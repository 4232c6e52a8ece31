-- ===== src/Nanopb/MessageDecode/Defaults.antt =====
-- `pb_field_set_to_default` and `pb_message_set_to_defaults`.
use ivr_repo.Base.{Bool, ℕ, zero, suc, ◌+◌, not, ◌&&◌, ◌||◌, List, ◌==◌, if◌then◌else◌, replicate}
use ivr_repo.Nanopb.Descriptor.{Field, ltype, htype, atype}
use ivr_repo.Nanopb.Iter.{Iter, current}
use ivr_repo.Nanopb.Memory.{Memory, load, load_bytes}
use ivr_repo.Nanopb.Memory.Store.{store, store_bytes, store_byte}
use ivr_repo.Nanopb.MessageDecode.{DecodeEnv, for_message, for_extensions, iter_from_extension}
use ivr_repo.Nanopb.Descriptor

-- `memset` with 0
unfoldable pub clear : ℕ → ℕ → Memory → Memory
clear size p mem = store_bytes (replicate size 0) mem p

-- What is done where `init_data` is true. `message` is `pb_message_set_to_defaults`.
unfoldable pub default_data :
    DecodeEnv → (List Field → ℕ → Memory → Memory) → Iter → Memory → Memory
default_data env message iter mem =
    if ltype field.type == Descriptor.ltype_submessage
    then message (env.descriptors field.ptr) iter.p_data mem
    else if not (field.ptr == 0)
    then store_bytes (load_bytes field.data_size mem field.ptr) mem iter.p_data
    else clear field.data_size iter.p_data mem
  where
    field : Field
    field = current iter

-- A repeated field, whose count is set to 0, or a oneof field, whose tag is.
abbrev pub is_counted : Field → Bool
is_counted field =
    htype field.type == Descriptor.htype_repeated || htype field.type == Descriptor.htype_oneof

unfoldable pub default_static :
    DecodeEnv → (List Field → ℕ → Memory → Memory) → Iter → Memory → Memory
default_static env message iter mem =
    if htype (current iter).type == Descriptor.htype_optional && not (iter.p_size == iter.p_data)
    then default_data env message iter (store_byte mem iter.p_size 0)
    else if is_counted (current iter)
    then store 4 0 mem iter.p_size
    else default_data env message iter mem

unfoldable pub default_pointer : Iter → Memory → Memory
default_pointer iter mem =
    if is_counted (current iter)
    then store 4 0 (store 8 0 mem iter.p_data) iter.p_size
    else store 8 0 mem iter.p_data

-- The body of the loop over the extensions; `field` is the function itself.
unfoldable pub default_extension : DecodeEnv → (Iter → Memory → Memory) → ℕ → Memory → Memory
default_extension env field extension mem = field (iter_from_extension env mem' extension) mem'
  where
    mem' : Memory
    mem' = store_byte mem (extension + 24) 0

-- The fuel bounds the nesting of submessages and the lists of extensions.
unfoldable pub field_set_to_default : DecodeEnv → ℕ → Iter → Memory → Memory
field_set_to_default env zero iter mem = mem
field_set_to_default env (suc depth) iter mem =
    if ltype type == Descriptor.ltype_extension
    then for_extensions (default_extension env (field_set_to_default env depth)) depth
        (load 8 mem iter.p_data) mem
    else if atype type == Descriptor.atype_static
    then default_static env (for_message (field_set_to_default env depth)) iter mem
    else if atype type == Descriptor.atype_pointer
    then default_pointer iter mem
    else mem
  where
    type : ℕ
    type = (current iter).type

unfoldable pub message_set_to_defaults : DecodeEnv → ℕ → List Field → ℕ → Memory → Memory
message_set_to_defaults env depth = for_message (field_set_to_default env depth)

-- ===== src/Nanopb/Message/Wire/Whole.antt =====
-- The bytes of fields, extensions and whole messages on the wire.
use ivr_repo.Base.{ℕ, zero, suc, ◌+◌, Bool, true, false, not, none, some, List, [], length}
use ivr_repo.Base.{◌==◌, if◌then◌else◌}
use ivr_repo.Nanopb.Descriptor.{Field, ltype, atype, htype}
use ivr_repo.Nanopb.Iter.{Iter, move, field_at, current, iter_begin, iter_next}
use ivr_repo.Nanopb.Memory.{load}
use ivr_repo.Nanopb.Message.Basic.{check_proto3_default_value}
use ivr_repo.Nanopb.Message.Fields.{Env}
use ivr_repo.Nanopb.Message.Wire.{Bytes, UserBytes, both, present_at}
use ivr_repo.Nanopb.Descriptor

module _ (env : Env) (user : UserBytes) (depth : ℕ) (sub : List Field → ℕ → Bytes) where
  -- An optional field without a flag is there unless it has its default value.
  unfoldable pub has_value : Field → ℕ → Bool
  has_value field p_data =
      if htype field.type == Descriptor.htype_optional
      then not (check_proto3_default_value env depth field p_data)
      else true

  unfoldable pub basic_bytes : Field → ℕ → Bytes
  basic_bytes field p_data =
      let p_size = move p_data field.size_offset in
      let pointer = load 8 env.mem p_data in
      if atype field.type == Descriptor.atype_pointer
      then present_at env sub field p_size pointer (not (pointer == 0))
      else present_at env sub field p_size p_data (has_value field p_data)

  unfoldable pub callback_bytes : Field → ℕ → Bytes
  callback_bytes field p_data =
      if load 8 env.mem p_data == 0
      then some []
      else user.of_callback (load 8 env.mem p_data) field (p_data + 8)

  unfoldable pub field_bytes : Field → ℕ → Bytes
  field_bytes field p_data =
      if atype field.type == Descriptor.atype_static
      then basic_bytes field p_data
      else if atype field.type == Descriptor.atype_pointer
      then basic_bytes field p_data
      else if atype field.type == Descriptor.atype_callback
      then callback_bytes field p_data
      else none

  -- One extension, by the user's function or by the only field of its table
  unfoldable pub extension_bytes : ℕ → Bytes
  extension_bytes extension =
      let type = load 8 env.mem extension in
      let field = field_at (env.descriptors (load 8 env.mem (type + 16))) 0 in
      if load 8 env.mem (type + 8) == 0
      then (if atype field.type == Descriptor.atype_pointer
          then field_bytes field (extension + 8)
          else field_bytes field (load 8 env.mem (extension + 8)))
      else user.of_extension (load 8 env.mem (type + 8)) extension

  -- A list of extensions, of less than `fuel`
  unfoldable pub extensions_bytes : ℕ → ℕ → Bytes
  extensions_bytes zero extension = none
  extensions_bytes (suc fuel) extension =
      let rest = extensions_bytes fuel (load 8 env.mem (extension + 16)) in
      if extension == 0 then some [] else both (extension_bytes extension) rest

  unfoldable pub any_bytes : Field → ℕ → Bytes
  any_bytes field p_data =
      if ltype field.type == Descriptor.ltype_extension
      then extensions_bytes depth (load 8 env.mem p_data)
      else field_bytes field p_data

-- The fields one after another
unfoldable pub fields_bytes : (Field → ℕ → Bytes) → ℕ → Iter → Bytes
fields_bytes each zero iter = some []
fields_bytes each (suc fuel) iter = both (each (current iter) iter.p_data) (
    let (more, iter') = iter_next iter in
    elim more [ true ↦ fields_bytes each fuel iter' | false ↦ some [] ])

unfoldable pub whole_bytes : (Field → ℕ → Bytes) → List Field → ℕ → Bytes
whole_bytes each fields src_struct =
    let (begun, iter) = iter_begin fields src_struct in
    elim begun [ true ↦ fields_bytes each (length fields) iter | false ↦ some [] ]

-- A message whose submessages and lists of extensions are less deep than `depth`
unfoldable pub message_bytes : Env → UserBytes → ℕ → List Field → ℕ → Bytes
message_bytes env user zero fields src_struct = none
message_bytes env user (suc depth) fields src_struct =
    whole_bytes (any_bytes env user depth (message_bytes env user depth)) fields src_struct

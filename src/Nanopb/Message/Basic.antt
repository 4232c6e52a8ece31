-- ===== src/Nanopb/Message/Basic.antt =====
-- Fields with static or pointer allocation: arrays, proto3 defaults, `encode_basic_field`.
use ivr_repo.Base.{ℕ, zero, suc, ◌+◌, ◌*◌, Bool, true, false, not, ◌&&◌, ◌||◌, List, [], ltb, leb}
use ivr_repo.Base.{◌==◌, if◌then◌else◌, length}
use ivr_repo.Nanopb.Descriptor.{Field, ltype, atype, htype, array_max_size_exceeded}
use ivr_repo.Nanopb.Descriptor.{missing_required_field}
use ivr_repo.Nanopb.Encode.{encode_varint, encode_tag, encode_tag_for_field}
use ivr_repo.Nanopb.Iter.{Iter, move, current, iter_begin, iter_next}
use ivr_repo.Nanopb.Memory.{load}
use ivr_repo.Nanopb.Message.Fields.{Env, encoder}
use ivr_repo.Nanopb.Output.{OStream, Writer, ◌>>◌, succeed, return_error, write, is_null}
use ivr_repo.Nanopb.Output.{ostream_sizing}
use ivr_repo.Nanopb.Descriptor

-- `count` calls of `func`, on addresses `data_size` apart.
unfoldable pub encode_items : ℕ → ℕ → (ℕ → Writer) → ℕ → Writer
encode_items zero data_size func p = succeed
encode_items (suc count) data_size func p =
    func p >> encode_items count data_size func (p + data_size)

-- The data of a packed array behind its tag, once the size is known.
unfoldable pub packed_data : Writer → ℕ → Writer
packed_data items size s = if is_null s.callback then write [] size s else items s

unfoldable pub write_packed : Writer → ℕ → Writer
write_packed items size = encode_varint size >> packed_data items size

unfoldable pub sized_packed : Writer → Bool × OStream → Writer
sized_packed items (false, sizestream) s = (false, s)
sized_packed items (true, sizestream) s = write_packed items sizestream.bytes_written s

unfoldable pub encode_packed : Field → ℕ → Writer → Writer
encode_packed field count items =
    if ltype field.type == Descriptor.ltype_fixed32
    then write_packed items (4 * count)
    else if ltype field.type == Descriptor.ltype_fixed64
    then write_packed items (8 * count)
    else sized_packed items (items ostream_sizing)

module _ (env : Env) (sub : List Field → ℕ → Writer) where
  -- The address of an array entry's data: strings and bytes behind a pointer are pointers again.
  unfoldable pub entry : Field → ℕ → ℕ
  entry field p =
      if atype field.type == Descriptor.atype_pointer
        && (ltype field.type == Descriptor.ltype_string
            || ltype field.type == Descriptor.ltype_bytes)
      then load 8 env.mem p
      else p

  -- A tag and a value behind it.
  unfoldable pub encode_tagged : Field → ℕ → Writer
  encode_tagged field p = encode_tag_for_field field >> encoder env sub field p

  unfoldable pub encode_array : Field → ℕ → ℕ → Writer
  encode_array field p_data count =
      if count == 0
      then succeed
      else if not (atype field.type == Descriptor.atype_pointer) && ltb field.array_size count
      then return_error array_max_size_exceeded
      else if leb (ltype field.type) Descriptor.ltype_last_packable
      then (do
        encode_tag Descriptor.wt_string field.tag
        encode_packed field count
            (encode_items count field.data_size (encoder env sub field) p_data))
      else encode_items count field.data_size (λ p. encode_tagged field (entry field p)) p_data

-- Whether `n` bytes are 0.
unfoldable pub all_zero : Env → ℕ → ℕ → Bool
all_zero env zero p = true
all_zero env (suc n) p = (env.mem p == 0) && all_zero env n (p + 1)

-- The loop over the fields of a submessage.
unfoldable pub all_default : (Field → ℕ → Bool) → ℕ → Iter → Bool
all_default check zero iter = true
all_default check (suc fuel) iter = elim (check (current iter) iter.p_data) [
  | false ↦ false
  | true ↦
      let (more, iter') = iter_next iter in
      elim more [ true ↦ all_default check fuel iter' | false ↦ true ]
]

unfoldable pub submessage_default : (Field → ℕ → Bool) → List Field → ℕ → Bool
submessage_default check fields p_data =
    let (begun, iter) = iter_begin fields p_data in
    elim begun [ true ↦ all_default check (length fields) iter | false ↦ true ]

-- The part for proto3 singular fields; `check` is the function itself, for submessages.
unfoldable pub singular_default : Env → (Field → ℕ → Bool) → Field → ℕ → Bool
singular_default env check field p_data =
    if not (atype field.type == Descriptor.atype_static)
    then all_zero env field.data_size p_data
    else if ltype field.type == Descriptor.ltype_bytes
    then load 4 env.mem p_data == 0
    else if ltype field.type == Descriptor.ltype_string
    then env.mem p_data == 0
    else if ltype field.type == Descriptor.ltype_fixed_length_bytes
    then field.data_size == 0
    else if ltype field.type == Descriptor.ltype_submessage
    then submessage_default check (env.descriptors field.ptr) p_data
    else all_zero env field.data_size p_data

-- `pb_check_proto3_default_value`, on fuel for the nesting of submessages.
unfoldable pub check_proto3_default_value : Env → ℕ → Field → ℕ → Bool
check_proto3_default_value env zero field p_data = false
check_proto3_default_value env (suc depth) field p_data =
    if htype field.type == Descriptor.htype_required
    then false
    else if htype field.type == Descriptor.htype_repeated
    then load 4 env.mem p_size == 0
    else if htype field.type == Descriptor.htype_oneof
    then load 4 env.mem p_size == 0
    else if htype field.type == Descriptor.htype_optional && not (field.size_offset == 0)
    then load 1 env.mem p_size == 0
    else singular_default env (check_proto3_default_value env depth) field p_data
  where
    p_size : ℕ
    p_size = move p_data field.size_offset

module _ (env : Env) (depth : ℕ) (sub : List Field → ℕ → Writer) where
  -- The switch on the repetition: `has`, `count` and `which` are what stands at `pSize`, read as
  -- each case reads it.
  unfoldable pub encode_present : Field → ℕ → Bool → ℕ → ℕ → Writer
  encode_present field p_data has count which =
      if htype field.type == Descriptor.htype_required
      then if p_data == 0
        then return_error missing_required_field
        else encode_tagged env sub field p_data
      else if htype field.type == Descriptor.htype_optional
      then if has then encode_tagged env sub field p_data else succeed
      else if htype field.type == Descriptor.htype_repeated
      then encode_array env sub field p_data count
      else if which == field.tag
      then encode_tagged env sub field p_data
      else succeed

  -- `implicit_has`, before a pointer is followed
  unfoldable pub implicit_has : Field → ℕ → Bool
  implicit_has field p_data =
      if htype field.type == Descriptor.htype_optional
      then not (check_proto3_default_value env depth field p_data)
      else true

  -- `*(const bool*)pSize`, `count` and `*(const pb_size_t*)pSize`. Without a size offset `pSize`
  -- points to `implicit_has`, which is one byte: a oneof field, that reads more, always has one.
  unfoldable pub encode_at : Field → ℕ → ℕ → Bool → Writer
  encode_at field p_size p_data implicit =
      if field.size_offset == 0
      then encode_present field p_data implicit field.array_size (if implicit then 1 else 0)
      else encode_present field p_data (not (load 1 env.mem p_size == 0)) (load 4 env.mem p_size)
          (load 4 env.mem p_size)

  unfoldable pub encode_basic_field : Field → ℕ → Writer
  encode_basic_field field p_data =
      if atype field.type == Descriptor.atype_pointer
      then encode_at field p_size pointer (not (pointer == 0))
      else encode_at field p_size p_data (implicit_has field p_data)
    where
      p_size : ℕ
      p_size = move p_data field.size_offset

      pointer : ℕ
      pointer = load 8 env.mem p_data

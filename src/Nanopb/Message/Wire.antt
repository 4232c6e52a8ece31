-- ===== src/Nanopb/Message/Wire.antt =====
-- The bytes of a message on the wire, without a stream: what pb_encode.c should write.
pub mod Whole
use ivr_repo.Base.{
  ℕ, zero, suc, ◌+◌, ◌-◌, ◌*◌, ◌%◌, ◌^◌, bit_or, Bool, true, false, not, ◌&&◌, ◌||◌, Option,
}
use ivr_repo.Base.{none, some, List, [], ◌++◌, length, ltb, leb, ◌==◌, if◌then◌else◌}
use ivr_repo.Nanopb.Descriptor.{Field, ltype, atype, htype, word}
use ivr_repo.Nanopb.Encode.{varint_bytes, zigzag, fixed32_bytes, fixed64_bytes, wire_type}
use ivr_repo.Nanopb.Memory.{load, sign_extend, load_bytes, string_size}
use ivr_repo.Nanopb.Message.Fields.{Env}
use ivr_repo.Nanopb.Descriptor

-- `none` is a message that cannot be encoded.
abbrev pub Bytes : Type 0
Bytes = Option (List ℕ)

abbrev pub both : Bytes → Bytes → Bytes
both none o = none
both (some xs) none = none
both (some xs) (some ys) = some (xs ++ ys)

-- Bytes behind their number
abbrev pub behind_size : Bytes → Bytes
behind_size none = none
behind_size (some bs) = some (varint_bytes (length bs % word) ++ bs)

-- A choice by the size of a number
abbrev pub by_size : ℕ → List ℕ → List ℕ → List ℕ → List ℕ → Bytes
by_size size a b c d =
    if size == 1
    then some a
    else if size == 2
    then some b
    else if size == 4
    then some c
    else if size == 8
    then some d
    else none

-- What the user's functions write, for a callback field and for an extension.
pub record UserBytes : Type 0 where
  pub of_callback : ℕ → Field → ℕ → Bytes
  pub of_extension : ℕ → ℕ → Bytes

abbrev pub tag_of : Option ℕ → ℕ → Bytes
tag_of none tag = none
tag_of (some wiretype) tag = some (varint_bytes (bit_or (tag * 8 % 2 ^ 64) wiretype))

abbrev pub tag_bytes : Field → Bytes
tag_bytes field = tag_of (wire_type (ltype field.type)) field.tag

-- `count` items that are `size` bytes apart
unfoldable pub items_bytes : ℕ → ℕ → (ℕ → Bytes) → ℕ → Bytes
items_bytes zero size each p = some []
items_bytes (suc count) size each p = both (each p) (items_bytes count size each (p + size))

-- A packed array behind its tag
unfoldable pub packed_bytes : Field → ℕ → Bytes → Bytes
packed_bytes field count items =
    if ltype field.type == Descriptor.ltype_fixed32
    then both (some (varint_bytes (4 * count))) items
    else if ltype field.type == Descriptor.ltype_fixed64
    then both (some (varint_bytes (8 * count))) items
    else behind_size items

-- `sub` gives the bytes of a submessage.
module _ (env : Env) (sub : List Field → ℕ → Bytes) where
  unfoldable pub signed_bytes : (ℕ → ℕ) → Field → ℕ → Bytes
  signed_bytes code field src =
      by_size field.data_size (varint_bytes (code (sign_extend 8 (load 1 env.mem src))))
        (varint_bytes (code (sign_extend 16 (load 2 env.mem src))))
        (varint_bytes (code (sign_extend 32 (load 4 env.mem src))))
        (varint_bytes (code (load 8 env.mem src)))

  unfoldable pub unsigned_bytes : Field → ℕ → Bytes
  unsigned_bytes field src =
      by_size field.data_size (varint_bytes (load 1 env.mem src))
        (varint_bytes (load 2 env.mem src)) (varint_bytes (load 4 env.mem src))
        (varint_bytes (load 8 env.mem src))

  -- A string of `size` bytes at `src`
  abbrev pub string_at : ℕ → ℕ → Bytes
  string_at size src = some (varint_bytes size ++ load_bytes size env.mem src)

  abbrev pub empty_string : Bytes
  empty_string = some (varint_bytes 0 ++ [])

  unfoldable pub bytes_bytes : Field → ℕ → Bytes
  bytes_bytes field src =
      if src == 0
      then empty_string
      else if atype field.type == Descriptor.atype_static
          && ltb field.data_size (load 4 env.mem src + 4)
      then none
      else string_at (load 4 env.mem src) (src + 4)

  unfoldable pub string_bytes : Field → ℕ → Bytes
  string_bytes field src =
      let size =
        if atype field.type == Descriptor.atype_pointer
        then string_size (2 ^ 64 - 1) env.mem src
        else string_size field.data_size env.mem src in
      if src == 0 then empty_string else string_at size src

  -- The value of a field at `src`, by the type of the field
  unfoldable pub value_bytes : Field → ℕ → Bytes
  value_bytes field src =
      if t == Descriptor.ltype_varint
      then signed_bytes (λ v. v) field src
      else if t == Descriptor.ltype_uvarint
      then unsigned_bytes field src
      else if t == Descriptor.ltype_svarint
      then signed_bytes zigzag field src
      else if t == Descriptor.ltype_fixed32
      then some (fixed32_bytes (load 4 env.mem src))
      else if t == Descriptor.ltype_fixed64
      then some (fixed64_bytes (load 8 env.mem src))
      else if t == Descriptor.ltype_bytes
      then bytes_bytes field src
      else if t == Descriptor.ltype_string
      then string_bytes field src
      else if t == Descriptor.ltype_submessage
      then (if field.ptr == 0 then none else behind_size (sub (env.descriptors field.ptr) src))
      else if t == Descriptor.ltype_fixed_length_bytes
      then string_at field.data_size src
      else none
    where
      t : ℕ
      t = ltype field.type

  unfoldable pub tagged_bytes : Field → ℕ → Bytes
  tagged_bytes field p = both (tag_bytes field) (value_bytes field p)

  -- An item of an array of pointers: strings and bytes stand behind them.
  unfoldable pub item_address : Field → ℕ → ℕ
  item_address field p =
      if atype field.type == Descriptor.atype_pointer
        && (ltype field.type == Descriptor.ltype_string
            || ltype field.type == Descriptor.ltype_bytes)
      then load 8 env.mem p
      else p

  -- An array is packed if its items are numbers; else each item has a tag.
  unfoldable pub array_bytes : Field → ℕ → ℕ → Bytes
  array_bytes field p_data count =
      if count == 0
      then some []
      else if not (atype field.type == Descriptor.atype_pointer) && ltb field.array_size count
      then none
      else if leb (ltype field.type) Descriptor.ltype_last_packable
      then both (tag_of (some Descriptor.wt_string) field.tag)
          (packed_bytes field count (items_bytes count field.data_size (value_bytes field) p_data))
      else items_bytes count field.data_size (λ p. tagged_bytes field (item_address field p)) p_data

  unfoldable pub present_bytes : Field → ℕ → Bool → ℕ → ℕ → Bytes
  present_bytes field p_data has count which =
      if htype field.type == Descriptor.htype_required
      then (if p_data == 0 then none else tagged_bytes field p_data)
      else if htype field.type == Descriptor.htype_optional
      then (if has then tagged_bytes field p_data else some [])
      else if htype field.type == Descriptor.htype_repeated
      then array_bytes field p_data count
      else if which == field.tag
      then tagged_bytes field p_data
      else some []

  unfoldable pub present_at : Field → ℕ → ℕ → Bool → Bytes
  present_at field p_size p_data implicit =
      if field.size_offset == 0
      then present_bytes field p_data implicit field.array_size (if implicit then 1 else 0)
      else present_bytes field p_data (not (load 1 env.mem p_size == 0)) (load 4 env.mem p_size)
          (load 4 env.mem p_size)

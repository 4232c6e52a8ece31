-- ===== src/Nanopb/Iter.antt =====
-- nanopb/pb_common.c: the iterator over the fields of a message.
pub mod Cycle
mod Examples
use ivr_repo.Base.{ℕ, zero, suc, ◌+◌, ◌-◌, ◌*◌, ◌%◌, ◌^◌, Bool, true, false, not, ◌&&◌, List}
use ivr_repo.Base.{length, leb, ◌==◌, if◌then◌else◌, get_or}
use ivr_repo.Nanopb.Descriptor.{Field, last_field, ltype, htype, atype, word, size_max}
use ivr_repo.Nanopb.Descriptor

-- An address moved by a `pb_ssize_t`, whose 32 bits are sign-extended.
abbrev pub move : ℕ → ℕ → ℕ
move p offset = (p + (if leb (2 ^ 31) offset then offset + (2 ^ 64 - 2 ^ 32) else offset)) % word

-- `pb_field_iter_t`. The table `start` ends with its list: what lies behind is PB_LAST_FIELD, and
-- `pos` is an index into it. `p_data` and `p_size` are addresses.
pub record Iter : Type 0 where
  pub start : List Field
  pub pos : ℕ
  pub required_field_index : ℕ
  pub dest_struct : ℕ
  pub p_data : ℕ
  pub p_size : ℕ

abbrev pub field_at : List Field → ℕ → Field
field_at fields i = get_or fields i last_field

abbrev pub current : Iter → Field
current iter = field_at iter.start iter.pos

-- What `pb_field_iter_begin` stores.
unfoldable pub first : List Field → ℕ → Iter
first fields dest = record {
  start = fields;
  pos = 0;
  required_field_index = 0;
  dest_struct = dest;
  p_data = data_at;
  p_size = move data_at (field_at fields 0).size_offset;
}
  where
    data_at : ℕ
    data_at = (dest + (field_at fields 0).data_offset) % word

unfoldable pub iter_begin : List Field → ℕ → Bool × Iter
iter_begin fields dest = (not ((field_at fields 0).tag == 0), first fields dest)

-- The bytes that a field takes in the message struct.
unfoldable pub struct_size : Field → ℕ
struct_size f =
    if atype f.type == Descriptor.atype_static && htype f.type == Descriptor.htype_repeated
    then f.data_size * f.array_size
    else if atype f.type == Descriptor.atype_pointer
    then 8
    else f.data_size

abbrev pub is_oneof : Field → Bool
is_oneof f = htype f.type == Descriptor.htype_oneof

-- The last part of `pb_field_iter_next`, for the fields `prev` and `next`.
unfoldable pub step : Field → Field → Iter → Iter
step prev next iter =
    if is_oneof prev && is_oneof next && next.data_offset == size_max
    then record iter { pos = suc iter.pos }
    else record iter {
      pos = suc iter.pos;
      required_field_index =
          iter.required_field_index
          + (if htype prev.type == Descriptor.htype_required then 1 else 0);
      p_data = data_at;
      p_size = move data_at next.size_offset;
    }
  where
    data_at : ℕ
    data_at = (iter.p_data + struct_size prev + next.data_offset) % word

unfoldable pub iter_next : Iter → Bool × Iter
iter_next iter =
    if (current iter).tag == 0
    then (false, iter)
    else if next.tag == 0
    then (false, first iter.start iter.dest_struct)
    else (true, step (current iter) next iter)
  where
    next : Field
    next = field_at iter.start (suc iter.pos)

-- Whether the field at the iterator is the one that `pb_field_iter_find` wants.
unfoldable pub wanted : ℕ → Iter → Bool
wanted tag iter =
    (current iter).tag == tag && not (ltype (current iter).type == Descriptor.ltype_extension)

-- The loop of `pb_field_iter_find`, from the position `stop` round to it again. A round moves one
-- field on, so the number of fields is fuel enough.
unfoldable pub find_loop : ℕ → ℕ → ℕ → Iter → Bool × Iter
find_loop zero stop tag iter = (false, iter)
find_loop (suc fuel) stop tag iter = elim (wanted tag iter) [
  | true ↦ (true, iter)
  | false ↦
      let (more, iter') = iter_next iter in
      elim (iter'.pos == stop) [ true ↦ (false, iter') | false ↦ find_loop fuel stop tag iter' ]
]

unfoldable pub iter_find : ℕ → Iter → Bool × Iter
iter_find tag iter = find_loop (suc (length iter.start)) iter.pos tag iter

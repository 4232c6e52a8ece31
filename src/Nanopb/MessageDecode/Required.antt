-- ===== src/Nanopb/MessageDecode/Required.antt =====
-- The bits of `fields_seen` in `pb_decode_noinit`: two words of 32, for 64 required fields.
pub mod Bits
pub mod Seen
pub mod Count
use ivr_repo.Base.{ℕ, zero, suc, ◌+◌, ◌-◌, ◌/◌, ◌%◌, ◌^◌, bit_or, min, Bool, true, false, not}
use ivr_repo.Base.{◌&&◌, ◌||◌, List, [], ◌∷◌, set, get_or, length, ltb, ◌==◌, if◌then◌else◌}
use ivr_repo.Nanopb.Descriptor.{Field, htype}
use ivr_repo.Nanopb.Iter.{Iter, current, iter_next}
use ivr_repo.Nanopb.Descriptor

-- PB_MAX_REQUIRED_FIELDS
abbrev pub max_required_fields : ℕ
max_required_fields = 64

abbrev pub allbits : ℕ
allbits = 2 ^ 32 - 1

abbrev pub none_seen : List ℕ
none_seen = 0 ∷ 0 ∷ []

unfoldable pub mark_seen : ℕ → List ℕ → List ℕ
mark_seen index seen =
    set seen (index / 32) (bit_or (get_or seen (index / 32) 0) (2 ^ (index % 32)))

-- The mark for the field at the iterator
unfoldable pub mark_field : Iter → List ℕ → List ℕ
mark_field iter seen =
    if htype (current iter).type == Descriptor.htype_required
      && ltb iter.required_field_index max_required_fields
    then mark_seen iter.required_field_index seen
    else seen

-- `req_field_count` and the type of the last field, and the iterator at the first again.
unfoldable pub seek_end : ℕ → Iter → ℕ × ℕ × Iter
seek_end zero iter = (iter.required_field_index, (current iter).type, iter)
seek_end (suc fuel) iter =
    let (more, iter') = iter_next iter in
    elim more [
      | true ↦ seek_end fuel iter'
      | false ↦ (iter.required_field_index, (current iter).type, iter')
    ]

unfoldable pub fixed_up : ℕ × ℕ × Iter → ℕ
fixed_up (count, last_type, iter) = min max_required_fields (
    if htype last_type == Descriptor.htype_required && not ((current iter).tag == 0)
    then count + 1
    else count)

-- `req_field_count`; the number of fields is fuel enough.
unfoldable pub required_count : Iter → ℕ
required_count iter = fixed_up (seek_end (length iter.start) iter)

-- The words from `i` on, `n` of them, that are to be full.
unfoldable pub words_full : ℕ → ℕ → List ℕ → Bool
words_full zero i seen = true
words_full (suc n) i seen = (get_or seen i 0 == allbits) && words_full n (i + 1) seen

unfoldable pub all_seen : ℕ → List ℕ → Bool
all_seen count seen =
    words_full (count / 32) 0 seen
    && ((count % 32 == 0) || (get_or seen (count / 32) 0 == allbits / 2 ^ (32 - count % 32)))

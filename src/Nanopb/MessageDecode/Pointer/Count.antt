-- ===== src/Nanopb/MessageDecode/Pointer/Count.antt =====
-- The count of a repeated pointer field, where its array cannot grow.
use ivr_repo.Base.{lt→ltb, ℕ, suc, ◌+◌, ◌*◌, ◌<◌, ◌≡◌, arith, false, ◌==◌}
use ivr_repo.Nanopb.Descriptor.{ltype, htype, Field, word, set_error, realloc_failed, size_max}
use ivr_repo.Nanopb.FieldDecode.{Decoder, store_pointer}
use ivr_repo.Nanopb.FieldDecode.Allocate.{allocate_field-product}
use ivr_repo.Nanopb.Input.{IStream}
use ivr_repo.Nanopb.Iter.{Iter, current}
use ivr_repo.Nanopb.Memory.{Memory, load}
use ivr_repo.Nanopb.Memory.Store.{load-store}
use ivr_repo.Nanopb.MessageDecode.{DecodeEnv}
use ivr_repo.Nanopb.MessageDecode.Pointer.{decode_pointer_item}
use ivr_repo.Nanopb.MessageDecode.Release.{free_entries, free_strings}
use ivr_repo.Nanopb.MessageDecode.Static.{count_up}
use ivr_repo.Nanopb.Descriptor

pub load-count_up :
    (iter : Iter) (mem : Memory) (n : ℕ)
    → load 4 mem iter.p_size ≡ n
    → n < size_max
    → load 4 (count_up iter mem) iter.p_size ≡ suc n
unfolding count_up
load-count_up iter mem n h small =
    let up : load 4 mem iter.p_size + 1 ≡ suc n = omega arith in
    rw up (load-store 4 (suc n) mem iter.p_size (omega arith))

module _ (env : DecodeEnv) (release : Iter → Memory → Memory) where
  count-fails :
      (defaults : ℕ → ℕ → Memory → Memory) (dec : Field → ℕ → Decoder) (iter : Iter) (mem : Memory)
      (s : IStream) (n : ℕ)
      → load 4 mem iter.p_size ≡ n
      → n < size_max
      → 0 < (current iter).data_size
      → suc n * (current iter).data_size < word
      → ((m : Memory) (p size : ℕ) → env.realloc m p size ≡ (0, m))
      → decode_pointer_item env.realloc release defaults dec iter mem s
        ≡ (false, count_up iter mem, record s { errmsg = set_error s.errmsg realloc_failed })
  unfolding decode_pointer_item store_pointer
  count-fails defaults dec iter mem s n h small some fits null =
      let size = (current iter).data_size in
      let up = load-count_up iter mem n h small in
      let asked =
        allocate_field-product env.realloc iter.p_data size (suc n) (count_up iter mem) s some
          (omega arith) in
      let not_full : (n == size_max) ≡ false = ground arith in
      rw (h, not_full, up, asked, lt→ltb _ _ fits, null _ _ _)

-- A repeated field of strings behind a pointer, whose array of `n` items cannot grow since `realloc`
-- returns NULL and leaves the memory: the item is refused with "realloc failed", but its count is
-- `n + 1` then, and the release of the field frees `n + 1` entries of the array of `n`.
pub decode_pointer_item-free_strings :
    (env : DecodeEnv) (release : Iter → Memory → Memory) (defaults : ℕ → ℕ → Memory → Memory)
    (dec : Field → ℕ → Decoder) (iter : Iter) (mem : Memory) (s : IStream) (n : ℕ)
    → htype (current iter).type ≡ Descriptor.htype_repeated
    → ltype (current iter).type ≡ Descriptor.ltype_string
    → load 4 mem iter.p_size ≡ n
    → n < size_max
    → 0 < (current iter).data_size
    → suc n * (current iter).data_size < word
    → ((m : Memory) (p size : ℕ) → env.realloc m p size ≡ (0, m))
    → let after = count_up iter mem in
      (decode_pointer_item env.realloc release defaults dec iter mem s
        ≡ (false, after, record s { errmsg = set_error s.errmsg realloc_failed }))
      × (free_strings env iter after ≡ free_entries env (suc n) (load 8 after iter.p_data) after)
unfolding free_strings
decode_pointer_item-free_strings env release defaults dec iter mem s n repeated text h small some
      fits null =
    (
      count-fails env release defaults dec iter mem s n h small some fits null,
      rw (repeated, text, load-count_up iter mem n h small),
    )

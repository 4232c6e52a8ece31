-- ===== src/Nanopb/MessageDecode/Release/Cleared.antt =====
-- What `pb_release_single_field` leaves of a field behind a pointer.
use ivr_repo.Base.{◌∙◌, inr, arith, inl, ◌+◌, ◌<◌, ◌≤◌, ◌≡◌, ℕ, suc}
use ivr_repo.Nanopb.Descriptor.{atype, htype}
use ivr_repo.Nanopb.Memory.Store.{length-le_bytes, load-store, le_bytes, store_bytes-outside}
use ivr_repo.Nanopb.MessageDecode.Release.{free_strings, current, Iter, DecodeEnv, store}
use ivr_repo.Nanopb.MessageDecode.Release.{is_other_union_field, load, clear_count, free_main}
use ivr_repo.Nanopb.MessageDecode.Release.{release_pointer, Memory, release_single_field}
use ivr_repo.Nanopb.MessageDecode.Release.{release_inside}
use ivr_repo.Nanopb.MessageDecode.Static.Bounds.{load_same, Disjoint}
use ivr_repo.Nanopb.Descriptor

-- A number is read as before behind a store apart from it.
load_apart :
    (n k v p q : ℕ) (mem : Memory) → Disjoint p k q n → load n (store k v mem p) q ≡ load n mem q
load_apart n k v p q mem apart = load_same n q mem (store k v mem p) (outside apart)
  where
    outside : Disjoint p k q n → (r : ℕ) → q ≤ r → r < q + n → store k v mem p r ≡ mem r
    outside (inl before) r h less =
        store_bytes-outside (le_bytes k v) mem p r (inr (omega (arith, length-le_bytes k v)))
    outside (inr behind) r h less = store_bytes-outside (le_bytes k v) mem p r (inl (omega arith))

-- A repeated field behind a pointer, which is not of a union, with its count apart from the pointer:
-- if `free` leaves the count as it is, the release leaves a NULL pointer and a count
-- of 0.
pub release_single_field-cleared :
    (env : DecodeEnv) (depth : ℕ) (iter : Iter) (mem : Memory)
    → htype (current iter).type ≡ Descriptor.htype_repeated
    → atype (current iter).type ≡ Descriptor.atype_pointer
    → Disjoint iter.p_data 8 iter.p_size 4
    → ((m : Memory) (p : ℕ) → load 4 (env.free m p) iter.p_size ≡ load 4 m iter.p_size)
    → let mem' = release_single_field env (suc depth) iter mem in
      (load 8 mem' iter.p_data ≡ 0) × (load 4 mem' iter.p_size ≡ 0)
unfolding release_single_field release_pointer free_main clear_count is_other_union_field
release_single_field-cleared env depth iter mem repeated pointer apart kept =
    let inside = release_inside env depth (release_single_field env depth) iter mem in
    let counted = store 4 0 (free_strings env iter inside) iter.p_size in
    let freed = env.free counted (load 8 counted iter.p_data) in
    rw (repeated, pointer)
      (
        load-store 8 0 freed iter.p_data (omega arith),
        load_apart 4 8 0 iter.p_data iter.p_size freed apart
            ∙ kept counted _
            ∙ load-store 4 0 (free_strings env iter inside) iter.p_size (omega arith),
      )

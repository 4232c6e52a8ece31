-- ===== src/Nanopb/MessageDecode/Pointer/Consumes.antt =====
-- The bytes left of a stream, over `decode_pointer_field`.
use ivr_repo.Base.{refl, inr, arith, inl, ◌==◌, Bool-cases, Bool, ◌≤◌, ◌≡◌, ℕ, true, false, zero}
use ivr_repo.Base.{suc}
use ivr_repo.Nanopb.Decode.Shrinks.{make_string_substream-Shrinks}
use ivr_repo.Nanopb.Descriptor.{too_many_array_entries, size_max, htype, Field}
use ivr_repo.Nanopb.FieldDecode.{Decoder}
use ivr_repo.Nanopb.FieldDecode.Consumes.{allocate_field-Kept}
use ivr_repo.Nanopb.FieldDecode.Kept.{on_done-Kept, error-Kept, if-Kept, Kept-le, Kept}
use ivr_repo.Nanopb.FieldDecode.Kept.{value-Consumes, Consumes}
use ivr_repo.Nanopb.Iter.{current, Iter}
use ivr_repo.Nanopb.Memory.{load, Memory}
use ivr_repo.Nanopb.MessageDecode.Pointer.{grown, count_up, is_packed, is_text, Packed}
use ivr_repo.Nanopb.MessageDecode.Pointer.{pointer_packed_end, IStream, pointer_loop, packed_next}
use ivr_repo.Nanopb.MessageDecode.Pointer.{decode_pointer_single, decode_pointer_packed}
use ivr_repo.Nanopb.MessageDecode.Pointer.{decode_pointer_item, decode_pointer_field, decode_new}
use ivr_repo.Nanopb.MessageDecode.Static.Consumes.{close_with-Kept}
use ivr_repo.Nanopb.Descriptor

module _ (realloc : Memory → ℕ → ℕ → ℕ × Memory) (release : Iter → Memory → Memory)
    (defaults : ℕ → ℕ → Memory → Memory) (dec : Field → ℕ → Decoder)
    (on_item : (field : Field) (dest : ℕ) → Consumes (dec field dest)) (iter : Iter) where
  decode_new-Kept :
      {n : ℕ} (p_item : ℕ) (mem : Memory) (s : IStream)
      → s.bytes_left ≤ n
      → Kept n (decode_new realloc release defaults dec iter p_item mem s)
  unfolding decode_new
  decode_new-Kept p_item mem s h = Kept-le ((on_item (current iter) p_item).left _ s) h

  decode_pointer_single-Kept :
      {n : ℕ} (mem : Memory) (s : IStream)
      → s.bytes_left ≤ n
      → Kept n (decode_pointer_single realloc release defaults dec iter mem s)
  unfolding decode_pointer_single
  decode_pointer_single-Kept mem s h =
      if-Kept (is_text (current iter)) (Kept-le ((on_item (current iter) iter.p_data).left _ s) h) (
        on_done-Kept (allocate_field-Kept realloc iter.p_data (current iter).data_size 1 _ s h)
          (λ mem s h. decode_new-Kept (load 8 mem iter.p_data) mem s h))

  packed_next-outer :
      (go : Memory → IStream → IStream → Packed) (r : Bool × Memory × IStream) (outer : IStream)
      → ((mem : Memory) (sub : IStream) → (go mem sub outer).outer.bytes_left ≡ outer.bytes_left)
      → (packed_next realloc release defaults dec iter go r outer).outer.bytes_left
        ≡ outer.bytes_left
  unfolding packed_next
  packed_next-outer go (false, mem, sub) outer same = refl
  packed_next-outer go (true, mem, sub) outer same =
      elim (Bool-cases (load 4 mem iter.p_size == size_max)) [
        | inl full ↦ rw full refl
        | inr room ↦ rw room (same (count_up iter mem) sub)
      ]

  -- The loop of a packed array leaves the stream itself where it was.
  pointer_loop-outer :
      (fuel allocated : ℕ) (mem : Memory) (sub outer : IStream)
      → (pointer_loop realloc release defaults dec iter fuel allocated mem sub
          outer).outer.bytes_left
        ≡ outer.bytes_left
  unfolding pointer_loop
  pointer_loop-outer zero allocated mem sub outer = refl
  pointer_loop-outer (suc fuel) allocated mem sub outer = elim (Bool-cases (sub.bytes_left == 0)) [
    | inl empty ↦ rw (empty, pointer_loop) refl
    | inr more ↦
        rw (more, pointer_loop)
          (packed_next-outer _ _ outer (λ mem' sub'.
            pointer_loop-outer fuel (grown realloc release defaults dec iter allocated mem sub) mem'
              sub' outer))
  ]

  decode_pointer_packed-Consumes :
      Consumes (decode_pointer_packed realloc release defaults dec iter)
  unfolding decode_pointer_packed pointer_packed_end
  decode_pointer_packed-Consumes = value-Consumes make_string_substream-Shrinks (λ sub. record {
    left = λ mem s.
        let p =
          pointer_loop realloc release defaults dec iter (suc sub.bytes_left)
            (load 4 mem iter.p_size) mem sub s in
        let same = pointer_loop-outer (suc sub.bytes_left) (load 4 mem iter.p_size) mem sub s in
        close_with-Kept p.status p.mem p.sub p.outer (omega (arith, same));
  })

  decode_pointer_item-Kept :
      {n : ℕ} (mem : Memory) (s : IStream)
      → s.bytes_left ≤ n
      → Kept n (decode_pointer_item realloc release defaults dec iter mem s)
  unfolding decode_pointer_item
  decode_pointer_item-Kept mem s h =
      if-Kept (load 4 mem iter.p_size == size_max) (error-Kept too_many_array_entries mem s h) (
        on_done-Kept
          (allocate_field-Kept realloc iter.p_data (current iter).data_size _ (count_up iter mem) s
            h)
          (λ mem s h. decode_new-Kept _ mem s h))

  pub decode_pointer_field-Kept :
      {n : ℕ} (wire_type : ℕ) (mem : Memory) (s : IStream)
      → s.bytes_left ≤ n
      → Kept n (decode_pointer_field realloc release defaults dec iter wire_type mem s)
  unfolding decode_pointer_field
  decode_pointer_field-Kept wire_type mem s h =
      elim (Bool-cases (htype (current iter).type == Descriptor.htype_repeated)) [
        | inl a ↦ elim (Bool-cases (is_packed iter wire_type)) [
          | inl p ↦ rw (a, p) (Kept-le (decode_pointer_packed-Consumes.left mem s) h)
          | inr p ↦ rw (a, p) (decode_pointer_item-Kept mem s h)
        ]
        | inr a ↦ rw a (decode_pointer_single-Kept mem s h)
      ]

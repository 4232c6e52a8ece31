-- ===== src/Nanopb/MessageDecode/Static/Item.antt =====
-- An item that is not packed, in a static array, and `pb_dec_uvarint` as the decoder of one.
use ivr_repo.Base.{none, some, refl, Option, ==→eq, ◌==◌, ℕ, suc, ◌+◌, ◌^◌, ◌<◌, ◌≡◌, arith}
use ivr_repo.Base.{◌&&◌, ◌*◌, ◌∙◌, false, leb, Bool-cases, inl, inr}
use ivr_repo.Nanopb.Descriptor.{Field}
use ivr_repo.Nanopb.FieldDecode.{Decoder, store_clamped, store_unsigned, dec_uvarint, on_value}
use ivr_repo.Nanopb.FieldDecode.Safety.{Outside}
use ivr_repo.Nanopb.Input.{IStream}
use ivr_repo.Nanopb.Iter.{Iter, current}
use ivr_repo.Nanopb.Memory.{Memory, load}
use ivr_repo.Nanopb.Memory.Store.{store, load-store, store_bytes-outside, length-le_bytes}
use ivr_repo.Nanopb.MessageDecode.Static.{count_up, decode_item}
use ivr_repo.Nanopb.MessageDecode.Static.Bounds.{Confined, Disjoint, item_written, counter_kept}
use ivr_repo.Nanopb.MessageDecode.Static.Bounds.{count_up-Outside}
use ivr_repo.Nanopb.Varint.{decode_varint}

-- An item that is not packed, for a static array of less than 2 ^ 32 bytes apart from its counter,
-- whose items are decoded by a function that writes only to its item: whatever the count below
-- 2 ^ 32 - 1, no byte outside the array and the counter is written and the count is one more, also
-- where the array is full; then the result is false.
pub decode_item-Outside :
    (dec : Field → ℕ → Decoder) (defaults : ℕ → ℕ → Memory → Memory) (iter : Iter) (q : ℕ)
    (mem : Memory) (s : IStream)
    → let f = current iter in
      let size = f.data_size * f.array_size in
      size < 2 ^ 32
      → f.array_size < 2 ^ 32
      → Confined f.data_size (dec f)
      → Disjoint iter.p_data size iter.p_size 4
      → Outside iter.p_data size q
      → Outside iter.p_size 4 q
      → suc (load 4 mem iter.p_size) < 2 ^ 32
      → let after = decode_item dec defaults iter mem s in
        (after.1 q ≡ mem q)
        × (load 4 after.1 iter.p_size ≡ suc (load 4 mem iter.p_size))
        × ((leb f.array_size (load 4 mem iter.p_size) && after.0) ≡ false)
unfolding decode_item
decode_item-Outside dec defaults iter q mem s small few confined apart out out' counted =
    elim (Bool-cases (leb f.array_size n)) [
      | inl full ↦ rw full (up-Outside, up, refl)
      | inr room ↦
          let less : n < f.array_size = ground arith in
          rw room (
            item_written dec iter small few confined apart n q (count_up iter mem) s less out
                ∙ up-Outside,
            counter_kept dec iter small few confined apart n (count_up iter mem) s less ∙ up,
            refl,
          )
    ]
  where
    f : Field
    f = current iter

    n : ℕ
    n = load 4 mem iter.p_size

    up-Outside : count_up iter mem q ≡ mem q
    up-Outside = count_up-Outside dec iter small few confined apart mem q out'

    up : load 4 (count_up iter mem) iter.p_size ≡ suc n
    up =
        let one_more : n + 1 ≡ suc n = omega arith in
        unfold count_up in rw one_more (load-store 4 (suc n) mem iter.p_size (omega arith))

store-Outside : (n v : ℕ) (mem : Memory) (p q : ℕ) → Outside p n q → store n v mem p q ≡ mem q
store-Outside n v mem p q (inl h) = store_bytes-outside _ mem p q (inl h)
store-Outside n v mem p q (inr h) =
    store_bytes-outside _ mem p q (inr (omega (arith, length-le_bytes n v)))

store_clamped-Outside :
    (n clamped v p q : ℕ) (mem : Memory) (s : IStream)
    → Outside p n q
    → (store_clamped n clamped v p mem s).1 q ≡ mem q
unfolding store_clamped
store_clamped-Outside n clamped v p q mem s h = elim (Bool-cases (clamped == v)) [
  | inl same ↦ rw same (store-Outside n v mem p q h)
  | inr other ↦ rw other (store-Outside n v mem p q h)
]

-- `pb_dec_uvarint` writes to its item only.
pub dec_uvarint-Confined : (field : Field) → Confined field.data_size (dec_uvarint field)
unfolding dec_uvarint store_unsigned
dec_uvarint-Confined field p q mem s h = after (decode_varint s)
  where
    stored : (v : ℕ) (s : IStream) → (store_unsigned field v p mem s).1 q ≡ mem q
    stored v s = elim (Bool-cases (field.data_size == 8)) [
      | inl n ↦ rw n (store_clamped-Outside 8 v v p q mem s (rw (==→eq _ _ n) at h))
      | inr n₈ ↦ elim (Bool-cases (field.data_size == 4)) [
        | inl n ↦ rw (n₈, n) (store_clamped-Outside 4 _ v p q mem s (rw (==→eq _ _ n) at h))
        | inr n₄ ↦ elim (Bool-cases (field.data_size == 2)) [
          | inl n ↦ rw (n₈, n₄, n) (store_clamped-Outside 2 _ v p q mem s (rw (==→eq _ _ n) at h))
          | inr n₂ ↦ elim (Bool-cases (field.data_size == 1)) [
            | inl n ↦
                rw (n₈, n₄, n₂, n) (store_clamped-Outside 1 _ v p q mem s (rw (==→eq _ _ n) at h))
            | inr n₁ ↦ rw (n₈, n₄, n₂, n₁) refl
          ]
        ]
      ]
    ]

    after : (r : Option ℕ × IStream) → (on_value r mem (λ v. store_unsigned field v p)).1 q ≡ mem q
    after (none, s) = refl
    after (some v, s) = stored v s

-- ===== src/Nanopb/MessageDecode/Static/Bounds.antt =====
-- The items of a static array: where they are written, and how many there can be.
use ivr_repo.Base.{true, false, ltb, ◌&&◌, ◌==◌, not, Bool-cases, Bool, ◌∙◌, ℕ, zero, suc, ◌+◌}
use ivr_repo.Base.{◌*◌, ◌^◌, ◌≤◌, ◌<◌, ◌≡◌, refl, arith, ◌⊎◌, inl, inr}
use ivr_repo.Nanopb.Descriptor.{Field}
use ivr_repo.Nanopb.FieldDecode.{on_done, Decoder}
use ivr_repo.Nanopb.FieldDecode.Safety.{Outside}
use ivr_repo.Nanopb.Input.{IStream}
use ivr_repo.Nanopb.Iter.{Iter, current}
use ivr_repo.Nanopb.Memory.{Memory, load}
use ivr_repo.Nanopb.Memory.Store.{load-store, store_bytes-outside, length-le_bytes}
use ivr_repo.Nanopb.MessageDecode.Static.{packed_loop, item_offset, count_up}
use native.Mathlib.Nat.{mul-suc, mul-le-mul}

-- A decoder of items of `size` bytes that writes to no byte outside its item.
abbrev pub Confined : ℕ → (ℕ → Decoder) → Type 0
Confined size dec =
    (p q : ℕ) (mem : Memory) (s : IStream) → Outside p size q → (dec p mem s).1 q ≡ mem q

-- No byte is both among the `n` at `p` and the `m` at `q`.
abbrev pub Disjoint : ℕ → ℕ → ℕ → ℕ → Type 0
Disjoint p n q m = (p + n ≤ q) ⊎ (q + m ≤ p)

pub load_same :
    (n p : ℕ) (mem mem' : Memory)
    → ((q : ℕ) → p ≤ q → q < p + n → mem' q ≡ mem q)
    → load n mem' p ≡ load n mem p
unfolding load
load_same zero p mem mem' same = refl
load_same (suc n) p mem mem' same =
    let here = same p (omega arith) (omega arith) in
    let behind = load_same n (p + 1) mem mem' (λ q h k. same q (omega arith) (omega arith)) in
    rw (here, behind)

module _ (dec : Field → ℕ → Decoder) (iter : Iter) where
  abbrev pub field : Field
  field = current iter

  abbrev pub count : Memory → ℕ
  count mem = load 4 mem iter.p_size

  module _ (small : field.data_size * field.array_size < 2 ^ 32) (few : field.array_size < 2 ^ 32)
      (confined : Confined field.data_size (dec field))
      (apart : Disjoint iter.p_data (field.data_size * field.array_size) iter.p_size 4) where
    -- An item with a number below the array's size lies in the array.
    item_inside :
        (i : ℕ)
        → i < field.array_size
        → (item_offset field i ≡ field.data_size * i)
          × (field.data_size * i + field.data_size ≤ field.data_size * field.array_size)
    unfolding item_offset
    item_inside i h =
        let room : field.data_size * suc i ≤ field.data_size * field.array_size =
          mul-le-mul (omega arith) h in
        let next = mul-suc field.data_size i in
        (omega (arith, room, next), omega (arith, room, next))

    pub item_written :
        (i q : ℕ) (mem : Memory) (s : IStream)
        → i < field.array_size
        → Outside iter.p_data (field.data_size * field.array_size) q
        → (dec field (iter.p_data + item_offset field i) mem s).1 q ≡ mem q
    item_written i q mem s h (inl out) =
        let (same, room) = item_inside i h in confined _ q mem s (inl (omega (arith, same)))
    item_written i q mem s h (inr out) =
        let (same, room) = item_inside i h in confined _ q mem s (inr (omega (arith, same, room)))

    pub counter_kept :
        (i : ℕ) (mem : Memory) (s : IStream)
        → i < field.array_size
        → count (dec field (iter.p_data + item_offset field i) mem s).1 ≡ count mem
    counter_kept i mem s h =
        load_same 4 iter.p_size mem _
          (λ q low high. item_written i q mem s h (outside q low high apart))
      where
        outside :
            (q : ℕ)
            → iter.p_size ≤ q
            → q < iter.p_size + 4
            → Disjoint iter.p_data (field.data_size * field.array_size) iter.p_size 4
            → Outside iter.p_data (field.data_size * field.array_size) q
        outside q low high (inl d) = inr (omega arith)
        outside q low high (inr d) = inl (omega arith)

    count_up-load :
        (mem : Memory) → count mem < field.array_size → count (count_up iter mem) ≡ count mem + 1
    unfolding count_up
    count_up-load mem h = load-store 4 (count mem + 1) mem iter.p_size (omega arith)

    pub count_up-Outside :
        (mem : Memory) (q : ℕ) → Outside iter.p_size 4 q → count_up iter mem q ≡ mem q
    unfolding count_up
    count_up-Outside mem q (inl h) = store_bytes-outside _ mem iter.p_size q (inl h)
    count_up-Outside mem q (inr h) =
        store_bytes-outside _ mem iter.p_size q
          (inr (omega (arith, length-le_bytes 4 (count mem + 1))))

    -- What holds of the memory after items were decoded, at a byte `q` outside the array and the
    -- counter.
    Kept : ℕ → Memory → Memory → Type 0
    Kept q mem mem' = (count mem' ≤ field.array_size) × (mem' q ≡ mem q)

    one_item :
        (q : ℕ) (mem : Memory) (s : IStream)
        → count mem < field.array_size
        → Outside iter.p_data (field.data_size * field.array_size) q
        → Outside iter.p_size 4 q
        → Kept q mem
            (count_up iter (dec field (iter.p_data + item_offset field (count mem)) mem s).1)
    unfolding Kept
    one_item q mem s h out out' =
        let mem₁ = (dec field (iter.p_data + item_offset field (count mem)) mem s).1 in
        let same = counter_kept (count mem) mem s h in
        let less : count mem₁ < field.array_size = omega (arith, same) in
        let up = count_up-load mem₁ less in
        (omega (arith, up), count_up-Outside mem₁ q out' ∙ item_written (count mem) q mem s h out)

    loop-Kept :
        (defaults : ℕ → ℕ → Memory → Memory) (fuel q : ℕ) (mem : Memory) (sub : IStream)
        → count mem ≤ field.array_size
        → Outside iter.p_data (field.data_size * field.array_size) q
        → Outside iter.p_size 4 q
        → Kept q mem (packed_loop dec defaults iter fuel mem sub).1
    unfolding packed_loop Kept
    loop-Kept defaults zero q mem sub h out out' = (h, refl)
    loop-Kept defaults (suc fuel) q mem sub h out out' =
        elim (Bool-cases (not (sub.bytes_left == 0) && ltb (count mem) field.array_size)) [
          | inr stop ↦ rw (stop, packed_loop) (h, refl)
          | inl go ↦
              let room : count mem < field.array_size = ground arith in
              rw (go, packed_loop)
                (after (dec field (iter.p_data + item_offset field (count mem)) mem sub)
                  (counter_kept (count mem) mem sub room)
                  (item_written (count mem) q mem sub room out) (one_item q mem sub room out out')
                  (λ mem' sub' h'. loop-Kept defaults fuel q mem' sub' h' out out'))
        ]
      where
        after :
            (r : Bool × Memory × IStream)
            → count r.1 ≡ count mem
            → r.1 q ≡ mem q
            → Kept q mem (count_up iter r.1)
            → ((mem' : Memory) (sub' : IStream)
                → count mem' ≤ field.array_size
                → Kept q mem' (packed_loop dec defaults iter fuel mem' sub').1)
            → Kept q mem
                (on_done r (λ mem. packed_loop dec defaults iter fuel (count_up iter mem))).1
        after (false, mem', sub') same kept up rest = (omega (arith, same), kept)
        after (true, mem', sub') same kept (less, kept') rest =
            let (less', kept'') = rest (count_up iter mem') sub' less in (less', kept'' ∙ kept')

-- A static array of less than 2 ^ 32 bytes apart from its counter, whose items are decoded by a
-- function that writes only to its item, with a count not above the size of the array: the loop over
-- a packed array keeps the count so, and writes to no byte outside the array and the counter.
pub packed_loop-Outside :
    (dec : Field → ℕ → Decoder) (defaults : ℕ → ℕ → Memory → Memory) (iter : Iter) (fuel q : ℕ)
    (mem : Memory) (sub : IStream)
    → let f = current iter in
      let size = f.data_size * f.array_size in
      size < 2 ^ 32
      → f.array_size < 2 ^ 32
      → Confined f.data_size (dec f)
      → Disjoint iter.p_data size iter.p_size 4
      → Outside iter.p_data size q
      → Outside iter.p_size 4 q
      → load 4 mem iter.p_size ≤ f.array_size
      → let mem' = (packed_loop dec defaults iter fuel mem sub).1 in
        (load 4 mem' iter.p_size ≤ f.array_size) × (mem' q ≡ mem q)
unfolding Kept
packed_loop-Outside dec defaults iter fuel q mem sub small few confined apart out out' h =
    loop-Kept dec iter small few confined apart defaults fuel q mem sub h out out'

-- ===== src/Nanopb/Message/Sizes.antt =====
-- What the encoder writes on every stream, and counts: submessages, items and packed arrays.
pub mod Fields
pub mod Encode
pub mod Exact
use ivr_repo.Base.{==→eq, ℕ, zero, suc, ◌+◌, ◌*◌, ◌%◌, ◌≤◌, ◌<◌, ◌≡◌, refl, sym, arith, ◌==◌}
use ivr_repo.Base.{Bool, true, false, none, some, List, [], ◌++◌, length, length-append, inl, inr}
use ivr_repo.Base.{Bool-cases}
use ivr_repo.Nanopb.Descriptor.{Field, ltype, word}
use ivr_repo.Nanopb.Encode.{varint_bytes}
use ivr_repo.Nanopb.Encode.Varint.{encode_varint-Emits}
use ivr_repo.Nanopb.Message.Basic.{encode_items, packed_data, write_packed, sized_packed}
use ivr_repo.Nanopb.Message.Basic.{encode_packed}
use ivr_repo.Nanopb.Message.Does.{Does, writes, refuses, >>-Does, succeed-Does}
use ivr_repo.Nanopb.Message.Wire.{Bytes, both, behind_size, items_bytes, packed_bytes}
use ivr_repo.Nanopb.Message.Submessage.{after_submessage, write_submessage, sized_submessage}
use ivr_repo.Nanopb.Message.Submessage.{encode_submessage}
use ivr_repo.Nanopb.Output.{ostream_sizing, OStream, Writer, ◌>>◌}
use ivr_repo.Nanopb.Output.Buffer.{buffer, counter, Emits, write-counter, succeed-Emits, >>-Emits}
use native.Mathlib.Nat.{mul-suc}
use ivr_repo.Nanopb.Descriptor

module _ (w : Writer) (bs : List ℕ) (p : Emits w bs) where
  submessage-fits :
      (max : ℕ) (st : List ℕ) (n : ℕ)
      → n + length bs ≤ max
      → max < word
      → write_submessage w ((0 + length bs) % word) (buffer max st n none)
        ≡ (true, buffer max (st ++ bs) (n + length bs) none)
  unfolding write_submessage after_submessage
  submessage-fits max st n h hm =
      let size : (0 + length bs) % word ≡ length bs = omega arith in
      let sum : (n + length bs) % word ≡ n + length bs = omega arith in
      let whole : 0 + length bs ≡ length bs = omega arith in
      rw (size, sum)
        (ground (arith, p.fits (length bs) st 0 (omega arith) (omega arith), whole, sum))

  submessage-full :
      (max : ℕ) (st : List ℕ) (n : ℕ)
      → n ≤ max
      → max < n + length bs
      → max + length bs < word
      → (write_submessage w ((0 + length bs) % word) (buffer max st n none)).0 ≡ false
  unfolding write_submessage
  submessage-full max st n hn h hm =
      let size : (0 + length bs) % word ≡ length bs = omega arith in
      let sum : (n + length bs) % word ≡ n + length bs = omega arith in
      rw (size, sum) (ground arith)

  write_submessage-Emits : Emits (write_submessage w ((0 + length bs) % word)) bs
  unfolding write_submessage
  write_submessage-Emits = record {
    fits = submessage-fits;
    full = submessage-full;
    counts = λ max st n h.
        let sum : (n + (0 + length bs) % word) % word ≡ (n + length bs) % word = omega arith in
        rw sum at (write-counter [] ((0 + length bs) % word) max st n);
  }

  packed_data-Emits : (size : ℕ) → size % word ≡ length bs % word → Emits (packed_data w size) bs
  unfolding packed_data
  packed_data-Emits size same = record {
    fits = p.fits;
    full = p.full;
    counts = λ max st n h.
        let sum : (n + size) % word ≡ (n + length bs) % word = omega arith in
        rw sum at (write-counter [] size max st n);
  }

sized_submessage-refused :
    (w : Writer) (r : Bool × OStream) (s : OStream)
    → r.0 ≡ false
    → (sized_submessage w r s).0 ≡ false
unfolding sized_submessage
sized_submessage-refused w (true, sub) s h = cc
sized_submessage-refused w (false, sub) s h = refl

-- The message `bs` goes behind its size.
pub encode_submessage-Emits :
    (w : Writer) (bs : List ℕ)
    → Emits w bs
    → Emits (encode_submessage w) (varint_bytes ((0 + length bs) % word) ++ bs)
unfolding encode_submessage sized_submessage
encode_submessage-Emits w bs p =
    rw (p.counts 0 [] 0 (omega arith))
      (>>-Emits (encode_varint-Emits ((0 + length bs) % word)) (write_submessage-Emits w bs p))

pub encode_submessage-Does :
    {w : Writer} {o : Bytes} → Does w o → Does (encode_submessage w) (behind_size o)
unfolding encode_submessage
encode_submessage-Does {w} (writes {bs} p) =
    let size : 0 + length bs ≡ length bs = omega arith in
    writes (rw size at (encode_submessage-Emits w bs p))
encode_submessage-Does {w} (refuses r) =
    refuses
      (λ max st n h. sized_submessage-refused w _ (counter max st n none) (r 0 [] 0 (omega arith)))

module _ (data_size : ℕ) (func : ℕ → Writer) (each : ℕ → Bytes)
    (does : (q : ℕ) → Does (func q) (each q)) where
  pub encode_items-Does :
      (count p : ℕ)
      → Does (encode_items count data_size func p) (items_bytes count data_size each p)
  unfolding encode_items items_bytes
  encode_items-Does zero p = succeed-Does
  encode_items-Does (suc count) p = >>-Does (does p) (encode_items-Does count (p + data_size))

-- Items of `k` bytes each
abbrev pub Fixed : ℕ → (ℕ → Bytes) → Type 0
Fixed k each = (q : ℕ) → (bs : List ℕ) × (each q ≡ some bs) × (length bs ≡ k)

items_bytes-Fixed :
    (k data_size : ℕ) (each : ℕ → Bytes) (count p : ℕ)
    → Fixed k each
    → (bs : List ℕ) × (items_bytes count data_size each p ≡ some bs) × (length bs ≡ k * count)
unfolding items_bytes
items_bytes-Fixed k data_size each zero p fixed = ([], refl, omega arith)
items_bytes-Fixed k data_size each (suc count) p fixed =
    let (xs, here, lx) = fixed p in
    let (ys, behind, ly) = items_bytes-Fixed k data_size each count (p + data_size) fixed in
    (xs ++ ys, rw (here, behind) refl, omega (arith, length-append xs ys, lx, ly, mul-suc k count))

write_packed-Does :
    (items : Writer) (bs : List ℕ) (size : ℕ)
    → Emits items bs
    → size % word ≡ length bs % word
    → Does (write_packed items size) (both (some (varint_bytes size)) (some bs))
unfolding write_packed
write_packed-Does items bs size p same =
    writes (>>-Emits (encode_varint-Emits size) (packed_data-Emits items bs p size same))

sized_packed-refused :
    (items : Writer) (r : Bool × OStream) (s : OStream)
    → r.0 ≡ false
    → (sized_packed items r s).0 ≡ false
unfolding sized_packed
sized_packed-refused items (true, sizing) s h = cc
sized_packed-refused items (false, sizing) s h = refl

sized_packed-Does :
    {items : Writer} {o : Bytes}
    → Does items o
    → Does (sized_packed items (items ostream_sizing)) (behind_size o)
unfolding sized_packed
sized_packed-Does {items} (writes {bs} p) =
    let size : 0 + length bs ≡ length bs = omega arith in
    rw (p.counts 0 [] 0 (omega arith), size)
      (write_packed-Does items bs (length bs % word) p (omega arith))
sized_packed-Does {items} (refuses r) =
    refuses
      (λ max st n h. sized_packed-refused items _ (counter max st n none) (r 0 [] 0 (omega arith)))

Does-Emits : {w : Writer} {o : Bytes} (bs : List ℕ) → o ≡ some bs → Does w o → Emits w bs
Does-Emits {w} bs e (writes {bs = xs} p) = let same : xs ≡ bs = cc in rw same at p
Does-Emits {w} bs e (refuses r) = absurd (cc)

write_packed-Fixed :
    (k data_size : ℕ) (items : Writer) (each : ℕ → Bytes) (count p : ℕ)
    → Fixed k each
    → Does items (items_bytes count data_size each p)
    → Does
        (write_packed items (k * count))
        (both (some (varint_bytes (k * count))) (items_bytes count data_size each p))
write_packed-Fixed k data_size items each count p fixed does =
    let (bs, e, l) = items_bytes-Fixed k data_size each count p fixed in
    rw e (write_packed-Does items bs (k * count) (Does-Emits bs e does) (rw l refl))

pub encode_packed-Does :
    (field : Field) (func : ℕ → Writer) (each : ℕ → Bytes) (count p : ℕ)
    → ((q : ℕ) → Does (func q) (each q))
    → (ltype field.type ≡ Descriptor.ltype_fixed32 → Fixed 4 each)
    → (ltype field.type ≡ Descriptor.ltype_fixed64 → Fixed 8 each)
    → Does
        (encode_packed field count (encode_items count field.data_size func p))
        (packed_bytes field count (items_bytes count field.data_size each p))
unfolding encode_packed packed_bytes
encode_packed-Does field func each count p does four eight =
    let items = encode_items-Does field.data_size func each does count p in
    elim (Bool-cases (ltype field.type == Descriptor.ltype_fixed32)) [
      | inl is4 ↦
          rw is4 (write_packed-Fixed 4 field.data_size _ each count p (four (==→eq _ _ is4)) items)
      | inr not4 ↦ elim (Bool-cases (ltype field.type == Descriptor.ltype_fixed64)) [
        | inl is8 ↦
            rw (not4, is8)
              (write_packed-Fixed 8 field.data_size _ each count p (eight (==→eq _ _ is8)) items)
        | inr not8 ↦ rw (not4, not8) (sized_packed-Does items)
      ]
    ]

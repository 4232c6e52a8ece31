-- ===== src/Nanopb/FieldDecode/Safety.antt =====
-- `pb_dec_bytes` and `pb_dec_string`: the addresses they write to.
use ivr_repo.Base.{not_ltb→le, ltb, ◌%◌, Bool-cases, ◌^◌, ℕ, ◌+◌, ◌≤◌, ◌<◌, ◌≡◌, ◌∙◌, refl, ◌⊎◌}
use ivr_repo.Base.{inl, inr, arith, true, Bool, Option, none, some, List, take, length-take}
use ivr_repo.Nanopb.Descriptor.{atype, Field}
use ivr_repo.Nanopb.FieldDecode.{decode_varint32, dec_string, dec_bytes, Decoder, string_of_size}
use ivr_repo.Nanopb.FieldDecode.{bytes_of_size, on_value, read_into, read_bytes, terminate}
use ivr_repo.Nanopb.Input.{IStream, read}
use ivr_repo.Nanopb.Memory.{Memory}
use ivr_repo.Nanopb.Memory.Store.{store, store_bytes, store_byte, le_bytes, length-le_bytes}
use ivr_repo.Nanopb.Memory.Store.{store_bytes-outside}
use ivr_repo.Nanopb.Descriptor

-- The address `q` is not one of the `size` bytes at `p`.
abbrev pub Outside : ℕ → ℕ → ℕ → Type 0
Outside p size q = (q < p) ⊎ (p + size ≤ q)

store_taken :
    (size : ℕ) (bytes : List ℕ) (mem : Memory) (p q : ℕ)
    → Outside p size q
    → store_bytes (take size bytes) mem p q ≡ mem q
store_taken size bytes mem p q (inl h) = store_bytes-outside (take size bytes) mem p q (inl h)
store_taken size bytes mem p q (inr h) =
    store_bytes-outside (take size bytes) mem p q (inr (omega (arith, length-take size bytes)))

read_into-Outside :
    (size p q : ℕ) (mem : Memory) (s : IStream)
    → Outside p size q
    → (read_into size p mem s).1 q ≡ mem q
unfolding read_into
read_into-Outside size p q mem s h = after (read size s)
  where
    after :
        (r : Option (List ℕ) × IStream)
        → (on_value r mem (λ bytes mem s. (true, store_bytes (take size bytes) mem p, s))).1 q
          ≡ mem q
    after (none, s) = refl
    after (some bytes, s) = store_taken size bytes mem p q h

terminate-Outside :
    (p q : ℕ) (r : Bool × Memory × IStream) → Outside p 1 q → (terminate p r).1 q ≡ r.1 q
unfolding terminate store_byte
terminate-Outside p q (status, mem, s) (inl h) = ground arith
terminate-Outside p q (status, mem, s) (inr h) = ground arith

read_bytes-Outside :
    (size p q : ℕ) (mem : Memory) (s : IStream)
    → Outside p (size + 4) q
    → (read_bytes size p mem s).1 q ≡ mem q
unfolding read_bytes
read_bytes-Outside size p q mem s (inl h) =
    read_into-Outside size (p + 4) q (store 4 size mem p) s (inl (omega arith))
    ∙ store_bytes-outside (le_bytes 4 size) mem p q (inl h)
read_bytes-Outside size p q mem s (inr h) =
    read_into-Outside size (p + 4) q (store 4 size mem p) s (inr (omega arith))
    ∙ store_bytes-outside (le_bytes 4 size) mem p q (inr (omega (arith, length-le_bytes 4 size)))

module _ (realloc : Memory → ℕ → ℕ → ℕ × Memory) (field : Field) (dest q : ℕ) where
  bytes_of_size-Outside :
      (size : ℕ) (mem : Memory) (s : IStream)
      → atype field.type ≡ Descriptor.atype_static
      → Outside dest field.data_size q
      → (bytes_of_size realloc field dest size mem s).1 q ≡ mem q
  unfolding bytes_of_size
  bytes_of_size-Outside size mem s static h = elim (Bool-cases (ltb field.data_size (size + 4))) [
    | inl over ↦ rw (static, over) (ground arith)
    | inr fits ↦ rw (static, fits) (ground (arith, inside (not_ltb→le _ _ fits) h))
  ]
    where
      inside :
          size + 4 ≤ field.data_size
          → Outside dest field.data_size q
          → (read_bytes size dest mem s).1 q ≡ mem q
      inside room (inl h) = read_bytes-Outside size dest q mem s (inl h)
      inside room (inr h) = read_bytes-Outside size dest q mem s (inr (omega arith))

  string_of_size-Outside :
      (size : ℕ) (mem : Memory) (s : IStream)
      → atype field.type ≡ Descriptor.atype_static
      → Outside dest field.data_size q
      → (string_of_size realloc field dest size mem s).1 q ≡ mem q
  unfolding string_of_size
  string_of_size-Outside size mem s static h = elim (Bool-cases (ltb ((size + 1) % 2 ^ 32) size)) [
    | inl wrapped ↦ rw wrapped refl
    | inr whole ↦ elim (Bool-cases (ltb field.data_size ((size + 1) % 2 ^ 32))) [
      | inl over ↦ rw (whole, static, over) refl
      | inr fits ↦ rw (whole, static, fits) (inside (not_ltb→le _ _ whole) (not_ltb→le _ _ fits) h)
    ]
  ]
    where
      inside :
          size ≤ (size + 1) % 2 ^ 32
          → (size + 1) % 2 ^ 32 ≤ field.data_size
          → Outside dest field.data_size q
          → (terminate (dest + size) (read_into size dest mem s)).1 q ≡ mem q
      inside whole room (inl h) =
          terminate-Outside (dest + size) q (read_into size dest mem s) (inl (omega arith))
          ∙ read_into-Outside size dest q mem s (inl h)
      inside whole room (inr h) =
          terminate-Outside (dest + size) q (read_into size dest mem s) (inr (omega arith))
          ∙ read_into-Outside size dest q mem s (inr (omega arith))

on_value-Outside :
    {A : Type 0} (r : Option A × IStream) (mem : Memory) (k : A → Decoder) (q : ℕ)
    → ((a : A) (s : IStream) → (k a mem s).1 q ≡ mem q)
    → (on_value r mem k).1 q ≡ mem q
on_value-Outside (none, s) mem k q h = refl
on_value-Outside (some a, s) mem k q h = h a s

-- Whatever the stream holds and whether they succeed or not, `pb_dec_bytes` and `pb_dec_string` write
-- to no byte outside the `data_size` bytes of a field with static allocation.
pub dec_bytes-Outside :
    (realloc : Memory → ℕ → ℕ → ℕ × Memory) (field : Field) (dest q : ℕ) (mem : Memory)
    (s : IStream)
    → atype field.type ≡ Descriptor.atype_static
    → Outside dest field.data_size q
    → ((dec_bytes realloc field dest mem s).1 q ≡ mem q)
      × ((dec_string realloc field dest mem s).1 q ≡ mem q)
unfolding dec_bytes dec_string
dec_bytes-Outside realloc field dest q mem s static h = (
  on_value-Outside (decode_varint32 s) mem (bytes_of_size realloc field dest) q
      (λ size s'. bytes_of_size-Outside realloc field dest q size mem s' static h),
  on_value-Outside (decode_varint32 s) mem (string_of_size realloc field dest) q
      (λ size s'. string_of_size-Outside realloc field dest q size mem s' static h),
)

-- ===== src/Nanopb/FieldDecode/Examples.antt =====
-- The field decoders on fields of two bytes, of sixteen, and on an allocation.
use ivr_repo.Base.{ℕ, ◌+◌, ◌*◌, ◌^◌, ◌≡◌, refl, inl, inr, arith, true, false, none, some, List}
use ivr_repo.Base.{[], ◌∷◌, ◌++◌, length, ltb, if◌then◌else◌}
use ivr_repo.Nanopb.Descriptor.{Field, word, size_too_large, ltype_string}
use ivr_repo.Nanopb.Encode.{varint_bytes, zigzag}
use ivr_repo.Nanopb.FieldDecode.{dec_varint, dec_svarint, dec_uvarint, dec_string, dec_bytes}
use ivr_repo.Nanopb.FieldDecode.{allocate_field, store_pointer}
use ivr_repo.Nanopb.FieldDecode.Allocate.{allocate_field-product}
use ivr_repo.Nanopb.FieldDecode.Integers.{dec_uvarint-varint_bytes}
use ivr_repo.Nanopb.FieldDecode.Safety.{dec_bytes-Outside}
use ivr_repo.Nanopb.FieldDecode.Signed.{dec_varint-sign_extend}
use ivr_repo.Nanopb.FieldDecode.Strings.{dec_string-varint_bytes}
use ivr_repo.Nanopb.Input.Buffer.{buffer}
use ivr_repo.Nanopb.Memory.{Memory, load, sign_extend}
use ivr_repo.Nanopb.Memory.Store.{store, store_bytes, store_byte}

abbrev static_field : ℕ → Field
static_field size = record {
  tag = 1;
  type = ltype_string;
  data_offset = 0;
  size_offset = 0;
  data_size = size;
  array_size = 0;
  ptr = 0;
}

abbrev zeros : Memory
zeros p = 0

abbrev hi : List ℕ
hi = 104 ∷ 105 ∷ []

abbrev realloc : Memory → ℕ → ℕ → ℕ × Memory
realloc mem old size = (4096, mem)

dec_uvarint-varint_bytes_example :
    (dec_uvarint
        (static_field 2)
        100
        zeros
        (buffer (varint_bytes 300 ++ hi) (length (varint_bytes 300) + 2) none)
      ≡ (true, store 2 300 zeros 100, buffer hi 2 none))
    × (load 2 (store 2 300 zeros 100) 100 ≡ 300)
dec_uvarint-varint_bytes_example =
    dec_uvarint-varint_bytes (static_field 2) 300 100 zeros hi 2 none (inr (inl refl)) (omega arith)

-- The int16_t -3.
dec_varint-sign_extend_example :
    (let pattern = sign_extend 16 65533 in
      let bs = varint_bytes pattern in
      let zs = varint_bytes (zigzag pattern) in
      (dec_varint (static_field 2) 100 zeros (buffer (bs ++ hi) (length bs + 2) none)
        ≡ (true, store 2 65533 zeros 100, buffer hi 2 none))
      × (dec_svarint (static_field 2) 100 zeros (buffer (zs ++ hi) (length zs + 2) none)
          ≡ (true, store 2 65533 zeros 100, buffer hi 2 none)))
dec_varint-sign_extend_example =
    dec_varint-sign_extend (static_field 2) 65533 100 zeros hi 2 none (inr (inl refl)) (omega arith)

dec_bytes-Outside_example :
    ((dec_bytes realloc (static_field 16) 100 zeros (buffer (2 ∷ hi) 3 none)).1 116 ≡ 0)
    × ((dec_string realloc (static_field 16) 100 zeros (buffer (2 ∷ hi) 3 none)).1 116 ≡ 0)
dec_bytes-Outside_example =
    dec_bytes-Outside realloc (static_field 16) 100 116 zeros (buffer (2 ∷ hi) 3 none) refl
      (inr (omega arith))

dec_string-varint_bytes_example :
    (let front = varint_bytes 2 in
      let s = buffer (front ++ (hi ++ hi)) (length front + (2 + 2)) none in
      (dec_string realloc (static_field 16) 100 zeros s
        ≡ (true, store_byte (store_bytes hi zeros 100) (100 + 2) 0, buffer hi 2 none))
      × (dec_bytes realloc (static_field 16) 100 zeros s
          ≡ (true, store_bytes hi (store 4 2 zeros 100) (100 + 4), buffer hi 2 none)))
dec_string-varint_bytes_example =
    dec_string-varint_bytes realloc (static_field 16) 100 zeros hi hi 2 none refl (omega arith)
      (omega arith)

allocate_field-product_example :
    allocate_field realloc 100 (2 ^ 33) (2 ^ 31) zeros (buffer hi 2 none) ≡ (
      if ltb (2 ^ 31 * 2 ^ 33) word
      then store_pointer realloc 100
          (realloc zeros (load 8 zeros 100) (2 ^ 31 * 2 ^ 33))
          (buffer hi 2 none)
      else (false, zeros, buffer hi 2 (some size_too_large)))
allocate_field-product_example =
    allocate_field-product realloc 100 (2 ^ 33) (2 ^ 31) zeros (buffer hi 2 none) (omega arith)
      (omega arith)

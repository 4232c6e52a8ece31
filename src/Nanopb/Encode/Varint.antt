-- ===== src/Nanopb/Encode/Varint.antt =====
-- The bytes of `pb_encode_varint`, as a varint.
use ivr_repo.Base.{ap, ◌∙◌, sym, ℕ, zero, suc, ◌+◌, ◌/◌, ◌%◌, ◌^◌, ◌≤◌, ◌<◌, ◌≡◌, ◌≢◌, refl}
use ivr_repo.Base.{arith, List, [], ◌∷◌, length, leb, Bool-cases, inl, inr}
use ivr_repo.Nanopb.Encode.{varint_groups, clear_last, varint_bytes, encode_varint}
use ivr_repo.Nanopb.Output.Buffer.{Emits, write-Emits}
use ivr_repo.Nanopb.Varint.Value.{IsVarint, varint_value}
use native.Mathlib.Nat.{pow-suc}

varint_groups-zero : (f : ℕ) → varint_groups f 0 ≡ []
unfolding varint_groups
varint_groups-zero zero = refl
varint_groups-zero (suc f) = refl

varint_groups-suc :
    (f v : ℕ) → 0 < v → varint_groups (suc f) v ≡ (v % 128 + 128) ∷ varint_groups f (v / 128)
unfolding varint_groups
varint_groups-suc f v h = ground arith

varint_groups-ne-nil : (f v : ℕ) → 0 < v → v ≤ f → varint_groups f v ≢ []
varint_groups-ne-nil zero v h hf = absurd (omega arith)
varint_groups-ne-nil (suc f) v h hf = λ e. cc (varint_groups-suc f v h, e)

clear_last-cons : (b : ℕ) (r : List ℕ) → r ≢ [] → clear_last (b ∷ r) ≡ b ∷ clear_last r
unfolding clear_last
clear_last-cons b [] h = absurd (h refl)
clear_last-cons b (c ∷ r) h = refl

clear_last_one : (b : ℕ) → clear_last (b ∷ []) ≡ b % 128 ∷ []
unfolding clear_last
clear_last_one b = refl

IsVarint-cons : (b : ℕ) (r : List ℕ) → 128 ≤ b → b < 256 → IsVarint r → IsVarint (b ∷ r)
IsVarint-cons b [] lo hi v = absurd v
IsVarint-cons b (c ∷ r) lo hi v = (lo, hi, v)

-- `bs` is a varint of `v`, short enough for `v`.
pub record Encodes (v : ℕ) (bs : List ℕ) : Type 0 where
  pub shape : IsVarint bs
  pub value : varint_value bs ≡ v
  pub short : (k : ℕ) → 0 < k → v < 128 ^ k → length bs ≤ k

Encodes-last : (v : ℕ) → v < 128 → Encodes v (v ∷ [])
unfolding varint_value
Encodes-last v h = record { shape = h; value = omega arith; short = λ k hk hv. hk }

Encodes-more :
    (v : ℕ) (bs : List ℕ) → 128 ≤ v → Encodes (v / 128) bs → Encodes v ((v % 128 + 128) ∷ bs)
unfolding varint_value
Encodes-more v bs h enc = record {
  shape = IsVarint-cons _ bs (omega arith) (omega arith) enc.shape;
  value = omega (arith, enc.value);
  short = λ k hk hv. shorter k hk hv;
}
  where
    shorter : (k : ℕ) → 0 < k → v < 128 ^ k → suc (length bs) ≤ k
    shorter zero hk hv = elim hk [ ]
    shorter (suc zero) hk hv = absurd (omega arith)
    shorter (suc (suc k)) hk hv =
        omega (arith, enc.short (suc k) (omega arith) (omega (arith, pow-suc 128 (suc k))))

clear_last-varint_groups : (f v : ℕ) → 0 < v → v ≤ f → Encodes v (clear_last (varint_groups f v))
clear_last-varint_groups zero v h hf = absurd (omega arith)
clear_last-varint_groups (suc f) v h hf = elim (Bool-cases (leb v 0x7f)) [
  | inl small ↦
      let done : v / 128 ≡ 0 = ground arith in
      let low : (v % 128 + 128) % 128 ≡ v = ground arith in
      rw (varint_groups-suc f v h, done, varint_groups-zero f, clear_last_one, low)
        (Encodes-last v (ground arith))
  | inr large ↦
      let big : 128 ≤ v = ground arith in
      let more = varint_groups-ne-nil f (v / 128) (omega arith) (omega arith) in
      rw (varint_groups-suc f v h, clear_last-cons _ _ more)
        (Encodes-more v _ big (clear_last-varint_groups f (v / 128) (omega arith) (omega arith)))
]

pub varint_bytes-Encodes : (v : ℕ) → Encodes v (varint_bytes v)
unfolding varint_bytes
varint_bytes-Encodes v = elim (Bool-cases (leb v 0x7f)) [
  | inl small ↦ rw small (Encodes-last v (ground arith))
  | inr large ↦ rw large (clear_last-varint_groups v v (ground arith) (omega arith))
]

-- The ten bytes of `buffer` hold the encoding of every uint64_t: no write of `pb_encode_varint`
-- falls outside.
pub length-varint_bytes :
    (v : ℕ) → v < 2 ^ 64 → (0 < length (varint_bytes v)) × (length (varint_bytes v) ≤ 10)
length-varint_bytes v h =
    let enc = varint_bytes-Encodes v in
    (nonempty (varint_bytes v) enc.shape, enc.short 10 (omega arith) (omega arith))
  where
    nonempty : (bs : List ℕ) → IsVarint bs → 0 < length bs
    nonempty [] s = absurd s
    nonempty (b ∷ r) s = omega arith

pub encode_varint-Emits : (v : ℕ) → Emits (encode_varint v) (varint_bytes v)
unfolding encode_varint
encode_varint-Emits v = write-Emits (varint_bytes v)

-- Fuel beyond the value changes nothing.
varint_groups_fuel : (f g v : ℕ) → v ≤ f → v ≤ g → varint_groups f v ≡ varint_groups g v
varint_groups_fuel f g zero h k = varint_groups-zero f ∙ sym (varint_groups-zero g)
varint_groups_fuel zero g (suc v) h k = absurd (omega arith)
varint_groups_fuel (suc f) zero (suc v) h k = absurd (omega arith)
varint_groups_fuel (suc f) (suc g) (suc v) h k =
    varint_groups-suc f (suc v) (omega arith)
    ∙ ap (λ r. (suc v % 128 + 128) ∷ r)
        (varint_groups_fuel f g (suc v / 128) (omega arith) (omega arith))
    ∙ sym (varint_groups-suc g (suc v) (omega arith))

-- The encoding of a number of several groups, a group at a time.
clear_last-varint_bytes :
    (f v : ℕ) → 0 < v → v ≤ f → clear_last (varint_groups f v) ≡ varint_bytes v
unfolding varint_bytes
clear_last-varint_bytes f v h hf = elim (Bool-cases (leb v 0x7f)) [
  | inl small ↦ rw small (ap clear_last (one_group f v h hf (ground arith)) ∙ low v (ground arith))
  | inr large ↦ rw large (ap clear_last (varint_groups_fuel f v v hf (omega arith)))
]
  where
    one_group : (f v : ℕ) → 0 < v → v ≤ f → v < 128 → varint_groups f v ≡ (v % 128 + 128) ∷ []
    one_group zero v h hf hv = absurd (omega arith)
    one_group (suc f) v h hf hv =
        let done : v / 128 ≡ 0 = omega arith in
        varint_groups-suc f v h ∙ rw (done, varint_groups-zero f)

    low : (w : ℕ) → w < 128 → clear_last ((w % 128 + 128) ∷ []) ≡ w ∷ []
    low w hw = clear_last_one (w % 128 + 128) ∙ ap (λ k. k ∷ []) (omega arith)

pub varint_bytes_more :
    (v : ℕ) → 128 ≤ v → varint_bytes v ≡ (v % 128 + 128) ∷ varint_bytes (v / 128)
varint_bytes_more zero h = absurd (omega arith)
varint_bytes_more (suc f) h =
    sym (clear_last-varint_bytes (suc f) (suc f) (omega arith) (omega arith))
    ∙ ap clear_last (varint_groups-suc f (suc f) (omega arith))
    ∙ clear_last-cons _ _ (varint_groups-ne-nil f (suc f / 128) (omega arith) (omega arith))
    ∙ ap (λ r. (suc f % 128 + 128) ∷ r)
        (clear_last-varint_bytes f (suc f / 128) (omega arith) (omega arith))

pub varint_bytes_one : (v : ℕ) → v < 128 → varint_bytes v ≡ v ∷ []
unfolding varint_bytes
varint_bytes_one v h = ground arith

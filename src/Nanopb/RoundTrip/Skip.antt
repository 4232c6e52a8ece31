-- ===== src/Nanopb/RoundTrip/Skip.antt =====
-- `pb_skip_field`, on the value of a field.
use ivr_repo.Base.{zero, ℕ, suc, ◌+◌, ◌^◌, ◌≤◌, ◌<◌, ◌≡◌, ◌∙◌, refl, ◌⊎◌, inl, inr, arith, true}
use ivr_repo.Base.{false, ap, Option, some, List, [], ◌∷◌, ◌++◌, length, length-append}
use ivr_repo.Base.{append_assoc}
use ivr_repo.Nanopb.Decode.{skip_field, skip_string}
use ivr_repo.Nanopb.Descriptor.{ErrMsg}
use ivr_repo.Nanopb.Encode.{varint_bytes}
use ivr_repo.Nanopb.Input.{read_null, pure, Reader, read}
use ivr_repo.Nanopb.Input.Buffer.{buffer, read-buffer_front, read_null-buffer}
use ivr_repo.Nanopb.RoundTrip.Varint32.{decode_varint32-varint_bytes}
use ivr_repo.Nanopb.Varint.{more_bytes, skip_varint_loop, skip_varint}
use ivr_repo.Nanopb.Varint.Value.{IsVarint}
use ivr_repo.Nanopb.Descriptor

-- What stands behind a tag with this wire type: a varint of any length, eight or four bytes, or the
-- bytes of a string behind their number.
abbrev pub IsPayload : ℕ → List ℕ → Type 0
IsPayload wire_type bs =
    ((wire_type ≡ Descriptor.wt_varint) × IsVarint bs)
    ⊎ (((wire_type ≡ Descriptor.wt_64bit) × (length bs ≡ 8))
        ⊎ (((wire_type ≡ Descriptor.wt_32bit) × (length bs ≡ 4))
            ⊎ ((wire_type ≡ Descriptor.wt_string)
                × (string : List ℕ) × (length string < 2 ^ 32)
                × (bs ≡ varint_bytes (length string) ++ string))))

module _ (rest : List ℕ) (left : ℕ) (e : Option ErrMsg) where
  skip_varint_loop-IsVarint :
      (bs : List ℕ) (fuel : ℕ)
      → IsVarint bs
      → length bs ≤ fuel
      → skip_varint_loop fuel (buffer (bs ++ rest) (length bs + left) e)
        ≡ (some tt, buffer rest left e)
  unfolding skip_varint_loop
  skip_varint_loop-IsVarint [] fuel h enough = elim h [ ]
  skip_varint_loop-IsVarint (b ∷ []) zero h enough = absurd (omega arith)
  skip_varint_loop-IsVarint (b ∷ c ∷ r) zero h enough = absurd (omega arith)
  skip_varint_loop-IsVarint (b ∷ []) (suc fuel) h enough =
      let one : suc 0 + left ≡ 1 + left = omega arith in
      rw (read-buffer_front 1 (b ∷ []) rest left e refl) (ground arith)
  skip_varint_loop-IsVarint (b ∷ c ∷ r) (suc fuel) (more, byte, h) enough =
      let bs = c ∷ r in
      let one : suc (length bs) + left ≡ 1 + (length bs + left) = omega arith in
      let cont : more_bytes b ≡ true = ground arith in
      rw (one, read-buffer_front 1 (b ∷ []) (bs ++ rest) (length bs + left) e refl)
        (ap
            (λ t.
              (elim t as (λ x. Reader (Unit {0})) [
                | true ↦ skip_varint_loop fuel
                | false ↦ pure tt
              ])
                (buffer (bs ++ rest) (length bs + left) e))
            cont
          ∙ skip_varint_loop-IsVarint bs fuel h (omega arith))

  read_null-front :
      (n : ℕ) (bs : List ℕ)
      → length bs ≡ n
      → read_null n (buffer (bs ++ rest) (n + left) e) ≡ (some bs, buffer rest left e)
  unfolding read
  read_null-front n bs h =
      read_null-buffer (bs ++ rest) n (n + left) e ∙ read-buffer_front n bs rest left e h

  skip_string-string :
      (string : List ℕ)
      → length string < 2 ^ 32
      → skip_string (
          buffer
            (varint_bytes (length string) ++ (string ++ rest))
            (length (varint_bytes (length string)) + (length string + left))
            e)
        ≡ (some tt, buffer rest left e)
  unfolding skip_string
  skip_string-string string h = rw (
    decode_varint32-varint_bytes (length string) (string ++ rest) (length string + left) e h,
    read_null-front (length string) string refl,
  )

-- Over the value of a field with a known wire type, `pb_skip_field` moves the stream just behind it.
pub skip_field-IsPayload :
    (wire_type : ℕ) (bs rest : List ℕ) (left : ℕ) (e : Option ErrMsg)
    → IsPayload wire_type bs
    → skip_field wire_type (buffer (bs ++ rest) (length bs + left) e)
      ≡ (some tt, buffer rest left e)
unfolding skip_field skip_varint
skip_field-IsPayload wire_type bs rest left e (inl (w, h)) =
    rw w (skip_varint_loop-IsVarint rest left e bs _ h (omega arith))
skip_field-IsPayload wire_type bs rest left e (inr (inl (w, h))) =
    rw (w, h, read_null-front rest left e 8 bs h)
skip_field-IsPayload wire_type bs rest left e (inr (inr (inl (w, h)))) =
    rw (w, h, read_null-front rest left e 4 bs h)
skip_field-IsPayload wire_type bs rest left e (inr (inr (inr (w, string, small, same)))) =
    let front = varint_bytes (length string) in
    let total : length (front ++ string) + left ≡ length front + (length string + left) =
      omega (arith, length-append front string) in
    rw (w, same, total, append_assoc front string rest)
      (skip_string-string rest left e string small)

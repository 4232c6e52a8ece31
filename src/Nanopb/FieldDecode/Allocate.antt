-- ===== src/Nanopb/FieldDecode/Allocate.antt =====
-- `allocate_field`: the size that it asks `realloc` for.
use ivr_repo.Base.{◌==◌, if◌then◌else◌, not_ltb→le, ltb→lt, Bool-cases, ℕ, ◌-◌, ◌*◌, ◌/◌, ◌%◌}
use ivr_repo.Base.{◌^◌, ◌≤◌, ◌<◌, ◌≡◌, arith, true, false, inl, inr, leb, ltb, ◌||◌, lt→ltb}
use ivr_repo.Base.{le→not_ltb}
use ivr_repo.Nanopb.Descriptor.{set_error, size_too_large, word}
use ivr_repo.Nanopb.FieldDecode.{too_large, allocate_field, store_pointer}
use ivr_repo.Nanopb.Input.{IStream}
use ivr_repo.Nanopb.Memory.{Memory, load}
use native.Mathlib.Nat.{div-lt_iff_lt-mul, mul-le-mul, mul_comm}

quotient-lt : (d a : ℕ) → 0 < a → 2 ^ 64 ≤ a * d → (2 ^ 64 - 1) / a < d
quotient-lt d a pos over =
    let (to, from) = div-lt_iff_lt-mul {k = a} {x = 2 ^ 64 - 1} {y = d} pos in
    from (omega (arith, mul_comm a d))

quotient-le : (d a : ℕ) → 0 < a → a * d < 2 ^ 64 → d ≤ (2 ^ 64 - 1) / a
quotient-le d a pos fits = elim (Bool-cases (ltb ((2 ^ 64 - 1) / a) d)) [
  | inl less ↦
      let (to, from) = div-lt_iff_lt-mul {k = a} {x = 2 ^ 64 - 1} {y = d} pos in
      absurd (omega (arith, to (ltb→lt _ _ less), mul_comm a d))
  | inr not_less ↦ not_ltb→le _ _ not_less
]

-- One of two factors of a product from 2 ^ 64 on has more than 32 bits.
wide_factor : (d a : ℕ) → 2 ^ 64 ≤ a * d → (leb (2 ^ 32) d || leb (2 ^ 32) a) ≡ true
wide_factor d a over = elim (Bool-cases (ltb d (2 ^ 32))) [
  | inr wide ↦ let h = not_ltb→le _ _ wide in ground arith
  | inl narrow ↦ elim (Bool-cases (ltb a (2 ^ 32))) [
    | inr wide ↦ let h = not_ltb→le _ _ wide in ground arith
    | inl narrow' ↦
        let hd : d ≤ 2 ^ 32 - 1 = omega (arith, ltb→lt _ _ narrow) in
        let ha : a ≤ 2 ^ 32 - 1 = omega (arith, ltb→lt _ _ narrow') in
        absurd (omega (arith, mul-le-mul ha hd))
  ]
]

too_large-overflow : (d a : ℕ) → 0 < a → 2 ^ 64 ≤ a * d → too_large d a ≡ true
unfolding too_large
too_large-overflow d a pos over = rw (wide_factor d a over, lt→ltb _ _ (quotient-lt d a pos over))

too_large-fits : (d a : ℕ) → 0 < a → a * d < 2 ^ 64 → too_large d a ≡ false
unfolding too_large
too_large-fits d a pos fits = rw (le→not_ltb _ _ (quotient-le d a pos fits)) (ground arith)

-- For sizes other than 0, `allocate_field` refuses exactly the products that overflow a `size_t`, and
-- leaves the memory then; else it asks `realloc` for the product itself.
pub allocate_field-product :
    (realloc : Memory → ℕ → ℕ → ℕ × Memory) (p_data d a : ℕ) (mem : Memory) (s : IStream)
    → 0 < d
    → 0 < a
    → allocate_field realloc p_data d a mem s ≡ (
        if ltb (a * d) word
        then store_pointer realloc p_data (realloc mem (load 8 mem p_data) (a * d)) s
        else (false, mem, record s { errmsg = set_error s.errmsg size_too_large }))
unfolding allocate_field
allocate_field-product realloc p_data d a mem s hd ha = elim (Bool-cases (ltb (a * d) word)) [
  | inl fits ↦
      let h = ltb→lt _ _ fits in
      let whole : a * d % word ≡ a * d = omega arith in
      rw (nonzero, too_large-fits d a ha h, whole, fits)
  | inr over ↦ rw (nonzero, too_large-overflow d a ha (not_ltb→le _ _ over), over)
]
  where
    nonzero : (d == 0 || a == 0) ≡ false
    nonzero = ground arith

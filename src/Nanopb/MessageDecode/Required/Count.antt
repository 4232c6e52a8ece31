-- ===== src/Nanopb/MessageDecode/Required/Count.antt =====
-- The number of required fields, as `pb_decode_noinit` counts them.
use ivr_repo.Base.{take_all, not_ltb→le, inr, ltb→lt, inl, ltb, min, Bool-cases, ◌≤◌, false, sym}
use ivr_repo.Base.{◌∙◌, ap, take, ◌==◌, length, arith, ◌≡◌, ◌<◌, ◌+◌, All, ℕ, List, zero, suc}
use ivr_repo.Base.{true, if◌then◌else◌, refl, [], ◌∷◌}
use ivr_repo.Nanopb.Descriptor.{htype, Field}
use ivr_repo.Nanopb.Iter.{current, field_at, iter_next, first, Iter, step}
use ivr_repo.Nanopb.Iter.Cycle.{field_at-IsField, iter_next-first, next-inside, advance-At}
use ivr_repo.Nanopb.Iter.Cycle.{advance, IsField}
use ivr_repo.Nanopb.MessageDecode.Required.{fixed_up, seek_end, required_count}
use mathlib.Core.Path.{ap₂}
use ivr_repo.Nanopb.Descriptor

abbrev required : Field → ℕ
required f = if htype f.type == Descriptor.htype_required then 1 else 0

abbrev pub count_required : List Field → ℕ
count_required [] = 0
count_required (f ∷ fields) = required f + count_required fields

count_required-take :
    (fields : List Field) (i : ℕ)
    → i < length fields
    → count_required (take (suc i) fields)
      ≡ count_required (take i fields) + required (field_at fields i)
count_required-take [] i h = absurd (omega arith)
count_required-take (f ∷ fields) zero h = omega arith
count_required-take (f ∷ fields) (suc i) h =
    omega (arith, count_required-take fields i (omega arith))

step-required :
    (prev next : Field) (iter : Iter)
    → (step prev next iter).required_field_index ≡ iter.required_field_index + required prev
unfolding step
step-required prev next iter = ground arith

module _ (fields : List Field) (dest : ℕ) (all : All IsField fields) where
  inside :
      (i : ℕ)
      → suc i < length fields
      → iter_next (advance i (first fields dest))
        ≡ (true, step (field_at fields i) (field_at fields (suc i)) (advance i (first fields dest)))
  inside i h =
      let iter = advance i (first fields dest) in
      let here = advance-At fields dest i all (omega arith) in
      let all' = rw (sym here.start) at all in
      let room : suc iter.pos < length iter.start = rw (here.start, here.pos) h in
      next-inside iter all' room
      ∙ ap₂ (λ fs p. (true, step (field_at fs p) (field_at fs (suc p)) iter)) here.start here.pos

  advance-required :
      (i : ℕ)
      → i < length fields
      → (advance i (first fields dest)).required_field_index ≡ count_required (take i fields)
  unfolding first
  advance-required zero h = refl
  advance-required (suc i) h =
      let before = advance-required i (omega arith) in
      let moved = ap (λ r. r.1.required_field_index) (inside i h) in
      moved
      ∙ omega (
        arith,
        before,
        count_required-take fields i (omega arith),
        step-required (field_at fields i) (field_at fields (suc i)) (advance i (first fields dest)),
      )

  last :
      (n : ℕ)
      → length fields ≡ suc n
      → iter_next (advance n (first fields dest)) ≡ (false, first fields dest)
  last n whole = (iter_next-first fields dest n n all whole (omega arith)).1

  here : (i : ℕ) → i < length fields → current (advance i (first fields dest)) ≡ field_at fields i
  here i h = let p = advance-At fields dest i all h in ap₂ field_at p.start p.pos

  seek_end-last :
      (fuel n : ℕ)
      → length fields ≡ suc n
      → seek_end (suc fuel) (advance n (first fields dest))
        ≡ (count_required (take n fields), (field_at fields n).type, first fields dest)
  unfolding seek_end
  seek_end-last fuel n whole =
      let end = last n whole in
      let index = advance-required n (omega arith) in
      let field = here n (omega arith) in
      rw (end, seek_end) (λ j. (index j, (field j).type, (end j).1))

  -- The search for the end of the table, from any field
  seek_end-advance :
      (fuel i n : ℕ)
      → length fields ≡ suc n
      → i ≤ n
      → n < i + fuel
      → seek_end fuel (advance i (first fields dest))
        ≡ (count_required (take n fields), (field_at fields n).type, first fields dest)
  unfolding seek_end
  seek_end-advance zero i n whole h room = absurd (omega arith)
  seek_end-advance (suc fuel) i n whole h room = elim (Bool-cases (ltb i n)) [
    | inl less ↦
        let before = ltb→lt i n less in
        let next = inside i (omega arith) in
        let rest = seek_end-advance fuel (suc i) n whole before (omega arith) in
        rw (next, seek_end) rest
    | inr end ↦
        let same : i ≡ n = omega (arith, not_ltb→le i n end) in
        ap (λ k. seek_end (suc fuel) (advance k (first fields dest))) same
        ∙ seek_end-last fuel n whole
  ]

  fixed_up-first :
      (count n : ℕ)
      → length fields ≡ suc n
      → fixed_up (count, (field_at fields n).type, first fields dest)
        ≡ min 64 (count + required (field_at fields n))
  unfolding fixed_up
  fixed_up-first count n whole =
      let tag = field_at-IsField fields 0 all (omega arith) in
      let more : ((current (first fields dest)).tag == 0) ≡ false =
        rw (here 0 (omega arith)) (ground arith) in
      rw more (ground arith)

  count_required_last :
      (n : ℕ)
      → length fields ≡ suc n
      → count_required (take n fields) + required (field_at fields n) ≡ count_required fields
  count_required_last n whole =
      sym (count_required-take fields n (omega arith))
      ∙ ap count_required (take_all (suc n) fields (omega arith))

-- In a table of fields whose tags are not 0: wherever in it the iterator stands, the search for the
-- end of the table gives the number of required fields, or 64 if there are more.
pub required_count-first :
    (fields : List Field) (dest i n : ℕ)
    → All IsField fields
    → length fields ≡ suc n
    → i ≤ n
    → required_count (advance i (first fields dest)) ≡ min 64 (count_required fields)
unfolding required_count
required_count-first fields dest i n all whole h =
    let at_i = advance-At fields dest i all (omega arith) in
    let iter = advance i (first fields dest) in
    ap (λ fs. fixed_up (seek_end (length fs) iter)) at_i.start
    ∙ ap fixed_up (seek_end-advance fields dest all (length fields) i n whole h (omega arith))
    ∙ fixed_up-first fields dest all (count_required (take n fields)) n whole
    ∙ ap (min 64) (count_required_last fields dest all n whole)

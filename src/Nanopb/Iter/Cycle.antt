-- ===== src/Nanopb/Iter/Cycle.antt =====
-- Repeated calls of `pb_field_iter_next`.
use ivr_repo.Base.{◌≤◌, ap, ◌∙◌, sym, true, false, ℕ, zero, suc, ◌<◌, ◌≡◌, refl, arith, All, List}
use ivr_repo.Base.{[], ◌∷◌, length}
use ivr_repo.Nanopb.Descriptor.{Field, last_field}
use ivr_repo.Nanopb.Iter.{current, first, Iter, field_at, iter_next, step}
use mathlib.Core.Path.{ap₂, subst}

-- A field that is not the end mark
abbrev pub IsField : Field → Type 0
IsField f = 0 < f.tag

-- `n` calls of `pb_field_iter_next`
abbrev pub advance : ℕ → Iter → Iter
advance zero iter = iter
advance (suc n) iter = (iter_next (advance n iter)).1

pub field_at-IsField :
    (fields : List Field) (i : ℕ)
    → All IsField fields
    → i < length fields
    → IsField (field_at fields i)
field_at-IsField [] i all h = absurd (omega arith)
field_at-IsField (f ∷ fields) zero (hf, all) h = hf
field_at-IsField (f ∷ fields) (suc i) (hf, all) h = field_at-IsField fields i all (omega arith)

field_at_end : (fields : List Field) → field_at fields (length fields) ≡ last_field
field_at_end [] = refl
field_at_end (f ∷ fields) = field_at_end fields

step-pos : (prev next : Field) (iter : Iter) → (step prev next iter).pos ≡ suc iter.pos
unfolding step
step-pos prev next iter = ground arith

step-start : (prev next : Field) (iter : Iter) → (step prev next iter).start ≡ iter.start
unfolding step
step-start prev next iter = ground arith

step-dest_struct :
    (prev next : Field) (iter : Iter) → (step prev next iter).dest_struct ≡ iter.dest_struct
unfolding step
step-dest_struct prev next iter = ground arith

-- Inside the table one call moves one field on, and behind the last field it wraps to the first.
pub next-inside :
    (iter : Iter)
    → All IsField iter.start
    → suc iter.pos < length iter.start
    → iter_next iter ≡ (true, step (current iter) (field_at iter.start (suc iter.pos)) iter)
unfolding iter_next
next-inside iter all h = ground (
  arith,
  field_at-IsField iter.start iter.pos all (omega arith),
  field_at-IsField iter.start (suc iter.pos) all h,
)

pub next-last :
    (iter : Iter)
    → All IsField iter.start
    → suc iter.pos ≡ length iter.start
    → iter_next iter ≡ (false, first iter.start iter.dest_struct)
unfolding iter_next
next-last iter all h =
    let here = field_at-IsField iter.start iter.pos all (omega arith) in
    let end = field_at_end iter.start in rw (h, end) (ground (arith, here))

-- Where `i` calls inside the table lead.
pub record At (fields : List Field) (dest i : ℕ) (iter : Iter) : Type 0 where
  pub start : iter.start ≡ fields
  pub dest_struct : iter.dest_struct ≡ dest
  pub pos : iter.pos ≡ i

pub advance-At :
    (fields : List Field) (dest i : ℕ)
    → All IsField fields
    → i < length fields
    → At fields dest i (advance i (first fields dest))
unfolding first
advance-At fields dest zero all h = record { start = refl; dest_struct = refl; pos = refl }
advance-At fields dest (suc i) all h =
    let before = advance-At fields dest i all (omega arith) in
    let iter = advance i (first fields dest) in
    let all' = rw (sym before.start) at all in
    let inside : suc iter.pos < length iter.start = rw (before.start, before.pos) h in
    let moved = next-inside iter all' inside in
    subst (λ r. At fields dest (suc i) r.1) (sym moved)
      (record {
        start = step-start _ _ iter ∙ before.start;
        dest_struct = step-dest_struct _ _ iter ∙ before.dest_struct;
        pos = step-pos _ _ iter ∙ ap suc before.pos;
      })

-- In a table of fields whose tags are not 0, `i` calls of `pb_field_iter_next` behind
-- `pb_field_iter_begin` reach the field `i`; the call behind the last field returns false, and leaves
-- the iterator as `pb_field_iter_begin` did.
pub iter_next-first :
    (fields : List Field) (dest i n : ℕ)
    → All IsField fields
    → length fields ≡ suc n
    → i ≤ n
    → (current (advance i (first fields dest)) ≡ field_at fields i)
      × (iter_next (advance n (first fields dest)) ≡ (false, first fields dest))
iter_next-first fields dest i n all whole h =
    let here = advance-At fields dest i all (omega arith) in
    let last = advance-At fields dest n all (omega arith) in
    let iter = advance n (first fields dest) in
    let all' = rw (sym last.start) at all in
    (
      ap₂ field_at here.start here.pos,
      next-last iter all' (ap suc last.pos ∙ sym whole ∙ ap length (sym last.start))
          ∙ ap₂ (λ f d. (false, first f d)) last.start last.dest_struct,
    )

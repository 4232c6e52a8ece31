-- ===== src/Nanopb/MessageDecode/Loop/Enough.antt =====
-- The fuel of the loop of `pb_decode_noinit`.
use ivr_repo.Base.{refl, not, zero, suc, none, some, true, false, ◌-◌, ◌^◌, if◌then◌else◌, ◌≡◌}
use ivr_repo.Base.{leb, inr, inl, ◌==◌, Bool-cases, arith, Option, ◌≤◌, ◌<◌, Bool, ℕ}
use ivr_repo.Nanopb.Decode.Shrinks.{decode_tag-TagLess, TagLess, skip_field-Shrinks}
use ivr_repo.Nanopb.FieldDecode.{Decoder}
use ivr_repo.Nanopb.FieldDecode.Kept.{error-Kept, if-Kept, here-Kept, Kept}
use ivr_repo.Nanopb.MessageDecode.Loop.{missing_required_field, required_count, all_seen}
use ivr_repo.Nanopb.MessageDecode.Loop.{wrong_size_for_fixed_count, current, store}
use ivr_repo.Nanopb.MessageDecode.Loop.{count_complete, same_index, decode_end, iter_find}
use ivr_repo.Nanopb.MessageDecode.Loop.{is_fixed_count, find_extension_field, decode_tag, offer}
use ivr_repo.Nanopb.MessageDecode.Loop.{mark_field, dispatch, decode_unknown, decode_round}
use ivr_repo.Nanopb.MessageDecode.Loop.{decode_loop, decode_known, after_tag, skip_field, failed}
use ivr_repo.Nanopb.MessageDecode.Loop.{after_skip, finished, after_field, decode_marked, again}
use ivr_repo.Nanopb.MessageDecode.Loop.{IStream, Round, Memory, Iter, skip_unknown}
use ivr_repo.Nanopb.MessageDecode.Loop.{after_extension, Locals}

-- A round that begins with `n` bytes: less of them are left for another one.
abbrev pub Falls : ℕ → Round → Type 0
Falls n (again locals mem s) = s.bytes_left < n
Falls n (finished locals mem s) = s.bytes_left ≤ n
Falls n (failed mem s) = s.bytes_left ≤ n

skip_unknown-Falls :
    (locals : Locals) (wire_type n : ℕ) (mem : Memory) (s : IStream)
    → s.bytes_left < n
    → Falls n (skip_unknown locals wire_type mem s)
unfolding skip_unknown
skip_unknown-Falls locals wire_type n mem s h =
    after (skip_field wire_type s) ((skip_field-Shrinks wire_type).left s)
  where
    after :
        (r : Option (Unit {0}) × IStream)
        → r.1.bytes_left ≤ s.bytes_left
        → Falls n (after_skip locals mem r)
    after (some _, s') less = omega (arith, h, less)
    after (none, s') less = omega (arith, h, less)

after_extension-Falls :
    (locals : Locals) (wire_type pos n : ℕ) (r : Bool × Memory × IStream)
    → r.2.bytes_left < n
    → Falls n (after_extension locals wire_type pos r)
unfolding after_extension
after_extension-Falls locals wire_type pos n (false, mem, s) h = omega arith
after_extension-Falls locals wire_type pos n (true, mem, s) h =
    elim (Bool-cases (pos == s.bytes_left)) [
      | inl unread ↦ rw unread (skip_unknown-Falls locals wire_type n mem s h)
      | inr read ↦ rw read h
    ]

after_field-Falls :
    (locals : Locals) (n : ℕ) (r : Iter × (Bool × Memory × IStream))
    → r.1.2.bytes_left < n
    → Falls n (after_field locals r)
after_field-Falls locals n (iter, (true, mem, s)) h = h
after_field-Falls locals n (iter, (false, mem, s)) h = omega arith

module _ (slot : ℕ) (field : ℕ → Iter → Memory → IStream → Iter × (Bool × Memory × IStream))
    (extension : ℕ → ℕ → Iter → Decoder)
    (on_field : (wire_type : ℕ) (iter : Iter) (mem : Memory) (s : IStream)
      → Kept s.bytes_left (field wire_type iter mem s).1)
    (on_extension : (tag wire_type : ℕ) (iter : Iter) (mem : Memory) (s : IStream)
      → Kept s.bytes_left (extension tag wire_type iter mem s)) where
  decode_marked-Falls :
      (locals : Locals) (wire_type n : ℕ) (mem : Memory) (s : IStream)
      → s.bytes_left < n
      → Falls n (decode_marked slot field extension locals wire_type mem s)
  unfolding decode_marked
  decode_marked-Falls locals wire_type n mem s h =
      after_field-Falls (record locals { fields_seen = mark_field locals.iter locals.fields_seen })
        n (field wire_type locals.iter mem s)
        (omega (arith, h, (on_field wire_type locals.iter mem s).most))

  decode_known-Falls :
      (locals : Locals) (wire_type n : ℕ) (mem : Memory) (s : IStream)
      → s.bytes_left < n
      → Falls n (decode_known slot field extension locals wire_type mem s)
  unfolding decode_known
  decode_known-Falls locals wire_type n mem s h = elim (Bool-cases (is_fixed_count locals.iter)) [
    | inr counted ↦ rw counted (decode_marked-Falls locals wire_type n mem s h)
    | inl fixed ↦ elim (Bool-cases (same_index locals.fixed_count_field locals.iter.pos)) [
      | inl same ↦ rw (fixed, same) (decode_marked-Falls _ wire_type n mem s h)
      | inr other ↦
          elim (Bool-cases (count_complete slot locals.iter locals.fixed_count_field mem)) [
            | inl full ↦
                rw (fixed, other, full) (decode_marked-Falls _ wire_type n (store 4 0 mem slot) s h)
            | inr few ↦ rw (fixed, other, few) (omega arith)
          ]
    ]
  ]

  offer-Falls :
      (r : Bool × Iter) (locals : Locals) (tag wire_type n : ℕ) (mem : Memory) (s : IStream)
      → s.bytes_left < n
      → Falls n (offer slot field extension r locals tag wire_type mem s)
  unfolding offer
  offer-Falls (found, iter) locals tag wire_type n mem s h =
      reached (if found then (current iter).tag else 2 ^ 32 - 1)
    where
      reached :
          (start : ℕ)
          → let locals' = record locals { iter = iter; extension_range_start = start } in
            Falls n (
              if leb start tag
              then after_extension locals' wire_type s.bytes_left
                  (extension tag wire_type iter mem s)
              else skip_unknown locals' wire_type mem s)
      reached start = elim (Bool-cases (leb start tag)) [
        | inl inside ↦ rw inside (
            after_extension-Falls _ wire_type s.bytes_left n (extension tag wire_type iter mem s)
              (omega (arith, h, (on_extension tag wire_type iter mem s).most)))
        | inr outside ↦ rw outside (skip_unknown-Falls _ wire_type n mem s h)
      ]

  decode_unknown-Falls :
      (locals : Locals) (tag wire_type n : ℕ) (mem : Memory) (s : IStream)
      → s.bytes_left < n
      → Falls n (decode_unknown slot field extension locals tag wire_type mem s)
  unfolding decode_unknown
  decode_unknown-Falls locals tag wire_type n mem s h =
      elim (Bool-cases (leb locals.extension_range_start tag)) [
        | inl inside ↦
            rw inside
              (offer-Falls (find_extension_field locals.iter) locals tag wire_type n mem s h)
        | inr outside ↦ rw outside (skip_unknown-Falls locals wire_type n mem s h)
      ]

  dispatch-Falls :
      (r : Bool × Iter) (locals : Locals) (tag wire_type n : ℕ) (mem : Memory) (s : IStream)
      → s.bytes_left < n
      → Falls n (dispatch slot field extension r locals tag wire_type mem s)
  unfolding dispatch
  dispatch-Falls (true, iter) locals tag wire_type n mem s h =
      decode_known-Falls (record locals { iter = iter }) wire_type n mem s h
  dispatch-Falls (false, iter) locals tag wire_type n mem s h =
      decode_unknown-Falls (record locals { iter = iter }) tag wire_type n mem s h

  after_tag-Falls :
      (locals : Locals) (n : ℕ) (mem : Memory) (r : Bool × Option (ℕ × ℕ) × IStream)
      → TagLess n r
      → Falls n (after_tag slot field extension locals mem r)
  unfolding after_tag
  after_tag-Falls locals n mem (true, none, s) h = h
  after_tag-Falls locals n mem (false, none, s) h = h
  after_tag-Falls locals n mem (true, some (wire_type, tag), s) h =
      dispatch-Falls (iter_find tag locals.iter) locals tag wire_type n mem s h
  after_tag-Falls locals n mem (false, some (wire_type, tag), s) h =
      dispatch-Falls (iter_find tag locals.iter) locals tag wire_type n mem s h

  decode_round-Falls :
      (locals : Locals) (mem : Memory) (s : IStream)
      → Falls s.bytes_left (decode_round slot field extension locals mem s)
  unfolding decode_round
  decode_round-Falls locals mem s = elim (Bool-cases (s.bytes_left == 0)) [
    | inl empty ↦ rw empty (omega arith)
    | inr more ↦
        rw more (after_tag-Falls locals s.bytes_left mem (decode_tag s) (decode_tag-TagLess s))
  ]

  decode_end-Kept :
      {n : ℕ} (locals : Locals) (mem : Memory) (s : IStream)
      → s.bytes_left ≤ n
      → Kept n (decode_end slot field extension locals mem s)
  unfolding decode_end
  decode_end-Kept locals mem s h =
      if-Kept (not (count_complete slot locals.iter locals.fixed_count_field mem))
        (error-Kept wrong_size_for_fixed_count mem s h)
        (if-Kept (not (all_seen (required_count locals.iter) locals.fields_seen))
          (error-Kept missing_required_field mem s h) (here-Kept true mem s h))

  -- With fuel above the bytes left the loop comes to its end, and leaves no more bytes.
  pub decode_loop-ends :
      {n : ℕ} (fuel : ℕ) (locals : Locals) (mem : Memory) (s : IStream)
      → s.bytes_left ≤ n
      → s.bytes_left < fuel
      → (r : Bool × Memory × IStream) × (decode_loop slot field extension fuel locals mem s
          ≡ some r)
        × Kept n r
  unfolding decode_loop
  decode_loop-ends zero locals mem s h enough = absurd (omega arith)
  decode_loop-ends {n} (suc fuel) locals mem s h enough =
      after (decode_round slot field extension locals mem s) (decode_round-Falls locals mem s)
        (λ locals' mem' s' less. decode_loop-ends fuel locals' mem' s' (omega arith) (omega arith))
    where
      after :
          (r : Round)
          → Falls s.bytes_left r
          → ((locals' : Locals) (mem' : Memory) (s' : IStream)
              → s'.bytes_left < s.bytes_left
              → (r : Bool × Memory × IStream) × (decode_loop slot field extension fuel locals' mem'
                    s'
                  ≡ some r)
                × Kept n r)
          → (result : Bool × Memory × IStream) × (elim r
                as (λ _. Option (Bool × Memory × IStream)) [
                  | again locals' mem' s' ↦ decode_loop slot field extension fuel locals' mem' s'
                  | finished locals' mem' s' ↦
                      some (decode_end slot field extension locals' mem' s')
                  | failed mem' s' ↦ some (false, mem', s')
                ]
              ≡ some result)
            × Kept n result
      after (again locals' mem' s') less go = go locals' mem' s' less
      after (finished locals' mem' s') less go = (
        decode_end slot field extension locals' mem' s',
        refl,
        decode_end-Kept locals' mem' s' (omega arith),
      )
      after (failed mem' s') less go =
          ((false, mem', s'), refl, here-Kept false mem' s' (omega arith))

  -- Two amounts of fuel above the bytes left give the same result.
  pub decode_loop-agree :
      (fuel fuel' : ℕ) (locals : Locals) (mem : Memory) (s : IStream)
      → s.bytes_left < fuel
      → s.bytes_left < fuel'
      → decode_loop slot field extension fuel locals mem s
        ≡ decode_loop slot field extension fuel' locals mem s
  unfolding decode_loop
  decode_loop-agree zero fuel' locals mem s h h' = absurd (omega arith)
  decode_loop-agree (suc fuel) zero locals mem s h h' = absurd (omega arith)
  decode_loop-agree (suc fuel) (suc fuel') locals mem s h h' =
      after (decode_round slot field extension locals mem s) (decode_round-Falls locals mem s)
        (λ locals' mem' s' less.
          decode_loop-agree fuel fuel' locals' mem' s' (omega arith) (omega arith))
    where
      after :
          (r : Round)
          → Falls s.bytes_left r
          → ((locals' : Locals) (mem' : Memory) (s' : IStream)
              → s'.bytes_left < s.bytes_left
              → decode_loop slot field extension fuel locals' mem' s'
                ≡ decode_loop slot field extension fuel' locals' mem' s')
          → elim r [
            | again locals' mem' s' ↦ decode_loop slot field extension fuel locals' mem' s'
            | finished locals' mem' s' ↦ some (decode_end slot field extension locals' mem' s')
            | failed mem' s' ↦ some (false, mem', s')
          ]
            ≡ elim r [
              | again locals' mem' s' ↦ decode_loop slot field extension fuel' locals' mem' s'
              | finished locals' mem' s' ↦ some (decode_end slot field extension locals' mem' s')
              | failed mem' s' ↦ some (false, mem', s')
            ]
      after (again locals' mem' s') less go = go locals' mem' s' less
      after (finished locals' mem' s') less go = refl
      after (failed mem' s') less go = refl

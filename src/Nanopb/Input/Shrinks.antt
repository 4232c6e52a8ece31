-- ===== src/Nanopb/Input/Shrinks.antt =====
-- The bytes left of a stream, over each reader of pb_decode.c.
use ivr_repo.Base.{get_or, ℕ, zero, suc, ◌-◌, ◌≤◌, ◌<◌, arith, Bool, true, false, Option, none}
use ivr_repo.Base.{some, List, inl, inr, Bool-cases, ltb, not_ltb→le, ◌==◌, if◌then◌else◌}
use ivr_repo.Nanopb.Descriptor.{ErrMsg}
use ivr_repo.Nanopb.Input.{Callback, IStream, Reader, and_then, ◌>>=◌, pure, fail, return_error}
use ivr_repo.Nanopb.Input.{after_callback, buf_read, user, run_callback, read_count, read}
use ivr_repo.Nanopb.Input.{skip_chunks, read_null, readbyte}

-- A reader that leaves no more bytes than there were.
pub record Shrinks {A : Type 0} (m : Reader A) : Type 0 where
  pub left : (s : IStream) → (m s).1.bytes_left ≤ s.bytes_left

-- A reader that leaves less of them, unless it fails.
abbrev pub Less : {A : Type 0} → ℕ → Option A × IStream → Type 0
Less n (none, s) = s.bytes_left ≤ n
Less n (some a, s) = s.bytes_left < n

pub pure-Shrinks : {A : Type 0} (a : A) → Shrinks (pure a)
pure-Shrinks a = record { left = λ s. omega arith }

pub fail-Shrinks : {A : Type 0} → Shrinks (fail {A = A})
fail-Shrinks = record { left = λ s. omega arith }

pub return_error-Shrinks : {A : Type 0} (m : ErrMsg) → Shrinks (return_error {A = A} m)
return_error-Shrinks m = record { left = λ s. omega arith }

pub if-Shrinks :
    {A : Type 0} (b : Bool) {m k : Reader A} → Shrinks m → Shrinks k → Shrinks (if b then m else k)
if-Shrinks true p q = p
if-Shrinks false p q = q

pub elim-Shrinks :
    {A : Type 0} (b : Bool) {m k : Reader A}
    → Shrinks m
    → Shrinks k
    → Shrinks (elim b as (λ _. Reader A) [ true ↦ m | false ↦ k ])
elim-Shrinks true p q = p
elim-Shrinks false p q = q

pub bind-Shrinks :
    {A B : Type 0} {m : Reader A} {f : A → Reader B}
    → Shrinks m
    → ((a : A) → Shrinks (f a))
    → Shrinks (m >>= f)
bind-Shrinks {A} {B} {m} {f} p q = record { left = λ s. after s (m s) (p.left s) }
  where
    after :
        (s : IStream) (r : Option A × IStream)
        → r.1.bytes_left ≤ s.bytes_left
        → (and_then r f).1.bytes_left ≤ s.bytes_left
    after s (none, s') h = h
    after s (some a, s') h = omega (arith, h, (q a).left s')

after_callback-left :
    (s : IStream) (count : ℕ) (r : Bool × List ℕ × List ℕ)
    → 0 < count
    → count ≤ s.bytes_left
    → Less s.bytes_left (after_callback s count r)
after_callback-left s count (true, bytes, st) h room = ground arith
after_callback-left s count (false, bytes, st) h room = omega arith

after_callback-Shrinks :
    (s : IStream) (count : ℕ) (r : Bool × List ℕ × List ℕ)
    → count ≤ s.bytes_left
    → (after_callback s count r).1.bytes_left ≤ s.bytes_left
after_callback-Shrinks s count (true, bytes, st) room = ground arith
after_callback-Shrinks s count (false, bytes, st) room = omega arith

read_count-left : (count : ℕ) (s : IStream) → (read_count count s).1.bytes_left ≤ s.bytes_left
unfolding read_count
read_count-left count s = elim (Bool-cases (ltb s.bytes_left count)) [
  | inl over ↦ rw over (omega arith)
  | inr room ↦ rw room (
      after_callback-Shrinks s count (run_callback s.callback s.state count)
        (not_ltb→le s.bytes_left count room))
]

pub read_count-Shrinks : (count : ℕ) → Shrinks (read_count count)
read_count-Shrinks count = record { left = read_count-left count }

pub read-Shrinks : (count : ℕ) → Shrinks (read count)
unfolding read
read-Shrinks = read_count-Shrinks

skip_chunks-Shrinks : (fuel count : ℕ) → Shrinks (skip_chunks fuel count)
unfolding skip_chunks
skip_chunks-Shrinks zero count = read-Shrinks count
skip_chunks-Shrinks (suc fuel) count = elim (Bool-cases (ltb 16 count)) [
  | inl more ↦
      rw (more, skip_chunks)
        (bind-Shrinks (read-Shrinks 16) (λ _. skip_chunks-Shrinks fuel (count - 16)))
  | inr last ↦ rw (last, skip_chunks) (read-Shrinks count)
]

pub read_null-Shrinks : (count : ℕ) → Shrinks (read_null count)
unfolding read_null
read_null-Shrinks count = record { left = λ s. by_callback s s.callback }
  where
    by_callback :
        (s : IStream) (c : Callback)
        → (elim c as (λ _. Option (List ℕ) × IStream) [
          | buf_read ↦ read_count count s
          | user f ↦ skip_chunks count count s
        ]).1.bytes_left
          ≤ s.bytes_left
    by_callback s buf_read = (read_count-Shrinks count).left s
    by_callback s (user f) = (skip_chunks-Shrinks count count).left s

-- A byte that was read is one byte less.
pub readbyte-Less : (s : IStream) → Less s.bytes_left (readbyte s)
unfolding readbyte
readbyte-Less s = elim (Bool-cases (s.bytes_left == 0)) [
  | inl empty ↦ rw empty (omega arith)
  | inr more ↦ rw more (
      after (after_callback s 1 (run_callback s.callback s.state 1))
        (after_callback-left s 1 (run_callback s.callback s.state 1) (omega arith) (ground arith)))
]
  where
    after :
        (r : Option (List ℕ) × IStream)
        → Less s.bytes_left r
        → Less s.bytes_left (and_then r (λ bytes. pure (get_or bytes 0 0)))
    after (none, s') h = h
    after (some bytes, s') h = h

pub Less-Shrinks : {A : Type 0} (n : ℕ) (r : Option A × IStream) → Less n r → r.1.bytes_left ≤ n
Less-Shrinks n (none, s) h = h
Less-Shrinks n (some a, s) h = omega arith

pub readbyte-Shrinks : Shrinks readbyte
readbyte-Shrinks = record { left = λ s. Less-Shrinks s.bytes_left (readbyte s) (readbyte-Less s) }

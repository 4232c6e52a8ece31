-- ===== src/Nanopb/Output/Buffer.antt =====
-- What a writer does to a stream over a buffer, and to a stream that only counts.
use ivr_repo.Base.{none, ℕ, ◌+◌, ◌%◌, ◌≤◌, ◌<◌, ◌≡◌, refl, arith, Bool, true, false, List, []}
use ivr_repo.Base.{◌++◌, Option, length, length-append, take_all, append_assoc, append-nil, ltb}
use ivr_repo.Base.{ltb→lt, not_ltb→le, Bool-cases, inl, inr}
use ivr_repo.Nanopb.Descriptor.{ErrMsg, word}
use ivr_repo.Nanopb.Output.{OStream, Writer, null, buf_write, ◌>>◌, succeed, write, and_also}

-- `max` bytes of room, of which `n` count as written; `st` stands before the pointer.
abbrev pub buffer : ℕ → List ℕ → ℕ → Option ErrMsg → OStream
buffer max st n e = record {
  callback = buf_write;
  state = st;
  max_size = max;
  bytes_written = n;
  errmsg = e;
}

abbrev pub counter : ℕ → List ℕ → ℕ → Option ErrMsg → OStream
counter max st n e = record {
  callback = null;
  state = st;
  max_size = max;
  bytes_written = n;
  errmsg = e;
}

-- The writer `w` writes exactly the bytes `bs`: it appends them where there is room, fails where
-- there is none, and on a stream that only counts it adds their number.
pub record Emits (w : Writer) (bs : List ℕ) : Type 0 where
  pub fits :
      (max : ℕ) (st : List ℕ) (n : ℕ)
      → n + length bs ≤ max
      → max < word
      → w (buffer max st n none) ≡ (true, buffer max (st ++ bs) (n + length bs) none)
  pub full :
      (max : ℕ) (st : List ℕ) (n : ℕ)
      → n ≤ max
      → max < n + length bs
      → max + length bs < word
      → (w (buffer max st n none)).0 ≡ false
  pub counts :
      (max : ℕ) (st : List ℕ) (n : ℕ)
      → n < word
      → w (counter max st n none) ≡ (true, counter max st ((n + length bs) % word) none)

write-fits :
    (bs : List ℕ) (max : ℕ) (st : List ℕ) (n : ℕ)
    → n + length bs ≤ max
    → max < word
    → write bs (length bs) (buffer max st n none)
      ≡ (true, buffer max (st ++ bs) (n + length bs) none)
unfolding write
write-fits bs max st n h hm =
    let small : (n + length bs) % word ≡ n + length bs = omega arith in
    ground (arith, small, take_all (length bs) bs (omega arith))

write-full :
    (bs : List ℕ) (max : ℕ) (st : List ℕ) (n : ℕ)
    → n ≤ max
    → max < n + length bs
    → max + length bs < word
    → (write bs (length bs) (buffer max st n none)).0 ≡ false
unfolding write
write-full bs max st n hn h hm =
    let small : (n + length bs) % word ≡ n + length bs = omega arith in ground (arith, small)

pub write-counter :
    (bs : List ℕ) (count max : ℕ) (st : List ℕ) (n : ℕ)
    → write bs count (counter max st n none) ≡ (true, counter max st ((n + count) % word) none)
unfolding write
write-counter bs count max st n = refl

pub write-Emits : (bs : List ℕ) → Emits (write bs (length bs)) bs
write-Emits bs = record {
  fits = write-fits bs;
  full = write-full bs;
  counts = λ max st n h. write-counter bs (length bs) max st n;
}

pub succeed-Emits : Emits succeed []
succeed-Emits = record {
  fits = λ max st n h hm. let none_added : n + 0 ≡ n = omega arith in rw (append-nil, none_added);
  full = λ max st n hn h hm. absurd (omega arith);
  counts = λ max st n h. let none_added : (n + 0) % word ≡ n = omega arith in rw none_added;
}

and_also-false : (r : Bool × OStream) (k : Writer) → r.0 ≡ false → (and_also r k).0 ≡ false
and_also-false (true, s) k h = cc
and_also-false (false, s) k h = refl

module _ {a b : Writer} {xs ys : List ℕ} (p : Emits a xs) (q : Emits b ys) where
  >>-fits :
      (max : ℕ) (st : List ℕ) (n : ℕ)
      → n + length (xs ++ ys) ≤ max
      → max < word
      → (a >> b) (buffer max st n none)
        ≡ (true, buffer max (st ++ (xs ++ ys)) (n + length (xs ++ ys)) none)
  >>-fits max st n h hm =
      let whole = length-append xs ys in
      let total : n + length (xs ++ ys) ≡ n + length xs + length ys = omega (arith, whole) in
      rw (
        p.fits max st n (omega (arith, whole)) hm,
        q.fits max (st ++ xs) (n + length xs) (omega (arith, whole)) hm,
        total,
        append_assoc st xs ys,
      )

  >>-full :
      (max : ℕ) (st : List ℕ) (n : ℕ)
      → n ≤ max
      → max < n + length (xs ++ ys)
      → max + length (xs ++ ys) < word
      → ((a >> b) (buffer max st n none)).0 ≡ false
  >>-full max st n hn h hm = elim (Bool-cases (ltb max (n + length xs))) [
    | inl over ↦
        and_also-false (a (buffer max st n none)) b
          (p.full max st n hn (ltb→lt _ _ over) (omega (arith, length-append xs ys)))
    | inr under ↦
        let whole = length-append xs ys in
        let room : n + length xs ≤ max = not_ltb→le max (n + length xs) under in
        rw (p.fits max st n room (omega (arith, whole)))
          (q.full max (st ++ xs) (n + length xs) room (omega (arith, whole)) (omega (arith, whole)))
  ]

  >>-counts :
      (max : ℕ) (st : List ℕ) (n : ℕ)
      → n < word
      → (a >> b) (counter max st n none)
        ≡ (true, counter max st ((n + length (xs ++ ys)) % word) none)
  >>-counts max st n h =
      let whole = length-append xs ys in
      let total : ((n + length xs) % word + length ys) % word ≡ (n + length (xs ++ ys)) % word =
        omega (arith, whole) in
      rw (p.counts max st n h, q.counts max st ((n + length xs) % word) (omega arith), total)

  -- One writer after another writes the bytes of both.
  pub >>-Emits : Emits (a >> b) (xs ++ ys)
  >>-Emits = record { fits = >>-fits; full = >>-full; counts = >>-counts }

-- ===== src/Nanopb/MessageDecode/Required/Seen.antt =====
-- The marks of `fields_seen`, and the test behind the loop.
use ivr_repo.Base.{◌&&◌, sym, not_ltb→le, ◌⊎◌, ltb→lt, ◌%◌, inr, inl, ==→eq, ◌-◌, ltb, ◌∙◌, ◌^◌}
use ivr_repo.Base.{Bool-cases, ◌||◌, ◌/◌, arith, ap, ◌≤◌, ◌≡◌, ◌==◌, ◌+◌, ◌<◌, Bool, All, ℕ, List}
use ivr_repo.Base.{false, refl, [], ◌∷◌, every_append, every-at, every}
use ivr_repo.Nanopb.MessageDecode.Required.{words_full, all_seen, allbits, none_seen, mark_seen}
use ivr_repo.Nanopb.MessageDecode.Required.Bits.{bits_mark, bits_full, bits_trim, bits-ext, bits}
use mathlib.Core.Path.{subst, ap₂}

-- The marks of the fields with these indices, the last of them first.
abbrev pub mark_all : List ℕ → List ℕ
mark_all [] = none_seen
mark_all (i ∷ is) = mark_seen i (mark_all is)

abbrev pub contains : List ℕ → ℕ → Bool
contains [] i = false
contains (j ∷ is) i = j == i || contains is i

-- Two words of bits
abbrev words : (ℕ → Bool) → List ℕ
words b = bits 32 b ∷ bits 32 (λ i. b (32 + i)) ∷ []

words-ext : (b c : ℕ → Bool) → ((i : ℕ) → b i ≡ c i) → words b ≡ words c
words-ext b c h = λ j. words (λ i. h i j)

not_marked : (k i : ℕ) (x : Bool) → (i < k) ⊎ (k < i) → x ≡ (k == i || x)
not_marked k i x h = let other : (k == i) ≡ false = ground arith in ap (λ e. e || x) (sym other)

==-add : (n k i : ℕ) → (k == i) ≡ (n + k == n + i)
==-add n k i = ground arith

mark_seen-words :
    (k : ℕ) (b : ℕ → Bool) → k < 64 → mark_seen k (words b) ≡ words (λ i. k == i || b i)
unfolding mark_seen
mark_seen-words k b h = elim (Bool-cases (ltb k 32)) [
  | inl first ↦
      let here : k < 32 = ltb→lt k 32 first in
      let word : k / 32 ≡ 0 = omega arith in
      let bit : k % 32 ≡ k = omega arith in
      let same =
        bits-ext 32 (λ i. b (32 + i)) (λ i. k == 32 + i || b (32 + i))
          (λ i less. not_marked k (32 + i) (b (32 + i)) (inr (omega (arith, here)))) in
      rw (word, bit) (ap₂ (λ x y. x ∷ y ∷ []) (bits_mark 32 k b here) same)
  | inr second ↦
      let large = not_ltb→le k 32 second in
      let word : k / 32 ≡ 1 = omega arith in
      let bit : k ≡ 32 + k % 32 = omega arith in
      let same =
        bits-ext 32 b (λ i. k == i || b i)
          (λ i less. not_marked k i (b i) (inl (omega (arith, less, large)))) in
      let moved : (i : ℕ) → (k % 32 == i) ≡ (k == 32 + i) =
        λ i. ==-add 32 (k % 32) i ∙ ap (λ t. t == 32 + i) (sym bit) in
      let there =
        bits-ext 32 (λ i. k % 32 == i || b (32 + i)) (λ i. k == 32 + i || b (32 + i))
          (λ i less. ap (λ e. e || b (32 + i)) (moved i)) in
      rw word (
        ap₂ (λ x y. x ∷ y ∷ []) same
          (bits_mark 32 (k % 32) (λ i. b (32 + i)) (omega arith) ∙ there))
]

mark_all-words : (is : List ℕ) → All (λ i. i < 64) is → mark_all is ≡ words (contains is)
mark_all-words [] h = refl
mark_all-words (i ∷ is) (hi, h) =
    ap (mark_seen i) (mark_all-words is h) ∙ mark_seen-words i (contains is) hi

beyond : (is : List ℕ) (n i : ℕ) → All (λ j. j < n) is → n ≤ i → contains is i ≡ false
beyond [] n i h le = refl
beyond (j ∷ is) n i (hj, h) le =
    let other : (j == i) ≡ false = ground arith in rw (other, beyond is n i h le) refl

-- The mask of the remaining bits
mask : (r : ℕ) → r < 32 → allbits / 2 ^ (32 - r) ≡ 2 ^ r - 1
mask r h = ==→eq _ _ (every-at 32 (λ r. allbits / 2 ^ (32 - r) == 2 ^ r - 1) r refl h)

-- A word with marks below `r` only
last_word :
    (b : ℕ → Bool) (r : ℕ)
    → r < 32
    → ((i : ℕ) → r ≤ i → b i ≡ false)
    → ((r == 0) || (bits 32 b == allbits / 2 ^ (32 - r))) ≡ every r b
last_word b r h none = elim (Bool-cases (r == 0)) [
  | inl zero_bits ↦ let none_left : r ≡ 0 = ==→eq r 0 zero_bits in rw (zero_bits, none_left) refl
  | inr some_bits ↦
      let whole : 32 ≡ r + (32 - r) = omega arith in
      let trimmed = ap (λ n. bits n b) whole ∙ bits_trim r (32 - r) b none in
      rw (some_bits, mask r h, trimmed) (bits_full r b)
]

two_words :
    (r x y : ℕ)
    → r < 32
    → all_seen (32 + r) (x ∷ y ∷ [])
      ≡ ((x == 2 ^ 32 - 1) && ((r == 0) || (y == allbits / 2 ^ (32 - r))))
unfolding all_seen words_full
two_words r x y h =
    let word : (32 + r) / 32 ≡ 1 = omega arith in
    let bit : (32 + r) % 32 ≡ r = omega arith in rw (word, bit) (ground arith)

full_words : (x y : ℕ) → all_seen 64 (x ∷ y ∷ []) ≡ ((x == 2 ^ 32 - 1) && (y == 2 ^ 32 - 1))
unfolding all_seen words_full
full_words x y = ground arith

All-le : {n k : ℕ} (is : List ℕ) → n ≤ k → All (λ i. i < n) is → All (λ i. i < k) is
All-le [] h all = all
All-le (i ∷ is) h (hi, all) = (omega arith, All-le is h all)

module _ (is : List ℕ) where
  -- The test for a number of fields in each word
  seen_first :
      (count : ℕ)
      → count < 32
      → All (λ i. i < count) is
      → all_seen count (words (contains is)) ≡ every count (contains is)
  unfolding all_seen words_full
  seen_first count h below =
      let word : count / 32 ≡ 0 = omega arith in
      let bit : count % 32 ≡ count = omega arith in
      rw (word, bit) (last_word (contains is) count h (λ i le. beyond is count i below le))

  seen_second :
      (r : ℕ)
      → r < 32
      → All (λ i. i < 32 + r) is
      → all_seen (32 + r) (words (contains is)) ≡ every (32 + r) (contains is)
  seen_second r h below =
      two_words r (bits 32 (contains is)) (bits 32 (λ i. contains is (32 + i))) h
      ∙ ap₂ (λ x y. x && y) (bits_full 32 (contains is))
          (last_word (λ i. contains is (32 + i)) r h
            (λ i le. beyond is (32 + r) (32 + i) below (omega arith)))
      ∙ sym (every_append 32 r (contains is))

  seen_both : all_seen 64 (words (contains is)) ≡ every 64 (contains is)
  seen_both =
      full_words (bits 32 (contains is)) (bits 32 (λ i. contains is (32 + i)))
      ∙ ap₂ (λ x y. x && y) (bits_full 32 (contains is)) (bits_full 32 (λ i. contains is (32 + i)))
      ∙ sym (every_append 32 32 (contains is))

-- The marks of fields with indices below `count`, at most 64, in any order and number: the test finds
-- a mark missing just if one of the indices below `count` is not among them.
pub all_seen-mark_all :
    (count : ℕ) (is : List ℕ)
    → count ≤ 64
    → All (λ i. i < count) is
    → all_seen count (mark_all is) ≡ every count (contains is)
all_seen-mark_all count is h below =
    ap (all_seen count) (mark_all-words is (All-le is h below)) ∙ counted
  where
    counted : all_seen count (words (contains is)) ≡ every count (contains is)
    counted = elim (Bool-cases (ltb count 32)) [
      | inl small ↦ seen_first is count (ltb→lt count 32 small) below
      | inr large ↦ elim (Bool-cases (ltb count 64)) [
        | inl two ↦
            let least = not_ltb→le count 32 large in
            let most = ltb→lt count 64 two in
            let split : count ≡ 32 + (count - 32) = omega arith in
            subst (λ c. all_seen c (words (contains is)) ≡ every c (contains is)) (sym split)
              (seen_second is (count - 32) (omega arith) (rw split at below))
        | inr both ↦
            let least = not_ltb→le count 64 both in
            let whole : 64 ≡ count = omega arith in
            subst (λ c. all_seen c (words (contains is)) ≡ every c (contains is)) whole
              (seen_both is)
      ]
    ]

-- ===== src/Nanopb/MessageDecode/Required/Bits.antt =====
-- A word of `fields_seen` as the bits of a number.
use ivr_repo.Base.{every, ◌%◌, ◌/◌, ◌∙◌, sym, ◌||◌, ◌-◌, ap, ◌^◌, ◌*◌, bit_or, arith, ◌≤◌, ◌≡◌}
use ivr_repo.Base.{◌==◌, ◌<◌, ◌+◌, ◌&&◌, Bool, ℕ, zero, suc, true, false, if◌then◌else◌, refl}
use ivr_repo.Base.Bits.{bit_or_digit, bit_or-zero}
use Prim.Native.Nat.{max}
use native.Mathlib.Nat.{pow-suc}

-- The number of `n` bits, lowest first.
abbrev pub bits : ℕ → (ℕ → Bool) → ℕ
bits zero b = 0
bits (suc n) b = (if b 0 then 1 else 0) + 2 * bits n (λ i. b (suc i))

pub bits-ext : (n : ℕ) (b c : ℕ → Bool) → ((i : ℕ) → i < n → b i ≡ c i) → bits n b ≡ bits n c
bits-ext zero b c h = refl
bits-ext (suc n) b c h =
    let rest = bits-ext n (λ i. b (suc i)) (λ i. c (suc i)) (λ i less. h (suc i) (omega arith)) in
    rw (h 0 (omega arith), rest) refl

bits_bound : (n : ℕ) (b : ℕ → Bool) → bits n b < 2 ^ n
bits_bound zero b = omega arith
bits_bound (suc n) b = ground (arith, bits_bound n (λ i. b (suc i)), pow-suc 2 n)

-- All bits are set in the greatest number only.
pub bits_full : (n : ℕ) (b : ℕ → Bool) → (bits n b == 2 ^ n - 1) ≡ every n b
bits_full zero b = refl
bits_full (suc n) b =
    sym (split (bits n (λ i. b (suc i))) (bits_bound n (λ i. b (suc i))))
    ∙ ap (λ x. b 0 && x) (bits_full n (λ i. b (suc i)))
  where
    split :
        (x : ℕ)
        → x < 2 ^ n
        → (b 0 && (x == 2 ^ n - 1)) ≡ ((if b 0 then 1 else 0) + 2 * x == 2 ^ suc n - 1)
    split x h = ground (arith, pow-suc 2 n)

pub bits_trim :
    (n m : ℕ) (b : ℕ → Bool) → ((i : ℕ) → n ≤ i → b i ≡ false) → bits (n + m) b ≡ bits n b
bits_trim zero zero b h = refl
bits_trim zero (suc m) b h =
    let up : 0 + suc m ≡ suc (0 + m) = omega arith in
    let rest = bits_trim zero m (λ i. b (suc i)) (λ i less. h (suc i) (omega arith)) in
    ap (λ j. bits j b) up ∙ rw (h 0 (omega arith), rest) refl
bits_trim (suc n) m b h =
    let up : suc n + m ≡ suc (n + m) = omega arith in
    ap (λ j. bits j b) up
    ∙ ap (λ x. (if b 0 then 1 else 0) + 2 * x)
        (bits_trim n m (λ i. b (suc i)) (λ i less. h (suc i) (omega arith)))

or_digit : (c d y z : ℕ) → c < 2 → d < 2 → bit_or (c + 2 * y) (d + 2 * z) ≡ max c d + 2 * bit_or y z
or_digit c d y z hc hd =
    let y' : (c + 2 * y) / 2 ≡ y = omega arith in
    let z' : (d + 2 * z) / 2 ≡ z = omega arith in
    let c' : (c + 2 * y) % 2 ≡ c = omega arith in
    let d' : (d + 2 * z) % 2 ≡ d = omega arith in
    let whole = bit_or_digit (c + 2 * y) (d + 2 * z) in
    let parts : bit_or (c + 2 * y) (d + 2 * z) ≡ bit_or y z * 2 + max c d =
      rw (y', z', c', d') at whole in
    omega arith

digit_bound : (b : Bool) → (if b then 1 else 0) < 2
digit_bound true = omega arith
digit_bound false = omega arith

==-suc : (k i : ℕ) → (k == i) ≡ (suc k == suc i)
==-suc k i = ground arith

pub bits_mark :
    (n k : ℕ) (b : ℕ → Bool) → k < n → bit_or (bits n b) (2 ^ k) ≡ bits n (λ i. k == i || b i)
bits_mark zero k b h = absurd (omega arith)
bits_mark (suc n) zero b h =
    let low =
      or_digit (if b 0 then 1 else 0) 1 (bits n (λ i. b (suc i))) 0 (digit_bound (b 0))
        (omega arith) in
    let rest =
      bits-ext n (λ i. b (suc i)) (λ i. 0 == suc i || b (suc i)) (λ i less. ground arith) in
    low ∙ omega (arith, digit_bound (b 0), bit_or-zero (bits n (λ i. b (suc i))), rest)
bits_mark (suc n) (suc k) b h =
    let low =
      or_digit (if b 0 then 1 else 0) 0 (bits n (λ i. b (suc i))) (2 ^ k) (digit_bound (b 0))
        (omega arith) in
    let rest = bits_mark n k (λ i. b (suc i)) (omega arith) in
    let up : 2 ^ suc k ≡ 0 + 2 * 2 ^ k = omega (arith, pow-suc 2 k) in
    let other : (suc k == 0) ≡ false = ground arith in
    let same : (i : ℕ) → (k == i || b (suc i)) ≡ (suc k == suc i || b (suc i)) =
      λ i. ap (λ e. e || b (suc i)) (==-suc k i) in
    let moved =
      bits-ext n (λ i. k == i || b (suc i)) (λ i. suc k == suc i || b (suc i)) (λ i less. same i) in
    ap (λ t. bit_or (bits (suc n) b) t) up ∙ low ∙ rw other (omega (arith, rest, moved))

-- ===== src/Base64/Groups.antt =====
-- What the loop of `f_b64_pton` does with the digits of one group.
use ivr_repo.Base.{◌^◌, ◌∙◌, ℕ, zero, suc, ◌+◌}
use ivr_repo.Base.{◌*◌, ◌/◌, ◌%◌, ◌<◌, ◌≡◌, ap, arith, bit_or, some, List, [], ◌∷◌, ◌++◌, length}
use ivr_repo.Base.{set, get_or}
use ivr_repo.Base.Bits.{bit_or_high_low}
use ivr_repo.Base64.{pad64, base64_digit}
use ivr_repo.Base64.Digits.{base64_digit_facts}
use ivr_repo.Base64.Ntop.{output_group}
use ivr_repo.Base64.Pton.{Scan, pton_digit, pton_loop}
use ivr_repo.Base64.Text.{base64_text}

set_behind :
    (pre xs : List ℕ) (i k v : ℕ) → i ≡ length pre + k → set (pre ++ xs) i v ≡ pre ++ set xs k v
set_behind [] xs i k v h = let same : i ≡ k = omega arith in rw same
set_behind (p ∷ pre) xs zero k v h = absurd (omega arith)
set_behind (p ∷ pre) xs (suc i) k v h = ap (λ t. p ∷ t) (set_behind pre xs i k v (omega arith))

pub get_behind :
    (pre xs : List ℕ) (i k : ℕ) → i ≡ length pre + k → get_or (pre ++ xs) i 0 ≡ get_or xs k 0
get_behind [] xs i k h = let same : i ≡ k = omega arith in rw same
get_behind (p ∷ pre) xs zero k h = absurd (omega arith)
get_behind (p ∷ pre) xs (suc i) k h = get_behind pre xs i k (omega arith)

mod_u_int : (n : ℕ) → n < 2 ^ 32 → n % 2 ^ 32 ≡ n
mod_u_int n h = omega arith

abbrev pub scan : List ℕ → ℕ → ℕ → Scan
scan t i state = record { target = some t; tarindex = i; state = state }

digit_step :
    (d n : ℕ) (src : List ℕ) (s s' : Scan)
    → d < 64
    → pton_digit n d s ≡ some s'
    → pton_loop (base64_digit d ∷ src) n s ≡ pton_loop src n s'
unfolding pton_loop
digit_step d n src s s' hd step =
    let (space, pad, index) = base64_digit_facts d hd in rw (space, pad, index, step)

module _ (pre m : List ℕ) (n : ℕ) where
  first_digit :
      (d x : ℕ)
      → length pre < n
      → pton_digit n d (scan (pre ++ x ∷ m) (length pre) 0)
        ≡ some (scan (pre ++ d * 4 ∷ m) (length pre) 1)
  unfolding pton_digit
  first_digit d x h = ground (arith, set_behind pre (x ∷ m) (length pre) 0 (d * 4))

  second_digit :
      (d x y : ℕ)
      → length pre + 1 < n
      → length pre + 1 < 2 ^ 32
      → pton_digit n d (scan (pre ++ x ∷ y ∷ m) (length pre) 1)
        ≡ some (scan (pre ++ bit_or x (d / 16) ∷ d % 16 * 16 ∷ m) (length pre + 1) 2)
  unfolding pton_digit
  second_digit d x y h small = ground (
    arith,
    mod_u_int (length pre + 1),
    get_behind pre (x ∷ y ∷ m) (length pre) 0,
    set_behind pre (x ∷ y ∷ m) (length pre) 0 (bit_or x (d / 16)),
    set_behind pre (bit_or x (d / 16) ∷ y ∷ m) (length pre + 1) 1 (d % 16 * 16),
  )

  third_digit :
      (d x y z : ℕ)
      → length pre + 2 < n
      → length pre + 3 < 2 ^ 32
      → pton_digit n d (scan (pre ++ x ∷ y ∷ z ∷ m) (length pre + 1) 2)
        ≡ some (scan (pre ++ x ∷ bit_or y (d / 4) ∷ d % 4 * 64 ∷ m) (length pre + 2) 3)
  unfolding pton_digit
  third_digit d x y z h small =
      let next : (length pre + 1 + 1) % 2 ^ 32 ≡ length pre + 2 = omega arith in
      ground (
        arith,
        next,
        get_behind pre (x ∷ y ∷ z ∷ m) (length pre + 1) 1,
        set_behind pre (x ∷ y ∷ z ∷ m) (length pre + 1) 1 (bit_or y (d / 4)),
        set_behind pre (x ∷ bit_or y (d / 4) ∷ z ∷ m) (length pre + 2) 2 (d % 4 * 64),
      )

  fourth_digit :
      (d x y z : ℕ)
      → length pre + 2 < n
      → length pre + 3 < 2 ^ 32
      → pton_digit n d (scan (pre ++ x ∷ y ∷ z ∷ m) (length pre + 2) 3)
        ≡ some (scan (pre ++ x ∷ y ∷ bit_or z d ∷ m) (length pre + 3) 0)
  unfolding pton_digit
  fourth_digit d x y z h small =
      let next : (length pre + 2 + 1) % 2 ^ 32 ≡ length pre + 3 = omega arith in
      ground (
        arith,
        next,
        get_behind pre (x ∷ y ∷ z ∷ m) (length pre + 2) 2,
        set_behind pre (x ∷ y ∷ z ∷ m) (length pre + 2) 2 (bit_or z d),
      )

-- The bytes come back from the digits.
first_byte : (a b : ℕ) → b < 256 → bit_or (a / 4 * 4) ((a % 4 * 16 + b / 16) / 16) ≡ a
first_byte a b hb =
    let low : (a % 4 * 16 + b / 16) / 16 ≡ a % 4 = omega arith in
    rw low (omega (arith, bit_or_high_low 2 (a / 4) (a % 4) (omega arith)))

second_byte :
    (a b c : ℕ)
    → b < 256
    → c < 256
    → bit_or ((a % 4 * 16 + b / 16) % 16 * 16) ((b % 16 * 4 + c / 64) / 4) ≡ b
second_byte a b c hb hc =
    let high : (a % 4 * 16 + b / 16) % 16 ≡ b / 16 = omega arith in
    let low : (b % 16 * 4 + c / 64) / 4 ≡ b % 16 = omega arith in
    rw (high, low) (omega (arith, bit_or_high_low 4 (b / 16) (b % 16) (omega arith)))

third_byte : (b c : ℕ) → c < 256 → bit_or ((b % 16 * 4 + c / 64) % 4 * 64) (c % 64) ≡ c
third_byte b c hc =
    let high : (b % 16 * 4 + c / 64) % 4 ≡ c / 64 = omega arith in
    rw high (omega (arith, bit_or_high_low 6 (c / 64) (c % 64) (omega arith)))

-- Four digits of one group give its three bytes.
group_step :
    (pre m src : List ℕ) (n a b c x y z : ℕ)
    → a < 256
    → b < 256
    → c < 256
    → length pre + 2 < n
    → length pre + 3 < 2 ^ 32
    → pton_loop (output_group a b c ++ src) n (scan (pre ++ x ∷ y ∷ z ∷ m) (length pre) 0)
      ≡ pton_loop src n (scan (pre ++ a ∷ b ∷ c ∷ m) (length pre + 3) 0)
unfolding output_group
group_step pre m src n a b c x y z ha hb hc h small =
    let d₁ = a / 4 in
    let d₂ = a % 4 * 16 + b / 16 in
    let d₃ = b % 16 * 4 + c / 64 in
    let d₄ = c % 64 in
    digit_step d₁ n _ _ _ (omega arith) (first_digit pre (y ∷ z ∷ m) n d₁ x (omega arith))
    ∙ digit_step d₂ n _ _ _ (omega arith)
        (second_digit pre (z ∷ m) n d₂ (d₁ * 4) y (omega arith) (omega arith))
    ∙ digit_step d₃ n _ _ _ (omega arith) (third_digit pre m n d₃ _ (d₂ % 16 * 16) z h small)
    ∙ digit_step d₄ n src _ _ (omega arith) (fourth_digit pre m n d₄ _ _ (d₃ % 4 * 64) h small)
    ∙ rw (first_byte a b hb, second_byte a b c hb hc, third_byte b c hc)

pub one_left :
    (pre m : List ℕ) (n a x y : ℕ)
    → a < 256
    → length pre + 1 < n
    → length pre + 1 < 2 ^ 32
    → pton_loop (base64_text (a ∷ [])) n (scan (pre ++ x ∷ y ∷ m) (length pre) 0)
      ≡ pton_loop (pad64 ∷ pad64 ∷ []) n (scan (pre ++ a ∷ 0 ∷ m) (length pre + 1) 2)
unfolding base64_text
one_left pre m n a x y ha h small =
    let d₁ = a / 4 in
    let d₂ = a % 4 * 16 in
    let low : a % 4 * 16 / 16 ≡ a % 4 = omega arith in
    let none_over : a % 4 * 16 % 16 * 16 ≡ 0 = omega arith in
    let byte : bit_or (a / 4 * 4) (a % 4) ≡ a =
      omega (arith, bit_or_high_low 2 (a / 4) (a % 4) (omega arith)) in
    digit_step d₁ n _ _ _ (omega arith) (first_digit pre (y ∷ m) n d₁ x (omega arith))
    ∙ digit_step d₂ n (pad64 ∷ pad64 ∷ []) _ _ (omega arith)
        (second_digit pre m n d₂ (d₁ * 4) y h small)
    ∙ rw (low, none_over, byte)

pub two_left :
    (pre m : List ℕ) (n a b x y z : ℕ)
    → a < 256
    → b < 256
    → length pre + 2 < n
    → length pre + 3 < 2 ^ 32
    → pton_loop (base64_text (a ∷ b ∷ [])) n (scan (pre ++ x ∷ y ∷ z ∷ m) (length pre) 0)
      ≡ pton_loop (pad64 ∷ []) n (scan (pre ++ a ∷ b ∷ 0 ∷ m) (length pre + 2) 3)
unfolding base64_text
two_left pre m n a b x y z ha hb h small =
    let d₁ = a / 4 in
    let d₂ = a % 4 * 16 + b / 16 in
    let d₃ = b % 16 * 4 in
    let high : (a % 4 * 16 + b / 16) % 16 ≡ b / 16 = omega arith in
    let low : b % 16 * 4 / 4 ≡ b % 16 = omega arith in
    let none_over : b % 16 * 4 % 4 * 64 ≡ 0 = omega arith in
    let byte : bit_or (b / 16 * 16) (b % 16) ≡ b =
      omega (arith, bit_or_high_low 4 (b / 16) (b % 16) (omega arith)) in
    digit_step d₁ n _ _ _ (omega arith) (first_digit pre (y ∷ z ∷ m) n d₁ x (omega arith))
    ∙ digit_step d₂ n _ _ _ (omega arith)
        (second_digit pre (z ∷ m) n d₂ (d₁ * 4) y (omega arith) (omega arith))
    ∙ digit_step d₃ n (pad64 ∷ []) _ _ (omega arith)
        (third_digit pre m n d₃ _ (d₂ % 16 * 16) z h small)
    ∙ rw (first_byte a b hb, high, low, none_over, byte)

pub whole_group :
    (pre m src : List ℕ) (n a b c x y z : ℕ)
    → a < 256
    → b < 256
    → c < 256
    → length pre + 2 < n
    → length pre + 3 < 2 ^ 32
    → pton_loop (base64_text (a ∷ b ∷ c ∷ src)) n (scan (pre ++ x ∷ y ∷ z ∷ m) (length pre) 0)
      ≡ pton_loop (base64_text src) n (scan (pre ++ a ∷ b ∷ c ∷ m) (length pre + 3) 0)
unfolding base64_text
whole_group pre m src = group_step pre m (base64_text src)

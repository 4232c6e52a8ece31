-- ===== src/Base64/Digits.antt =====
-- The digits of the alphabet and their values, by a table of 64 entries.
use ivr_repo.Base.{
  ℕ, zero, suc, ◌<◌, ◌≡◌, refl, Bool, true, false, ◌&&◌, not, ◌==◌, some, none, arith,
}
use ivr_repo.Base.{Option}
use ivr_repo.Base64.{base64_digit, base64_index, pad64}
use ivr_repo.Base64.Pton.{isspace}

found : ℕ → Option ℕ → Bool
found d none = false
found d (some i) = i == d

digit_row : ℕ → Bool
unfolding isspace base64_digit base64_index found
digit_row d =
    let ch = base64_digit d in not (isspace ch) && not (ch == pad64) && found d (base64_index ch)

rows_below : ℕ → Bool
rows_below zero = true
rows_below (suc n) = digit_row n && rows_below n

row-of_table : (n d : ℕ) → rows_below n ≡ true → d < n → digit_row d ≡ true
unfolding rows_below
row-of_table zero d h lt = absurd (omega arith)
row-of_table (suc n) d h lt = ground (arith, row-of_table n d)

table : rows_below 64 ≡ true
unfolding rows_below digit_row
table = refl

found→some : (d : ℕ) (o : Option ℕ) → found d o ≡ true → o ≡ some d
unfolding found
found→some d none h = cc
found→some d (some i) h = ground arith

-- A digit of the alphabet is no space and no pad, and is found at its value.
pub base64_digit_facts :
    (d : ℕ)
    → d < 64
    → (isspace (base64_digit d) ≡ false)
      × ((base64_digit d == pad64) ≡ false)
      × (base64_index (base64_digit d) ≡ some d)
base64_digit_facts d h = split _ _ _ (unfold digit_row in row-of_table 64 d table h)
  where
    split :
        (a b : Bool) (o : Option ℕ)
        → (not a && not b && found d o) ≡ true
        → (a ≡ false) × (b ≡ false) × (o ≡ some d)
    split false false o e = (refl, refl, found→some d o e)
    split true b o e = cc
    split false true o e = cc

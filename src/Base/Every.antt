-- ===== src/Base/Every.antt =====
-- A test at every number below a bound.
use Prim.Native.Nat.{ℕ, zero, suc, ◌+◌, ◌<◌}
use mathlib.Core.Bool.{Bool, true, false, ◌&&◌}
use mathlib.Core.Path.{◌≡◌, refl, ap, ◌∙◌}
use native.Mathlib.Omega.{arith}

-- Whether `b` holds at every number below `n`.
abbrev pub every : ℕ → (ℕ → Bool) → Bool
every zero b = true
every (suc n) b = b 0 && every n (λ i. b (suc i))

pub every-at : (n : ℕ) (b : ℕ → Bool) (i : ℕ) → every n b ≡ true → i < n → b i ≡ true
every-at zero b i h less = absurd (omega arith)
every-at (suc n) b zero h less = ground arith
every-at (suc n) b (suc i) h less = every-at n (λ i. b (suc i)) i (ground arith) (omega arith)

pub every-ext : (n : ℕ) (b c : ℕ → Bool) → ((i : ℕ) → b i ≡ c i) → every n b ≡ every n c
every-ext n b c h = λ j. every n (λ i. h i j)

and_assoc : (a b c : Bool) → (a && (b && c)) ≡ ((a && b) && c)
and_assoc true b c = refl
and_assoc false b c = refl

pub every_append :
    (m n : ℕ) (b : ℕ → Bool) → every (m + n) b ≡ (every m b && every n (λ i. b (m + i)))
every_append zero n b =
    let none : 0 + n ≡ n = omega arith in
    ap (λ j. every j b) none
    ∙ every-ext n b (λ i. b (0 + i)) (λ i. let same : i ≡ 0 + i = omega arith in ap b same)
every_append (suc m) n b =
    let up : suc m + n ≡ suc (m + n) = omega arith in
    let moved : (i : ℕ) → suc (m + i) ≡ suc m + i = λ i. omega arith in
    ap (λ j. every j b) up
    ∙ ap (λ x. b 0 && x)
        (every_append m n (λ i. b (suc i))
          ∙ ap (λ x. every m (λ i. b (suc i)) && x)
              (every-ext n (λ i. b (suc (m + i))) (λ i. b (suc m + i)) (λ i. ap b (moved i))))
    ∙ and_assoc (b 0) (every m (λ i. b (suc i))) (every n (λ i. b (suc m + i)))

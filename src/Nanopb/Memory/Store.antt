-- ===== src/Nanopb/Memory/Store.antt =====
-- Writes to the memory of a message struct, and what is then read.
use ivr_repo.Base.{ap, ℕ, zero, suc, ◌+◌, ◌/◌, ◌%◌, ◌^◌, ◌≤◌, ◌<◌, ◌≡◌, ◌∙◌, refl, arith, ◌⊎◌}
use ivr_repo.Base.{inl, inr, List, [], ◌∷◌, length, ◌==◌, if◌then◌else◌}
use ivr_repo.Nanopb.Memory.{Memory, load, load_bytes}
use mathlib.Core.Path.{ap₂}
use native.Mathlib.Nat.{pow-suc}

unfoldable pub store_byte : Memory → ℕ → ℕ → Memory
store_byte mem p b q = if q == p then b else mem q

unfoldable pub store_bytes : List ℕ → Memory → ℕ → Memory
store_bytes [] mem p = mem
store_bytes (b ∷ bs) mem p = store_bytes bs (store_byte mem p b) (p + 1)

unfoldable pub le_bytes : ℕ → ℕ → List ℕ
le_bytes zero v = []
le_bytes (suc n) v = v % 256 ∷ le_bytes n (v / 256)

-- `n` bytes of a number, lowest first.
abbrev pub store : ℕ → ℕ → Memory → ℕ → Memory
store n v = store_bytes (le_bytes n v)

pub length-le_bytes : (n v : ℕ) → length (le_bytes n v) ≡ n
unfolding le_bytes
length-le_bytes zero v = refl
length-le_bytes (suc n) v = ap suc (length-le_bytes n (v / 256))

-- A write leaves every other address as it was.
pub store_bytes-outside :
    (bs : List ℕ) (mem : Memory) (p q : ℕ)
    → (q < p) ⊎ (p + length bs ≤ q)
    → store_bytes bs mem p q ≡ mem q
unfolding store_bytes store_byte
store_bytes-outside [] mem p q h = refl
store_bytes-outside (b ∷ bs) mem p q (inl h) =
    store_bytes-outside bs (store_byte mem p b) (p + 1) q (inl (omega arith)) ∙ ground arith
store_bytes-outside (b ∷ bs) mem p q (inr h) =
    store_bytes-outside bs (store_byte mem p b) (p + 1) q (inr (omega arith)) ∙ ground arith

store_bytes-here : (b : ℕ) (bs : List ℕ) (mem : Memory) (p : ℕ) → store_bytes (b ∷ bs) mem p p ≡ b
unfolding store_bytes store_byte
store_bytes-here b bs mem p =
    store_bytes-outside bs (store_byte mem p b) (p + 1) p (inl (omega arith)) ∙ ground arith

pub load_bytes-store_bytes :
    (bs : List ℕ) (mem : Memory) (p : ℕ) → load_bytes (length bs) (store_bytes bs mem p) p ≡ bs
unfolding load_bytes store_bytes
load_bytes-store_bytes [] mem p = refl
load_bytes-store_bytes (b ∷ bs) mem p =
    ap₂ (λ x xs. x ∷ xs) (store_bytes-here b bs mem p)
      (load_bytes-store_bytes bs (store_byte mem p b) (p + 1))

pub load-store : (n v : ℕ) (mem : Memory) (p : ℕ) → v < 256 ^ n → load n (store n v mem p) p ≡ v
unfolding load le_bytes store_bytes
load-store zero v mem p h = omega arith
load-store (suc n) v mem p h =
    let low = store_bytes-here (v % 256) (le_bytes n (v / 256)) mem p in
    let small : v / 256 < 256 ^ n = omega (arith, pow-suc 256 n) in
    let high = load-store n (v / 256) (store_byte mem p (v % 256)) (p + 1) small in
    rw (low, high) (omega arith)

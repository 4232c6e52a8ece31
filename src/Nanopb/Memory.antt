-- ===== src/Nanopb/Memory.antt =====
-- The memory that a message struct stands in: a byte at each address, little-endian numbers.
pub mod Store
use ivr_repo.Base.{ℕ, zero, suc, ◌+◌, ◌-◌, ◌*◌, ◌^◌, ◌≡◌, refl, ap, List, [], ◌∷◌, length, leb}
use ivr_repo.Base.{◌==◌, if◌then◌else◌, true, false}

abbrev pub Memory : Type 0
Memory = ℕ → ℕ

-- The number of `n` bytes at the address `p`.
unfoldable pub load : ℕ → Memory → ℕ → ℕ
load zero mem p = 0
load (suc n) mem p = mem p + 256 * load n mem (p + 1)

-- The 64-bit pattern of a signed number of `bits` bits.
unfoldable pub sign_extend : ℕ → ℕ → ℕ
sign_extend bits v = if leb (2 ^ (bits - 1)) v then v + (2 ^ 64 - 2 ^ bits) else v

unfoldable pub load_bytes : ℕ → Memory → ℕ → List ℕ
load_bytes zero mem p = []
load_bytes (suc n) mem p = mem p ∷ load_bytes n mem (p + 1)

pub length-load_bytes : (n : ℕ) (mem : Memory) (p : ℕ) → length (load_bytes n mem p) ≡ n
unfolding load_bytes
length-load_bytes zero mem p = refl
length-load_bytes (suc n) mem p = ap suc (length-load_bytes n mem (p + 1))

-- The characters before the closing 0, at most `max_size`.
unfoldable pub string_size : ℕ → Memory → ℕ → ℕ
string_size zero mem p = 0
string_size (suc max_size) mem p = elim (mem p == 0) [
  | true ↦ 0
  | false ↦ suc (string_size max_size mem (p + 1))
]

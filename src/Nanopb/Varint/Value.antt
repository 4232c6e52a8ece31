-- ===== src/Nanopb/Varint/Value.antt =====
-- What a varint stands for, apart from any code: seven bits a byte, lowest first, and the top bit
-- set on all bytes but the last.
use ivr_repo.Base.{ℕ, ◌+◌, ◌*◌, ◌%◌, ◌≤◌, ◌<◌, List, [], ◌∷◌}

abbrev pub IsVarint : List ℕ → Type 0
IsVarint [] = ⊥
IsVarint (b ∷ []) = b < 128
IsVarint (b ∷ c ∷ r) = (128 ≤ b) × (b < 256) × IsVarint (c ∷ r)

unfoldable pub varint_value : List ℕ → ℕ
varint_value [] = 0
varint_value (b ∷ r) = b % 128 + 128 * varint_value r

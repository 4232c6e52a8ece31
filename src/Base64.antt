-- ===== src/Base64.antt =====
-- fbase64.c of FirebaseDatabase/third_party/SocketRocket: base 64 in memory.
pub mod Ntop
pub mod Pton
pub mod Digits
pub mod Text
pub mod Groups
pub mod RoundTrip
mod Examples
use ivr_repo.Base.{ℕ, suc, ◌==◌, Option, none, some, List, [], ◌∷◌, get_or, if◌then◌else◌}
use Prim.Native.Char.{code}
use Prim.Native.String.{String}

abbrev codes : String → List ℕ
codes String.[] = []
codes (String.◌∷◌ c s) = code c ∷ codes s

-- `Base64`
abbrev pub alphabet : List ℕ
alphabet = codes "ABCDEFGHIJKLMNOPQRSTUVWXYZabcdefghijklmnopqrstuvwxyz0123456789+/"

-- `Pad64`
abbrev pub pad64 : ℕ
pad64 = b'='

-- `Base64[i]`
unfoldable pub base64_digit : ℕ → ℕ
base64_digit i = get_or alphabet i 0

-- `strchr(Base64, ch) - Base64`, for a `ch` that is not 0
abbrev index_from : ℕ → List ℕ → ℕ → Option ℕ
index_from i [] ch = none
index_from i (c ∷ r) ch = if c == ch then some i else index_from (suc i) r ch

unfoldable pub base64_index : ℕ → Option ℕ
base64_index ch = index_from 0 alphabet ch

-- ===== src/Base64/Examples.antt =====
-- Concrete runs of base 64, and the theorems at concrete inputs.
use ivr_repo.Base.{ℕ, ◌≡◌, arith, some, List, [], ◌∷◌, ◌++◌, replicate}
use ivr_repo.Base64.Ntop.{b64_ntop}
use ivr_repo.Base64.Pton.{b64_pton}
use ivr_repo.Base64.RoundTrip.{b64_pton-base64_text}
use ivr_repo.Base64.Text.{base64_text, b64_ntop-base64_text}

abbrev hello : List ℕ
hello = 104 ∷ 101 ∷ 108 ∷ 108 ∷ 111 ∷ []

b64_ntop-base64_text_example : b64_ntop hello 9 ≡ (some 8, base64_text hello ++ (0 ∷ []))
b64_ntop-base64_text_example = b64_ntop-base64_text hello 9 (omega arith) (omega arith)

b64_pton-base64_text_example :
    (m' : List ℕ) × (b64_pton (base64_text hello) (some (replicate 6 0)) 6
      ≡ some (5, some (hello ++ m')))
b64_pton-base64_text_example =
    b64_pton-base64_text hello (replicate 6 0) (omega arith) (omega arith) (omega arith)

-- ===== src/Nanopb/Examples.antt =====
-- Concrete runs of nanopb's helper functions, and their theorems at concrete inputs.
use ivr_repo.Base.{ℕ, ◌+◌, ◌*◌, ◌%◌, ◌^◌, ◌≡◌, ◌≢◌, refl, arith, true, false, none, some, List}
use ivr_repo.Base.{[], ◌∷◌, ◌++◌, length, replicate, inr}
use ivr_repo.Nanopb.Decode.{decode_tag, skip_field}
use ivr_repo.Nanopb.Encode.{varint_bytes, clear_last, varint_groups, encode_tag}
use ivr_repo.Nanopb.Encode.Varint.{length-varint_bytes}
use ivr_repo.Nanopb.Input.Buffer.{buffer}
use ivr_repo.Nanopb.Output.Buffer.{buffer as output}
use ivr_repo.Nanopb.RoundTrip.Skip.{skip_field-IsPayload}
use ivr_repo.Nanopb.RoundTrip.Tag.{tag_key, decode_tag-encode_tag}
use ivr_repo.Nanopb.RoundTrip.Varint.{decode_varint-varint_bytes}
use ivr_repo.Nanopb.RoundTrip.Varint32.{decode_varint32-int32}
use ivr_repo.Nanopb.Varint.{decode_varint, decode_varint32, decode_varint32_eof}
use ivr_repo.Nanopb.Varint.Decode.{decode_varint-value}
use ivr_repo.Nanopb.Varint.Value.{IsVarint, varint_value}
use ivr_repo.Nanopb.Varint.Wide.{five_groups, decode_varint32_overlong, decode_varint32_wraps}

abbrev two_bytes : List ℕ
two_bytes = 172 ∷ 2 ∷ []

abbrev hello : List ℕ
hello = 104 ∷ 101 ∷ 108 ∷ 108 ∷ 111 ∷ []

bytes_of_300 : varint_bytes 300 ≡ two_bytes
unfolding varint_bytes clear_last varint_groups
bytes_of_300 = refl

decode_varint-varint_bytes_example :
    decode_varint (buffer (varint_bytes 300 ++ hello) (length (varint_bytes 300) + 5) none)
    ≡ (some 300, buffer hello 5 none)
decode_varint-varint_bytes_example = decode_varint-varint_bytes 300 hello 5 none (omega arith)

decode_varint-value_example :
    decode_varint (buffer (two_bytes ++ hello) (length two_bytes + 5) none)
    ≡ (some (varint_value two_bytes % 2 ^ 64), buffer hello 5 none)
decode_varint-value_example =
    decode_varint-value two_bytes hello 5 none (omega arith, omega arith, omega arith) (omega arith)

-- The pattern of -3 in 64 bits.
abbrev minus_three : ℕ
minus_three = 0xffff_ffff_ffff_fffd

-- 2 ^ 33 + 5 is taken for 5.
abbrev too_wide : ℕ
too_wide = 0x2_0000_0005

decode_varint32_overlong_example :
    IsVarint (five_groups too_wide (0 ∷ []))
    × (varint_value (five_groups too_wide (0 ∷ [])) ≡ too_wide)
    × (decode_varint32_eof (buffer (five_groups too_wide (0 ∷ hello)) (6 + 5) none)
        ≡ (false, some (too_wide % 2 ^ 32), buffer hello 5 none))
    × (too_wide % 2 ^ 32 ≢ too_wide)
decode_varint32_overlong_example =
    decode_varint32_overlong too_wide hello 5 none (omega arith) (omega arith)

decode_varint32_wraps_example :
    decode_varint32_eof (buffer (replicate 37 128 ++ 7 ∷ hello) (38 + 5) none)
    ≡ (false, some (7 * 8), buffer hello 5 none)
decode_varint32_wraps_example = decode_varint32_wraps 7 hello 5 none (omega arith)

-- A negative number
decode_varint32-int32_example :
    decode_varint32
      (buffer (varint_bytes minus_three ++ hello) (length (varint_bytes minus_three) + 5) none)
    ≡ (some (minus_three % 2 ^ 32), buffer hello 5 none)
decode_varint32-int32_example =
    decode_varint32-int32 minus_three hello 5 none (inr ((omega arith), (omega arith)))

decode_tag-encode_tag_example :
    (let bs = varint_bytes (tag_key 2 5) in
      (encode_tag 2 5 (output 16 hello 5 none)
        ≡ (true, output 16 (hello ++ bs) (5 + length bs) none))
      × (decode_tag (buffer (bs ++ hello) (length bs + 5) none)
          ≡ (false, some (2, 5), buffer hello 5 none)))
decode_tag-encode_tag_example =
    decode_tag-encode_tag 2 5 16 5 hello hello 5 none (omega arith) (omega arith) (omega arith)
      (omega (arith, length-varint_bytes 42 (omega arith))) (omega arith)

bytes_of_hello : 5 ∷ hello ≡ varint_bytes 5 ++ hello
unfolding varint_bytes
bytes_of_hello = refl

skip_field-IsPayload_example :
    skip_field 2 (buffer ((5 ∷ hello) ++ two_bytes) (6 + 2) none)
    ≡ (some tt, buffer two_bytes 2 none)
skip_field-IsPayload_example =
    skip_field-IsPayload 2 (5 ∷ hello) two_bytes 2 none
      (inr (inr (inr (refl, hello, omega arith, bytes_of_hello))))

-- ===== src/Base64/RoundTrip.antt =====
-- `f_b64_pton` behind `f_b64_ntop`.
use ivr_repo.Base.{◌^◌, append_assoc, length-append, refl, IsByte, All, true, ◌∙◌, ℕ, ◌+◌}
use ivr_repo.Base.{◌<◌, ◌≡◌, ap, arith, some, List, [], ◌∷◌, ◌++◌, length}
use ivr_repo.Base.{get_or}
use ivr_repo.Base64.{pad64}
use ivr_repo.Base64.Pton.{b64_pton, no_extra_bits, isspace, skip_spaces, all_spaces, pton_tail}
use ivr_repo.Base64.Pton.{pton_second_pad, scan_result, pton_end, Scan, pton_loop}
use ivr_repo.Base64.Text.{base64_text}
use ivr_repo.Base64.Groups.{scan, get_behind, one_left, two_left, whole_group}

-- What the loop and the code behind it make of a whole text, into the memory `m` behind `pre`.
Decodes : List ℕ → List ℕ → List ℕ → ℕ → Type 0
Decodes pre m src n =
    (m' : List ℕ) × (scan_result
        (pton_end (pton_loop (base64_text src) n (scan (pre ++ m) (length pre) 0)))
      ≡ some (length pre + length src, some (pre ++ (src ++ m'))))

pad_one :
    (n : ℕ) (s : Scan)
    → s.state ≡ 3
    → no_extra_bits s ≡ true
    → pton_end (pton_loop (pad64 ∷ []) n s) ≡ some s
unfolding pton_loop pton_end pton_tail all_spaces isspace
pad_one n s h z = ground arith

pad_two :
    (n : ℕ) (s : Scan)
    → s.state ≡ 2
    → no_extra_bits s ≡ true
    → pton_end (pton_loop (pad64 ∷ pad64 ∷ []) n s) ≡ some s
unfolding pton_loop pton_end pton_second_pad skip_spaces pton_tail all_spaces isspace
pad_two n s h z = ground arith

clear_behind :
    (pre xs : List ℕ) (i k state : ℕ)
    → i ≡ length pre + k
    → get_or xs k 0 ≡ 0
    → no_extra_bits (scan (pre ++ xs) i state) ≡ true
unfolding no_extra_bits
clear_behind pre xs i k state h z = rw (get_behind pre xs i k h, z)

empty_end :
    (t : List ℕ) (i n : ℕ) → scan_result (pton_end (pton_loop [] n (scan t i 0))) ≡ some (i, some t)
unfolding pton_loop pton_end scan_result
empty_end t i n = refl

result_at :
    (t : List ℕ) (i j state : ℕ) → i ≡ j → scan_result (some (scan t i state)) ≡ some (j, some t)
unfolding scan_result
result_at t i j state h = rw h

decode_text :
    (src pre m : List ℕ) (n : ℕ)
    → All IsByte src
    → length src < length m
    → n ≡ length pre + length m
    → length pre + length src < 2 ^ 31
    → Decodes pre m src n
unfolding Decodes
decode_text [] pre m n bytes room hn small =
    let sum : length pre ≡ length pre + 0 = omega arith in
    (
      m,
      unfold base64_text in
          empty_end (pre ++ m) (length pre) n ∙ ap (λ k. some (k, some (pre ++ m))) sum,
    )
decode_text (a ∷ src) pre [] n bytes room hn small = absurd (omega arith)
decode_text (a ∷ []) pre (x ∷ []) n bytes room hn small = absurd (omega arith)
decode_text (a ∷ []) pre (x ∷ y ∷ m) n (ha, _) room hn small =
    let s = scan (pre ++ a ∷ 0 ∷ m) (length pre + 1) 2 in
    (
      0 ∷ m,
      ap (λ l. scan_result (pton_end l)) (one_left pre m n a x y ha (omega arith) (omega arith))
          ∙ ap scan_result (pad_two n s refl (clear_behind pre (a ∷ 0 ∷ m) _ 1 2 refl refl))
          ∙ result_at _ _ _ 2 refl,
    )
decode_text (a ∷ b ∷ src) pre (x ∷ []) n bytes room hn small = absurd (omega arith)
decode_text (a ∷ b ∷ src) pre (x ∷ y ∷ []) n bytes room hn small = absurd (omega arith)
decode_text (a ∷ b ∷ []) pre (x ∷ y ∷ z ∷ m) n (ha, (hb, _)) room hn small =
    let s = scan (pre ++ a ∷ b ∷ 0 ∷ m) (length pre + 2) 3 in
    (
      0 ∷ m,
      ap (λ l. scan_result (pton_end l))
            (two_left pre m n a b x y z ha hb (omega arith) (omega arith))
          ∙ ap scan_result (pad_one n s refl (clear_behind pre (a ∷ b ∷ 0 ∷ m) _ 2 3 refl refl))
          ∙ result_at _ _ _ 3 refl,
    )
decode_text (a ∷ b ∷ c ∷ src) pre (x ∷ y ∷ z ∷ m) n (ha, (hb, (hc, hs))) room hn small =
    let group : List ℕ = a ∷ b ∷ c ∷ [] in
    let sum = length-append pre group in
    let (m', run) =
      decode_text src (pre ++ group) m n hs (omega arith) (omega (arith, sum))
        (omega (arith, sum)) in
    let here : length pre + 3 ≡ length (pre ++ group) = omega (arith, sum) in
    let there : length (pre ++ group) + length src ≡ length pre + length (a ∷ b ∷ c ∷ src) =
      omega (arith, sum) in
    (
      m',
      ap (λ l. scan_result (pton_end l))
            (whole_group pre m src n a b c x y z ha hb hc (omega arith) (omega arith))
          ∙ rw (here, ← there, ← append_assoc pre group m, ← append_assoc pre group (src ++ m'))
              run,
    )

-- `f_b64_pton` reads the base 64 text of less than 2 ^ 31 bytes `src` back: into memory of more
-- bytes than that it stores `src` in front and returns their number, which is an int.
pub b64_pton-base64_text :
    (src mem : List ℕ)
    → All IsByte src
    → length src < length mem
    → length src < 2 ^ 31
    → (m' : List ℕ) × (b64_pton (base64_text src) (some mem) (length mem)
        ≡ some (length src, some (src ++ m')))
unfolding b64_pton Decodes
b64_pton-base64_text src mem bytes room small =
    let (m', run) = decode_text src [] mem (length mem) bytes room (omega arith) (omega arith) in
    let sum : 0 + length src ≡ length src = omega arith in (m', rw sum at run)

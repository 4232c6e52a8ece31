-- ===== src/Nanopb/RoundTrip/Tag.antt =====
-- Field tags and strings: encoded, then decoded or skipped.
use ivr_repo.Base.{inr, ==→eq, inl, ◌==◌, Bool-cases, drop_rest, true, ℕ, suc, ◌+◌, ◌-◌, ◌*◌, ◌/◌}
use ivr_repo.Base.{◌%◌, ◌^◌, ◌≤◌, ◌<◌, ◌≡◌, ap, ◌∙◌, arith, List, ◌∷◌, ◌++◌, length, take, drop}
use ivr_repo.Base.{Option, some, none, false}
use ivr_repo.Base.Bits.{bit_or_high_low}
use ivr_repo.Nanopb.Decode.{decode_tag, split_tag, make_string_substream, limit_substream}
use ivr_repo.Nanopb.Decode.{close_string_substream, rejoin}
use ivr_repo.Nanopb.Descriptor.{end_of_stream, set_error, ErrMsg, word}
use ivr_repo.Nanopb.Encode.{varint_bytes, encode_tag, encode_string}
use ivr_repo.Nanopb.Encode.Varint.{varint_bytes_one, encode_varint-Emits}
use ivr_repo.Nanopb.Input.{IStream, read_null}
use ivr_repo.Nanopb.Input.Buffer.{buffer, read_null-buffer, read_count-buffer}
use ivr_repo.Nanopb.Output.Buffer.{Emits, write-Emits, >>-Emits, buffer as output}
use ivr_repo.Nanopb.RoundTrip.Varint32.{decode_varint32_eof-varint_bytes}
use ivr_repo.Nanopb.RoundTrip.Varint32.{decode_varint32-varint_bytes}
use ivr_repo.Nanopb.Varint.{decode_varint32_eof}
use ivr_repo.Nanopb.Varint.Decode32.{decode_varint32_eof_end}

-- The number that stands for a tag on the wire.
abbrev pub tag_key : ℕ → ℕ → ℕ
tag_key wiretype field_number = field_number * 8 + wiretype

pub encode_tag-Emits :
    (wiretype field_number : ℕ)
    → wiretype < 8
    → field_number < 2 ^ 32
    → Emits (encode_tag wiretype field_number) (varint_bytes (tag_key wiretype field_number))
unfolding encode_tag
encode_tag-Emits wiretype field_number hw hf =
    let fits : field_number * 8 % 2 ^ 64 ≡ field_number * 2 ^ 3 = omega arith in
    rw (fits, bit_or_high_low 3 field_number wiretype hw)
      (encode_varint-Emits (tag_key wiretype field_number))

-- The tag that `pb_encode_tag` writes into a buffer with room for it, `pb_decode_tag` reads back
-- with its wire type, for the field numbers below 2 ^ 29 but 0; `*eof` is not set.
pub decode_tag-encode_tag :
    (wiretype field_number max n : ℕ) (st rest : List ℕ) (left : ℕ) (e : Option ErrMsg)
    → wiretype < 8
    → 0 < field_number
    → field_number < 2 ^ 29
    → n + length (varint_bytes (tag_key wiretype field_number)) ≤ max
    → max < word
    → let bs = varint_bytes (tag_key wiretype field_number) in
      (encode_tag wiretype field_number (output max st n none)
        ≡ (true, output max (st ++ bs) (n + length bs) none))
      × (decode_tag (buffer (bs ++ rest) (length bs + left) e)
          ≡ (false, some (wiretype, field_number), buffer rest left e))
unfolding decode_tag
decode_tag-encode_tag wiretype field_number max n st rest left e hw pos hf room hm =
    let key : ℕ = tag_key wiretype field_number in
    let w : key % 8 ≡ wiretype = omega arith in
    let f : key / 8 ≡ field_number = omega arith in
    (
      (encode_tag-Emits wiretype field_number hw (omega arith)).fits max st n room hm,
      rw (decode_varint32_eof-varint_bytes key rest left e (omega arith)) (split key w f pos),
    )
  where
    split :
        (key : ℕ) {w f : ℕ} {s : IStream}
        → key % 8 ≡ w
        → key / 8 ≡ f
        → 0 < f
        → split_tag (false, some key, s) ≡ (false, some (w, f), s)
    split key p q h = ground arith

-- `pb_decode_tag` sets `*eof` and returns false behind a zero byte, and at the end of the stream.
pub decode_tag_eof :
    (rest : List ℕ) (left : ℕ) (e : Option ErrMsg)
    → (decode_tag (buffer (0 ∷ rest) (suc left) e) ≡ (true, none, buffer rest left e))
      × (decode_tag (buffer rest 0 e) ≡ (true, none, buffer rest 0 (set_error e end_of_stream)))
unfolding decode_tag
decode_tag_eof rest left e = (ap split_tag zero_byte, rw (decode_varint32_eof_end rest e))
  where
    zero_byte :
        decode_varint32_eof (buffer (0 ∷ rest) (suc left) e) ≡ (false, some 0, buffer rest left e)
    zero_byte =
        let one_left : 1 + left ≡ suc left = omega arith in
        let run = decode_varint32_eof-varint_bytes 0 rest left e (omega arith) in
        rw (varint_bytes_one 0 (omega arith), one_left) at run

encode_string-Emits :
    (bs : List ℕ) → Emits (encode_string bs (length bs)) (varint_bytes (length bs) ++ bs)
unfolding encode_string
encode_string-Emits bs = >>-Emits (encode_varint-Emits (length bs)) (write-Emits bs)

-- On the bytes of a string, `pb_make_string_substream` gives a substream that may read the string's
-- bytes and no others, and moves the stream's count behind them.
pub make_string_substream-string :
    (bs rest : List ℕ) (left : ℕ) (e : Option ErrMsg)
    → length bs < 2 ^ 32
    → let front = varint_bytes (length bs) in
      make_string_substream (buffer (front ++ (bs ++ rest)) (length front + (length bs + left)) e)
      ≡ (some (buffer (bs ++ rest) (length bs) e), buffer (bs ++ rest) left e)
unfolding make_string_substream limit_substream
make_string_substream-string bs rest left e h =
    let room : length bs + left - length bs ≡ left = omega arith in
    rw (decode_varint32-varint_bytes (length bs) (bs ++ rest) (length bs + left) e h)
      (ground (arith, room))

-- However much of it was read, closing the substream moves the stream behind the string's bytes.
pub close_string_substream-string :
    (bs rest : List ℕ) (k left : ℕ) (e e' : Option ErrMsg)
    → k ≤ length bs
    → close_string_substream
        (buffer (drop k (bs ++ rest)) (length bs - k) e')
        (buffer (bs ++ rest) left e)
      ≡ (some tt, buffer rest left e')
unfolding close_string_substream rejoin
close_string_substream-string bs rest k left e e' h = elim (Bool-cases (length bs - k == 0)) [
  | inl done ↦
      let nothing : length bs - k ≡ 0 = ==→eq _ _ done in
      let gone = rw nothing at (drop_rest k bs rest h) in rw (done, gone)
  | inr more ↦ rw (more, read_all)
]
  where
    read_all :
        read_null (length bs - k) (buffer (drop k (bs ++ rest)) (length bs - k) e')
        ≡ (some (take (length bs - k) (drop k (bs ++ rest))), buffer rest 0 e')
    read_all =
        let none_left : length bs - k - (length bs - k) ≡ 0 = omega arith in
        read_null-buffer (drop k (bs ++ rest)) (length bs - k) (length bs - k) e'
        ∙ read_count-buffer (drop k (bs ++ rest)) (length bs - k) (length bs - k) e' (omega arith)
        ∙ rw (none_left, drop_rest k bs rest h)

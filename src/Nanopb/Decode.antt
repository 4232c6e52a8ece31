-- ===== src/Nanopb/Decode.antt =====
-- The helper functions of nanopb/pb_decode.c: integers, tags, skipping and substreams.
pub mod Shrinks
use ivr_repo.Base.{ℕ, zero, suc, ◌+◌, ◌-◌, ◌*◌, ◌/◌, ◌%◌, ◌^◌, bit_or, Bool, true, false, Option}
use ivr_repo.Base.{none, some, List, [], ◌∷◌, ltb, ◌==◌, if◌then◌else◌, get_or}
use ivr_repo.Nanopb.Descriptor.{invalid_wire_type, parent_stream_too_short}
use ivr_repo.Nanopb.Input.{IStream, Reader, ◌>>=◌, ◌>>◌, pure, fail, return_error, read}
use ivr_repo.Nanopb.Input.{read_null, minus_size}
use ivr_repo.Nanopb.Varint.{decode_varint, decode_varint32_eof, decode_varint32, skip_varint}
use ivr_repo.Nanopb.Varint.{more_bytes}
use ivr_repo.Nanopb.Descriptor

-- `pb_decode_svarint`, whose result is the bit pattern of an int64_t.
unfoldable pub unzigzag : ℕ → ℕ
unzigzag value = if value % 2 == 1 then 2 ^ 64 - 1 - value / 2 else value / 2

unfoldable pub decode_svarint : Reader ℕ
decode_svarint = do value ← decode_varint; pure (unzigzag value)

-- The bytes joined by `|`, lowest first.
unfoldable pub fixed32_value : List ℕ → ℕ
fixed32_value bytes =
    bit_or (bit_or (bit_or (byte 0) (byte 1 * 2 ^ 8)) (byte 2 * 2 ^ 16)) (byte 3 * 2 ^ 24)
  where
    byte : ℕ → ℕ
    byte i = get_or bytes i 0

unfoldable pub decode_fixed32 : Reader ℕ
decode_fixed32 = do bytes ← read 4; pure (fixed32_value bytes)

unfoldable pub fixed64_value : List ℕ → ℕ
fixed64_value bytes =
    let low =
      bit_or (bit_or (bit_or (byte 0) (byte 1 * 2 ^ 8)) (byte 2 * 2 ^ 16)) (byte 3 * 2 ^ 24) in
    let mid = bit_or (bit_or low (byte 4 * 2 ^ 32)) (byte 5 * 2 ^ 40) in
    bit_or (bit_or mid (byte 6 * 2 ^ 48)) (byte 7 * 2 ^ 56)
  where
    byte : ℕ → ℕ
    byte i = get_or bytes i 0

unfoldable pub decode_fixed64 : Reader ℕ
decode_fixed64 = do bytes ← read 8; pure (fixed64_value bytes)

-- `pb_decode_tag`: whether `*eof` is set, and the wire type with the tag where it returns true.
abbrev pub split_tag : Bool × Option ℕ × IStream → Bool × Option (ℕ × ℕ) × IStream
split_tag (eof, none, s) = (eof, none, s)
split_tag (eof, some temp, s) =
    if temp == 0 then (true, none, s) else (eof, some (temp % 8, temp / 8), s)

unfoldable pub decode_tag : IStream → Bool × Option (ℕ × ℕ) × IStream
decode_tag s = split_tag (decode_varint32_eof s)

-- `pb_skip_string`
unfoldable pub skip_string : Reader (Unit {0})
skip_string = do length ← decode_varint32; read_null length; pure tt

-- `pb_skip_field`
unfoldable pub skip_field : ℕ → Reader (Unit {0})
skip_field wire_type =
    if wire_type == Descriptor.wt_varint
    then skip_varint
    else if wire_type == Descriptor.wt_64bit
    then (do read_null 8; pure tt)
    else if wire_type == Descriptor.wt_string
    then skip_string
    else if wire_type == Descriptor.wt_32bit
    then (do read_null 4; pure tt)
    else return_error invalid_wire_type

-- The varint case of `read_raw_value`: at most `max_size` bytes. A round adds one to `size`, so
-- `max_size + 1` rounds are fuel enough.
unfoldable pub raw_varint_loop : ℕ → ℕ → ℕ → Reader (List ℕ)
raw_varint_loop zero max_size size = fail
raw_varint_loop (suc fuel) max_size size = elim (ltb max_size (size + 1)) [
  | true ↦ fail
  | false ↦ (do
    bytes ← read 1
    elim (more_bytes (get_or bytes 0 0)) [
      | true ↦ (do rest ← raw_varint_loop fuel max_size (size + 1); pure (get_or bytes 0 0 ∷ rest))
      | false ↦ pure (get_or bytes 0 0 ∷ [])
    ])
]

-- `read_raw_value`: the bytes put into the buffer; `*size` is their number.
unfoldable pub read_raw_value : ℕ → ℕ → Reader (List ℕ)
read_raw_value wire_type max_size =
    if wire_type == Descriptor.wt_varint
    then raw_varint_loop (suc max_size) max_size 0
    else if wire_type == Descriptor.wt_64bit
    then read 8
    else if wire_type == Descriptor.wt_32bit
    then read 4
    else return_error invalid_wire_type

-- `pb_make_string_substream`: a copy of the stream, limited to `size` bytes.
unfoldable pub limit_substream : ℕ → Reader IStream
limit_substream size s = if ltb s.bytes_left size then return_error parent_stream_too_short s else (
  some (record s { bytes_left = size }),
  record s { bytes_left = minus_size s.bytes_left size },
)

unfoldable pub make_string_substream : Reader IStream
make_string_substream = do size ← decode_varint32; limit_substream size

-- `pb_close_string_substream`: the rest of the substream is skipped, and the stream goes on there.
unfoldable pub rejoin : IStream → Option (List ℕ) × IStream → Option (Unit {0}) × IStream
rejoin s (none, sub) = (none, s)
rejoin s (some _, sub) = (some tt, record s { state = sub.state; errmsg = sub.errmsg })

unfoldable pub close_string_substream : IStream → Reader (Unit {0})
close_string_substream substream s =
    if substream.bytes_left == 0
    then rejoin s (some [], substream)
    else rejoin s (read_null substream.bytes_left substream)

-- ===== src/Nanopb/Varint.antt =====
-- Variable-length integers: pb_decode_varint, pb_decode_varint32 and pb_skip_varint of pb_decode.c.
pub mod Value
pub mod Decode
pub mod Decode32
pub mod Wide
use ivr_repo.Base.{
  ℕ, zero, suc, ◌+◌, ◌*◌, ◌/◌, ◌%◌, ◌^◌, bit_or, Bool, true, false, not, ◌&&◌, ◌||◌,
}
use ivr_repo.Base.{Option, none, some, ltb, leb, ◌==◌, if◌then◌else◌, get_or}
use ivr_repo.Nanopb.Descriptor.{varint_overflow}
use ivr_repo.Nanopb.Input.{IStream, Reader, ◌>>=◌, pure, fail, return_error, readbyte, read}

-- `byte & 0x80`
abbrev pub more_bytes : ℕ → Bool
more_bytes byte = not (byte / 128 == 0)

-- The loop of `pb_decode_varint`. Eleven rounds are fuel enough, since `bitpos` then is 70.
unfoldable pub varint_loop : ℕ → ℕ → ℕ → Reader ℕ
varint_loop zero result bitpos = fail
varint_loop (suc fuel) result bitpos = elim (leb 64 bitpos) [
  | true ↦ return_error varint_overflow
  | false ↦ (do
    byte ← readbyte
    let result' = bit_or result (byte % 128 * 2 ^ bitpos % 2 ^ 64)
    elim (more_bytes byte) [
      | true ↦ varint_loop fuel result' ((bitpos + 7) % 256)
      | false ↦ pure result'
    ])
]

unfoldable pub decode_varint : Reader ℕ
decode_varint = varint_loop 11 0 0

-- A byte that stands past bit 32 and is no sign extension of `result`.
unfoldable pub bad_extension : ℕ → ℕ → ℕ → Bool
bad_extension result bitpos byte =
    let sign_extension = if ltb bitpos 63 then 0xff else 0x01 in
    not (byte % 128 == 0) && (result / 2 ^ 31 == 0 || not (byte == sign_extension))

-- The multibyte loop of `pb_decode_varint32_eof`, with the check behind it. `bitpos` is a
-- `uint_fast8_t`, and the loop counts it round past 255.
unfoldable pub varint32_loop : ℕ → ℕ → ℕ → Reader ℕ
varint32_loop zero result bitpos = fail
varint32_loop (suc fuel) result bitpos = do
  byte ← readbyte
  let result' = if leb 32 bitpos then result else bit_or result (byte % 128 * 2 ^ bitpos % 2 ^ 32)
  let bitpos' = (bitpos + 7) % 256
  elim (leb 32 bitpos && bad_extension result bitpos byte) [
    | true ↦ return_error varint_overflow
    | false ↦ elim (more_bytes byte) [
      | true ↦ varint32_loop fuel result' bitpos'
      | false ↦
          if bitpos' == 35 && not (byte / 16 % 8 == 0)
          then return_error varint_overflow
          else pure result'
    ]
  ]

unfoldable pub first_byte32 : Option ℕ × IStream → Bool × Option ℕ × IStream
first_byte32 (none, s) = (s.bytes_left == 0, none, s)
first_byte32 (some byte, s) = let (r, s') = after_first in (false, r, s')
  where
    after_first : Option ℕ × IStream
    after_first =
        if more_bytes byte
        then varint32_loop (suc s.bytes_left) (byte % 128) 7 s
        else (some byte, s)

-- The result goes with whether `*eof` is set: the stream ended before the first byte.
-- Each round takes a byte, so the bytes left are fuel enough.
unfoldable pub decode_varint32_eof : IStream → Bool × Option ℕ × IStream
decode_varint32_eof s = first_byte32 (readbyte s)

unfoldable pub decode_varint32 : Reader ℕ
decode_varint32 s = let (eof, r, s') = decode_varint32_eof s in (r, s')

-- `pb_skip_varint`
unfoldable pub skip_varint_loop : ℕ → Reader (Unit {0})
skip_varint_loop zero = fail
skip_varint_loop (suc fuel) = do
  bytes ← read 1
  elim (more_bytes (get_or bytes 0 0)) [ true ↦ skip_varint_loop fuel | false ↦ pure tt ]

unfoldable pub skip_varint : Reader (Unit {0})
skip_varint s = skip_varint_loop (suc s.bytes_left) s

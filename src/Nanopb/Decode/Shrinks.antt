-- ===== src/Nanopb/Decode/Shrinks.antt =====
-- The bytes left of a stream, over the helper functions of pb_decode.c.
use ivr_repo.Base.{◌%◌, ◌⊎◌, ◌≡◌, get_or, arith, List, ℕ, zero, suc, ◌+◌, ◌≤◌, ◌<◌, Bool, true}
use ivr_repo.Base.{false, Option, none, some, ltb, ◌==◌, leb, ◌&&◌, inl, inr, Bool-cases}
use ivr_repo.Nanopb.Decode.{skip_string, skip_field, read_null, more_bytes, split_tag, rejoin}
use ivr_repo.Nanopb.Decode.{limit_substream, skip_varint, read_raw_value, raw_varint_loop}
use ivr_repo.Nanopb.Decode.{make_string_substream, decode_varint32_eof, decode_varint32}
use ivr_repo.Nanopb.Decode.{decode_tag, decode_svarint, decode_fixed64, decode_fixed32}
use ivr_repo.Nanopb.Decode.{close_string_substream}
use ivr_repo.Nanopb.Input.{IStream, readbyte}
use ivr_repo.Nanopb.Input.Shrinks.{read_null-Shrinks, readbyte-Less, elim-Shrinks, Less-Shrinks}
use ivr_repo.Nanopb.Input.Shrinks.{readbyte-Shrinks, read-Shrinks, return_error-Shrinks}
use ivr_repo.Nanopb.Input.Shrinks.{bind-Shrinks, Shrinks, Less, pure-Shrinks, fail-Shrinks}
use ivr_repo.Nanopb.Input.Shrinks.{if-Shrinks}
use ivr_repo.Nanopb.Varint.{bad_extension, skip_varint_loop, varint_loop, decode_varint}
use ivr_repo.Nanopb.Varint.{varint32_loop, first_byte32, decode_varint32_eof, decode_varint32}
use ivr_repo.Nanopb.Varint.{skip_varint, more_bytes}
use ivr_repo.Nanopb.Descriptor

varint_loop-Shrinks : (fuel result bitpos : ℕ) → Shrinks (varint_loop fuel result bitpos)
unfolding varint_loop
varint_loop-Shrinks zero result bitpos = fail-Shrinks
varint_loop-Shrinks (suc fuel) result bitpos =
    elim-Shrinks (leb 64 bitpos) (return_error-Shrinks _) (
      bind-Shrinks readbyte-Shrinks
        (λ byte. elim-Shrinks (more_bytes byte) (varint_loop-Shrinks fuel _ _) (pure-Shrinks _)))

pub decode_varint-Shrinks : Shrinks decode_varint
unfolding decode_varint
decode_varint-Shrinks = varint_loop-Shrinks 11 0 0

varint32_loop-Shrinks : (fuel result bitpos : ℕ) → Shrinks (varint32_loop fuel result bitpos)
unfolding varint32_loop
varint32_loop-Shrinks zero result bitpos = fail-Shrinks
varint32_loop-Shrinks (suc fuel) result bitpos = bind-Shrinks readbyte-Shrinks (λ byte.
    elim-Shrinks (leb 32 bitpos && bad_extension result bitpos byte) (return_error-Shrinks _) (
      elim-Shrinks (more_bytes byte) (varint32_loop-Shrinks fuel _ _)
        (if-Shrinks _ (return_error-Shrinks _) (pure-Shrinks _))))

-- A number that was read, with whether `*eof` is set, took a byte at least.
abbrev pub Less32 : ℕ → Bool × Option ℕ × IStream → Type 0
Less32 n (eof, r, s) = Less n (r, s)

pub decode_varint32_eof-Less : (s : IStream) → Less32 s.bytes_left (decode_varint32_eof s)
unfolding decode_varint32_eof first_byte32
decode_varint32_eof-Less s = first (readbyte s) (readbyte-Less s)
  where
    behind :
        (r : Option ℕ × IStream) (s' : IStream)
        → r.1.bytes_left ≤ s'.bytes_left
        → s'.bytes_left < s.bytes_left
        → Less s.bytes_left r
    behind (none, t) s' h k = omega arith
    behind (some a, t) s' h k = omega arith

    first : (r : Option ℕ × IStream) → Less s.bytes_left r → Less32 s.bytes_left (first_byte32 r)
    first (none, s') h = h
    first (some byte, s') h = elim (Bool-cases (more_bytes byte)) [
      | inl more ↦ rw more (
          behind (varint32_loop (suc s'.bytes_left) (byte % 128) 7 s') s'
            ((varint32_loop-Shrinks (suc s'.bytes_left) (byte % 128) 7).left s') h)
      | inr last ↦ rw last h
    ]

pub decode_varint32-Shrinks : Shrinks decode_varint32
unfolding decode_varint32
decode_varint32-Shrinks = record {
  left = λ s. Less-Shrinks s.bytes_left _ (decode_varint32_eof-Less s);
}

-- A tag that was read took a byte at least.
abbrev pub TagLess : ℕ → Bool × Option (ℕ × ℕ) × IStream → Type 0
TagLess n (eof, r, s) = Less n (r, s)

pub decode_tag-TagLess : (s : IStream) → TagLess s.bytes_left (decode_tag s)
unfolding decode_tag
decode_tag-TagLess s = split (decode_varint32_eof s) (decode_varint32_eof-Less s)
  where
    split :
        (r : Bool × Option ℕ × IStream) → Less32 s.bytes_left r → TagLess s.bytes_left (split_tag r)
    split (eof, none, s') h = h
    split (eof, some temp, s') h = elim (Bool-cases (temp == 0)) [
      | inl end ↦ rw end (omega arith)
      | inr tag ↦ rw tag h
    ]

skip_varint_loop-Shrinks : (fuel : ℕ) → Shrinks (skip_varint_loop fuel)
unfolding skip_varint_loop
skip_varint_loop-Shrinks zero = fail-Shrinks
skip_varint_loop-Shrinks (suc fuel) = bind-Shrinks (read-Shrinks 1) (λ bytes.
    elim-Shrinks (more_bytes (get_or bytes 0 0)) (skip_varint_loop-Shrinks fuel) (pure-Shrinks _))

pub skip_field-Shrinks : (wire_type : ℕ) → Shrinks (skip_field wire_type)
unfolding skip_field skip_varint skip_string
skip_field-Shrinks wire_type =
    if-Shrinks (wire_type == Descriptor.wt_varint)
      (record { left = λ s. (skip_varint_loop-Shrinks (suc s.bytes_left)).left s })
      (if-Shrinks (wire_type == Descriptor.wt_64bit)
        (bind-Shrinks (read_null-Shrinks 8) (λ _. pure-Shrinks _))
        (if-Shrinks (wire_type == Descriptor.wt_string)
          (bind-Shrinks decode_varint32-Shrinks
            (λ length. bind-Shrinks (read_null-Shrinks length) (λ _. pure-Shrinks _)))
          (if-Shrinks (wire_type == Descriptor.wt_32bit)
            (bind-Shrinks (read_null-Shrinks 4) (λ _. pure-Shrinks _)) (return_error-Shrinks _))))

raw_varint_loop-Shrinks : (fuel max_size size : ℕ) → Shrinks (raw_varint_loop fuel max_size size)
unfolding raw_varint_loop
raw_varint_loop-Shrinks zero max_size size = fail-Shrinks
raw_varint_loop-Shrinks (suc fuel) max_size size =
    elim-Shrinks (ltb max_size (size + 1)) fail-Shrinks (
      bind-Shrinks (read-Shrinks 1) (λ bytes.
        elim-Shrinks (more_bytes (get_or bytes 0 0))
          (bind-Shrinks (raw_varint_loop-Shrinks fuel max_size (size + 1)) (λ _. pure-Shrinks _))
          (pure-Shrinks _)))

pub read_raw_value-Shrinks : (wire_type max_size : ℕ) → Shrinks (read_raw_value wire_type max_size)
unfolding read_raw_value
read_raw_value-Shrinks wire_type max_size =
    if-Shrinks (wire_type == Descriptor.wt_varint) (raw_varint_loop-Shrinks _ _ _) (
      if-Shrinks (wire_type == Descriptor.wt_64bit) (read-Shrinks 8)
        (if-Shrinks (wire_type == Descriptor.wt_32bit) (read-Shrinks 4) (return_error-Shrinks _)))

pub decode_svarint-Shrinks : Shrinks decode_svarint
unfolding decode_svarint
decode_svarint-Shrinks = bind-Shrinks decode_varint-Shrinks (λ _. pure-Shrinks _)

pub decode_fixed32-Shrinks : Shrinks decode_fixed32
unfolding decode_fixed32
decode_fixed32-Shrinks = bind-Shrinks (read-Shrinks 4) (λ _. pure-Shrinks _)

pub decode_fixed64-Shrinks : Shrinks decode_fixed64
unfolding decode_fixed64
decode_fixed64-Shrinks = bind-Shrinks (read-Shrinks 8) (λ _. pure-Shrinks _)

pub make_string_substream-Shrinks : Shrinks make_string_substream
unfolding make_string_substream limit_substream
make_string_substream-Shrinks =
    bind-Shrinks decode_varint32-Shrinks (λ size. record { left = limit size })
  where
    limit : (size : ℕ) (s : IStream) → (limit_substream size s).1.bytes_left ≤ s.bytes_left
    limit size s = elim (Bool-cases (ltb s.bytes_left size)) [
      | inl over ↦ rw over (omega arith)
      | inr room ↦ rw room (omega arith)
    ]

pub close_string_substream-Shrinks : (sub : IStream) → Shrinks (close_string_substream sub)
unfolding close_string_substream rejoin
close_string_substream-Shrinks sub = record {
  left = λ s. closed s (Bool-cases (sub.bytes_left == 0));
}
  where
    rejoined :
        (s : IStream) (r : Option (List ℕ) × IStream) → (rejoin s r).1.bytes_left ≤ s.bytes_left
    rejoined s (none, t) = omega arith
    rejoined s (some _, t) = omega arith

    closed :
        (s : IStream)
        → ((sub.bytes_left == 0) ≡ true) ⊎ ((sub.bytes_left == 0) ≡ false)
        → (close_string_substream sub s).1.bytes_left ≤ s.bytes_left
    closed s (inl empty) = rw empty (omega arith)
    closed s (inr more) = rw more (rejoined s (read_null sub.bytes_left sub))

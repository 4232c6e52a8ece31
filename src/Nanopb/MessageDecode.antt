-- ===== src/Nanopb/MessageDecode.antt =====
-- The message decoder of nanopb/pb_decode.c, above the field decoders.
pub mod Defaults
pub mod Release
pub mod Static
pub mod Pointer
pub mod AnyField
pub mod Required
pub mod Loop
pub mod Substream
mod Examples
use ivr_repo.Base.{◌==◌, if◌then◌else◌, ℕ, zero, suc, ◌+◌, Bool, true, false, List, length}
use ivr_repo.Nanopb.Descriptor.{Field, atype}
use ivr_repo.Nanopb.FieldDecode.{Decoder}
use ivr_repo.Nanopb.Iter.{Iter, field_at, first, iter_next, iter_begin}
use ivr_repo.Nanopb.Memory.{Memory, load}
use ivr_repo.Nanopb.Descriptor

-- What the decoder is given: the field tables at their addresses; `realloc` and `free`; the user's
-- functions at their addresses, for a callback field (with the address of `arg`) and for an
-- extension (with its address, the tag and the wire type); and the address of the local variable
-- `fixed_count_size` of the call of `pb_decode_noinit` at each depth of nesting.
pub record DecodeEnv : Type 0 where
  pub descriptors : ℕ → List Field
  pub realloc : Memory → ℕ → ℕ → ℕ × Memory
  pub free : Memory → ℕ → Memory
  pub decode_callback : ℕ → Field → ℕ → Decoder
  pub decode_extension : ℕ → ℕ → ℕ → ℕ → Decoder
  pub count_slot : ℕ → ℕ

-- A pass over the fields of a message, from the iterator on.
unfoldable pub for_fields : (Iter → Memory → Memory) → ℕ → Iter → Memory → Memory
for_fields each zero iter mem = mem
for_fields each (suc fuel) iter mem =
    let (more, iter') = iter_next iter in
    elim more [ true ↦ for_fields each fuel iter' (each iter mem) | false ↦ each iter mem ]

-- All fields; the number of fields is fuel enough. An empty message type has none.
unfoldable pub for_message : (Iter → Memory → Memory) → List Field → ℕ → Memory → Memory
for_message each fields dest_struct mem =
    let (begun, iter) = iter_begin fields dest_struct in
    elim begun [ true ↦ for_fields each (length fields) iter mem | false ↦ mem ]

-- A pass over a list of extensions, as far as the fuel reaches.
unfoldable pub for_extensions : (ℕ → Memory → Memory) → ℕ → ℕ → Memory → Memory
for_extensions each zero extension mem = mem
for_extensions each (suc fuel) extension mem = elim (extension == 0) [
  | true ↦ mem
  | false ↦
      let mem' = each extension mem in for_extensions each fuel (load 8 mem' (extension + 16)) mem'
]

-- `pb_extension_t` has `type`, `dest`, `next` and `found`; its type has `decode`, `encode`, `arg`.
unfoldable pub extension_table : DecodeEnv → Memory → ℕ → List Field
extension_table env mem extension = env.descriptors (load 8 mem (load 8 mem extension + 16))

unfoldable pub iter_from_extension : DecodeEnv → Memory → ℕ → Iter
iter_from_extension env mem extension = record (first table (load 8 mem (extension + 8))) {
  p_data =
      if atype (field_at table 0).type == Descriptor.atype_pointer
      then extension + 8
      else load 8 mem (extension + 8);
  p_size = extension + 24;
}
  where
    table : List Field
    table = extension_table env mem extension

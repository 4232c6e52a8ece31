-- ===== src/Nanopb/Message/Does.antt =====
-- What writers do on every stream; the helper functions of the encoder among them.
use ivr_repo.Base.{some, Option, ℕ, ◌+◌, ◌%◌, ◌<◌, ◌≡◌, refl, arith, Bool, true, false, List, []}
use ivr_repo.Base.{◌++◌, none, length, if◌then◌else◌}
use ivr_repo.Nanopb.Descriptor.{ltype, Field, ErrMsg, word}
use ivr_repo.Nanopb.Encode.{wire_type, encode_wire_type, encode_varint, encode_svarint}
use ivr_repo.Nanopb.Encode.{encode_fixed32, encode_fixed64, encode_tag, encode_tag_for_field}
use ivr_repo.Nanopb.Encode.{varint_bytes, encode_string, fixed32_bytes, fixed64_bytes, zigzag}
use ivr_repo.Nanopb.Encode.Varint.{encode_varint-Emits}
use ivr_repo.Nanopb.Output.{OStream, Writer, ◌>>◌, and_also, succeed, return_error}
use ivr_repo.Nanopb.Output.Buffer.{counter, Emits, write-Emits, succeed-Emits, >>-Emits}
use ivr_repo.Nanopb.Message.Wire.{Bytes, both, tag_of, tag_bytes}
use ivr_repo.Nanopb.RoundTrip.Fixed.{length-fixed32_bytes, length-fixed64_bytes}

-- A writer that fails on every stream that only counts.
abbrev pub Refuses : Writer → Type 0
Refuses w = (max : ℕ) (st : List ℕ) (n : ℕ) → n < word → (w (counter max st n none)).0 ≡ false

-- What a writer does: it writes these bytes on every stream, or, for `none`, it fails already where
-- it only counts.
pub data Does (w : Writer) : Bytes → Type 0 where
  writes : {bs : List ℕ} → Emits w bs → Does w (some bs)
  refuses : Refuses w → Does w none

pub return_error-Does : (m : ErrMsg) → Does (return_error m) none
return_error-Does m = refuses (λ max st n h. refl)

pub succeed-Does : Does succeed (some [])
succeed-Does = writes succeed-Emits

pub if-Does :
    (b : Bool) {v w : Writer} {o o' : Bytes}
    → Does v o
    → Does w o'
    → Does (if b then v else w) (if b then o else o')
if-Does true p q = p
if-Does false p q = q

and_also-refused : (r : Bool × OStream) (k : Writer) → r.0 ≡ false → (and_also r k).0 ≡ false
and_also-refused (true, s) k h = cc
and_also-refused (false, s) k h = refl

Emits-Refuses : {a : Writer} (b : Writer) {xs : List ℕ} → Emits a xs → Refuses b → Refuses (a >> b)
Emits-Refuses {a} b {xs} p r =
    λ max st n h. rw (p.counts max st n h) (r max st ((n + length xs) % word) (omega arith))

pub >>-Does : {a b : Writer} {o o' : Bytes} → Does a o → Does b o' → Does (a >> b) (both o o')
>>-Does (writes p) (writes q) = writes (>>-Emits p q)
>>-Does (writes p) (refuses r) = refuses (Emits-Refuses _ p r)
>>-Does (refuses r) q = refuses (λ max st n h. and_also-refused _ _ (r max st n h))

pub encode_varint-Does : (v : ℕ) → Does (encode_varint v) (some (varint_bytes v))
encode_varint-Does v = writes (encode_varint-Emits v)

pub encode_svarint-Does : (v : ℕ) → Does (encode_svarint v) (some (varint_bytes (zigzag v)))
unfolding encode_svarint
encode_svarint-Does v = encode_varint-Does (zigzag v)

pub encode_fixed32-Emits : (v : ℕ) → Emits (encode_fixed32 v) (fixed32_bytes v)
unfolding encode_fixed32
encode_fixed32-Emits v = rw (length-fixed32_bytes v) at (write-Emits (fixed32_bytes v))

pub encode_fixed64-Emits : (v : ℕ) → Emits (encode_fixed64 v) (fixed64_bytes v)
unfolding encode_fixed64
encode_fixed64-Emits v = rw (length-fixed64_bytes v) at (write-Emits (fixed64_bytes v))

pub encode_tag-Does :
    (wiretype field_number : ℕ)
    → Does (encode_tag wiretype field_number) (tag_of (some wiretype) field_number)
unfolding encode_tag
encode_tag-Does wiretype field_number = encode_varint-Does _

pub encode_tag_for_field-Does :
    (field : Field) → Does (encode_tag_for_field field) (tag_bytes field)
unfolding encode_tag_for_field encode_wire_type
encode_tag_for_field-Does field = does (wire_type (ltype field.type))
  where
    does :
        (wiretype : Option ℕ)
        → Does (encode_wire_type wiretype field.tag) (tag_of wiretype field.tag)
    does none = return_error-Does _
    does (some wiretype) = encode_tag-Does wiretype field.tag

pub encode_string-Does :
    (bs : List ℕ) (size : ℕ)
    → length bs ≡ size
    → Does (encode_string bs size) (some (varint_bytes size ++ bs))
unfolding encode_string
encode_string-Does bs size h = >>-Does (encode_varint-Does size) (writes (rw h at (write-Emits bs)))

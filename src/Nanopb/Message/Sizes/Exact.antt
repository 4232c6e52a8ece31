-- ===== src/Nanopb/Message/Sizes/Exact.antt =====
-- `pb_get_encoded_size` and `pb_encode` against the bytes of a message.
use ivr_repo.Base.{refl, ◌++◌, ◌^◌, Option, true, false, none, some, if◌then◌else◌, Bool, ltb→lt}
use ivr_repo.Base.{not_ltb→le, inr, ltb, Bool-cases, [], arith, inl, ◌⊎◌, ◌+◌, ◌≤◌, ◌%◌, length}
use ivr_repo.Base.{◌≡◌, ◌<◌, List, ℕ}
use ivr_repo.Nanopb.Decode.{make_string_substream}
use ivr_repo.Nanopb.Descriptor.{ErrMsg, word, Field}
use ivr_repo.Nanopb.Encode.{varint_bytes}
use ivr_repo.Nanopb.Input.Buffer.{buffer as input}
use ivr_repo.Nanopb.Message.Encoder.{encode, get_encoded_size}
use ivr_repo.Nanopb.Message.Fields.{Env}
use ivr_repo.Nanopb.Message.Sizes.{encode_submessage-Emits}
use ivr_repo.Nanopb.Message.Sizes.Encode.{encode-Does, UserDoes, Written, TooLong}
use ivr_repo.Nanopb.Message.Wire.{Bytes, UserBytes}
use ivr_repo.Nanopb.Message.Wire.Whole.{message_bytes}
use ivr_repo.Nanopb.Message.Does.{Does, writes, refuses}
use ivr_repo.Nanopb.Message.Submessage.{encode_submessage}
use ivr_repo.Nanopb.Output.{ostream_sizing, OStream, ostream_from_buffer, Writer}
use ivr_repo.Nanopb.Output.Buffer.{buffer, Emits}
use ivr_repo.Nanopb.RoundTrip.Tag.{make_string_substream-string}

-- What follows from the bytes of a message for the size and for a buffer
Stored : Env → ℕ → List Field → ℕ → ℕ → List ℕ → Type 0
Stored env depth fields src max bs =
    (get_encoded_size env depth fields src ≡ some (length bs))
    × (Written env depth fields src max bs ⊎ TooLong env depth fields src max bs)

module _ (env : Env) (depth : ℕ) (fields : List Field) (src max : ℕ) where
  on_buffer :
      (bs : List ℕ)
      → Emits (encode env depth fields src) bs
      → max + length bs < word
      → Stored env depth fields src max bs
  unfolding Stored get_encoded_size ostream_from_buffer
  on_buffer bs p small =
      let whole : (0 + length bs) % word ≡ length bs = omega arith in
      let counted = p.counts 0 [] 0 (omega arith) in
      let from_zero : 0 + length bs ≡ length bs = omega arith in
      (
        rw (counted, whole) refl,
        elim (Bool-cases (ltb max (length bs))) [
          | inr room ↦
              let fits = not_ltb→le max (length bs) room in
              inl (fits, rw from_zero at (p.fits max [] 0 (omega arith) (omega arith)))
          | inl over ↦ inr (
            ltb→lt _ _ over,
            p.full max [] 0 (omega arith) (omega (arith, ltb→lt _ _ over)) small,
          )
        ],
      )

  described :
      {o : Bytes} (bs : List ℕ)
      → Does (encode env depth fields src) o
      → o ≡ some bs
      → max + length bs < word
      → Stored env depth fields src max bs
  described bs (writes {bs = xs} p) e small =
      let same : xs ≡ bs = cc in on_buffer bs (rw same at p) small
  described bs (refuses r) e small = absurd (cc)

-- If the user's functions write the bytes that are given for them on every stream, and `bs` are the
-- bytes of a message, shorter than 2 ^ 64 together with the buffer: `pb_get_encoded_size` returns
-- their number, and `pb_encode` on a buffer of `max` bytes stores exactly these if they fit, and
-- returns false if they do not.
pub encode-message_bytes :
    (env : Env) (user : UserBytes) (depth : ℕ) (fields : List Field) (src max : ℕ) (bs : List ℕ)
    → UserDoes env user
    → message_bytes env user depth fields src ≡ some bs
    → max + length bs < word
    → (get_encoded_size env depth fields src ≡ some (length bs))
      × (Written env depth fields src max bs ⊎ TooLong env depth fields src max bs)
unfolding Stored
encode-message_bytes env user depth fields src max bs does e small =
    described env depth fields src max bs (encode-Does env user depth fields src does) e small

-- If the user's functions do what is given for them, and a message cannot be encoded:
-- `pb_get_encoded_size` returns false.
pub get_encoded_size-none :
    (env : Env) (user : UserBytes) (depth : ℕ) (fields : List Field) (src : ℕ)
    → UserDoes env user
    → message_bytes env user depth fields src ≡ none
    → get_encoded_size env depth fields src ≡ none
unfolding get_encoded_size
get_encoded_size-none env user depth fields src does e =
    from (encode-Does env user depth fields src does) e
  where
    failed :
        (r : Bool × OStream) → r.0 ≡ false → (if r.0 then some r.1.bytes_written else none) ≡ none
    failed (true, s) h = cc
    failed (false, s) h = refl

    from :
        {o : Bytes}
        → Does (encode env depth fields src) o
        → o ≡ none
        → (let (status, s) = encode env depth fields src ostream_sizing in
            if status then some s.bytes_written else none)
          ≡ none
    from (writes p) e = cc
    from (refuses r) e =
        failed (encode env depth fields src ostream_sizing) (r 0 [] 0 (omega arith))

-- Behind a message that `pb_encode_submessage` wrote with its size into a buffer with room for both,
-- `pb_make_string_substream` gives a substream that may read the message and no more, if the message
-- is written alike on every stream and has less than 2 ^ 32 bytes.
pub make_string_substream-encode_submessage :
    (message : Writer) (bs : List ℕ) (max n : ℕ) (st rest : List ℕ) (left : ℕ) (e : Option ErrMsg)
    → Emits message bs
    → length bs < 2 ^ 32
    → n + length (varint_bytes (length bs) ++ bs) ≤ max
    → max < word
    → let front = varint_bytes (length bs) in
      (encode_submessage message (buffer max st n none)
        ≡ (true, buffer max (st ++ (front ++ bs)) (n + length (front ++ bs)) none))
      × (make_string_substream (input (front ++ (bs ++ rest)) (length front + (length bs + left)) e)
          ≡ (some (input (bs ++ rest) (length bs) e), input (bs ++ rest) left e))
make_string_substream-encode_submessage message bs max n st rest left e p small room hm =
    let size : (0 + length bs) % word ≡ length bs = omega arith in
    (
      (rw size at (encode_submessage-Emits message bs p)).fits max st n room hm,
      make_string_substream-string bs rest left e small,
    )

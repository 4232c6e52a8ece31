-- ===== src/Nanopb/Input.antt =====
-- nanopb/pb_decode.c: the input stream, its readers, and substreams.
pub mod Buffer
pub mod Shrinks
use ivr_repo.Base.{ℕ, zero, suc, ◌+◌, ◌-◌, Bool, true, false, Option, none, some, List, ltb, ◌==◌}
use ivr_repo.Base.{if◌then◌else◌, get_or, take, drop}
use ivr_repo.Nanopb.Descriptor.{ErrMsg, set_error, end_of_stream, io_error, word}

-- A stream callback: `buf_read`, or the user's, which is told the memory at `state` and a count
-- and answers whether it read, what it put into the buffer, and what is then at `state`.
pub data Callback : Type 0 where
  buf_read : Callback
  user : (List ℕ → ℕ → Bool × List ℕ × List ℕ) → Callback

-- `pb_istream_t`. `state` is the memory from the pointer on; for a buffer, the bytes not yet read.
pub record IStream : Type 0 where
  pub callback : Callback
  pub state : List ℕ
  pub bytes_left : ℕ
  pub errmsg : Option ErrMsg

-- A reader returns its result, `none` where the C function returns false, and the stream after it.
abbrev pub Reader : Type 0 → Type 0
Reader A = IStream → Option A × IStream

abbrev pub and_then : {A B : Type 0} → Option A × IStream → (A → Reader B) → Option B × IStream
and_then (none, s) f = (none, s)
and_then (some a, s) f = f a s

infixl 5 ◌>>=◌ ◌>>◌
abbrev pub ◌>>=◌ : {A B : Type 0} → Reader A → (A → Reader B) → Reader B
◌>>=◌ m f s = and_then (m s) f

abbrev pub ◌>>◌ : {A B : Type 0} → Reader A → Reader B → Reader B
m >> k = m >>= λ _. k

abbrev pub pure : {A : Type 0} → A → Reader A
pure a s = (some a, s)

abbrev pub fail : {A : Type 0} → Reader A
fail s = (none, s)

-- PB_RETURN_ERROR
abbrev pub return_error : {A : Type 0} → ErrMsg → Reader A
return_error m s = (none, record s { errmsg = set_error s.errmsg m })

-- `stream->callback(stream, buf, count)`: `buf_read` takes `count` bytes and moves the pointer.
abbrev pub run_callback : Callback → List ℕ → ℕ → Bool × List ℕ × List ℕ
run_callback buf_read st count = (true, take count st, drop count st)
run_callback (user f) st count = f st count

-- `a -= b` of two `size_t`, which wraps below 0
abbrev pub minus_size : ℕ → ℕ → ℕ
minus_size a b = if ltb a b then a + word - b else a - b

abbrev pub after_callback : IStream → ℕ → Bool × List ℕ × List ℕ → Option (List ℕ) × IStream
after_callback s count (true, bytes, st) =
    (some bytes, record s { state = st; bytes_left = minus_size s.bytes_left count })
after_callback s count (false, bytes, st) = return_error io_error (record s { state = st })

-- The part of `pb_read` below the skip branch. The result is what the buffer then holds.
unfoldable pub read_count : ℕ → Reader (List ℕ)
read_count count s =
    if ltb s.bytes_left count
    then return_error end_of_stream s
    else after_callback s count (run_callback s.callback s.state count)

-- `pb_read` with a buffer.
unfoldable pub read : ℕ → Reader (List ℕ)
read = read_count

-- The skip branch of `pb_read`, for a NULL buffer on a stream that is not a memory buffer: 16 bytes
-- at a time into `tmp`. A round takes 16 off the count, so the count is fuel enough.
unfoldable pub skip_chunks : ℕ → ℕ → Reader (List ℕ)
skip_chunks zero count = read count
skip_chunks (suc fuel) count = elim (ltb 16 count) [
  | true ↦ (do read 16; skip_chunks fuel (count - 16))
  | false ↦ read count
]

-- `pb_read` with NULL for the buffer.
unfoldable pub read_null : ℕ → Reader (List ℕ)
read_null count s = elim s.callback [
  | buf_read ↦ read_count count s
  | user f ↦ skip_chunks count count s
]

-- `pb_readbyte`
unfoldable pub readbyte : Reader ℕ
readbyte s =
    if s.bytes_left == 0
    then return_error end_of_stream s
    else and_then (after_callback s 1 (run_callback s.callback s.state 1))
        (λ bytes. pure (get_or bytes 0 0))

-- `pb_istream_from_buffer`
unfoldable pub istream_from_buffer : List ℕ → ℕ → IStream
istream_from_buffer buf bufsize = record {
  callback = buf_read;
  state = buf;
  bytes_left = bufsize;
  errmsg = none;
}

-- ===== src/Nanopb/Output.antt =====
-- nanopb/pb_encode.c: the output stream and `pb_write`.
pub mod Buffer
use ivr_repo.Base.{ℕ, ◌+◌, ◌%◌, Bool, true, false, Option, none, List, [], ◌++◌, ltb}
use ivr_repo.Base.{if◌then◌else◌, take}
use ivr_repo.Nanopb.Descriptor.{ErrMsg, set_error, stream_full, io_error, word}

-- A stream callback: NULL for a stream that only counts, `buf_write`, or the user's, which is told
-- the memory at `state` and the bytes, and answers whether it wrote and what is then at `state`.
pub data Callback : Type 0 where
  null : Callback
  buf_write : Callback
  user : (List ℕ → List ℕ → Bool × List ℕ) → Callback

-- `pb_ostream_t`. For a buffer, `state` is what has been stored before the pointer.
pub record OStream : Type 0 where
  pub callback : Callback
  pub state : List ℕ
  pub max_size : ℕ
  pub bytes_written : ℕ
  pub errmsg : Option ErrMsg

-- A function that writes to the stream and returns a `bool`.
abbrev pub Writer : Type 0
Writer = OStream → Bool × OStream

abbrev pub and_also : Bool × OStream → Writer → Bool × OStream
and_also (true, s) k = k s
and_also (false, s) k = (false, s)

infixl 5 ◌>>◌
abbrev pub ◌>>◌ : Writer → Writer → Writer
◌>>◌ m k s = and_also (m s) k

abbrev pub succeed : Writer
succeed s = (true, s)

-- PB_RETURN_ERROR
abbrev pub return_error : ErrMsg → Writer
return_error m s = (false, record s { errmsg = set_error s.errmsg m })

-- `stream->callback(stream, buf, count)`, where the callback is not NULL
abbrev pub run_callback : Callback → List ℕ → List ℕ → Bool × List ℕ
run_callback null st bytes = (true, st)
run_callback buf_write st bytes = (true, st ++ bytes)
run_callback (user f) st bytes = f st bytes

abbrev pub is_null : Callback → Bool
is_null null = true
is_null buf_write = false
is_null (user f) = false

abbrev pub after_callback : OStream → ℕ → Bool × List ℕ → Bool × OStream
after_callback s count (true, st) =
    (true, record s { state = st; bytes_written = (s.bytes_written + count) % word })
after_callback s count (false, st) = return_error io_error (record s { state = st })

-- `pb_write`. The sum in the test is a `size_t` and wraps.
unfoldable pub write : List ℕ → ℕ → Writer
write buf count s =
    if is_null s.callback
    then (true, record s { bytes_written = (s.bytes_written + count) % word })
    else if ltb s.max_size ((s.bytes_written + count) % word)
    then return_error stream_full s
    else after_callback s count (run_callback s.callback s.state (take count buf))

-- `pb_ostream_from_buffer`, for a buffer of `bufsize` bytes
unfoldable pub ostream_from_buffer : ℕ → OStream
ostream_from_buffer bufsize = record {
  callback = buf_write;
  state = [];
  max_size = bufsize;
  bytes_written = 0;
  errmsg = none;
}

-- PB_OSTREAM_SIZING
abbrev pub ostream_sizing : OStream
ostream_sizing = record {
  callback = null;
  state = [];
  max_size = 0;
  bytes_written = 0;
  errmsg = none;
}

-- ===== src/Nanopb/Message/Submessage.antt =====
-- `pb_encode_submessage`: a message behind its size.
use ivr_repo.Base.{ℕ, ◌+◌, ◌%◌, Bool, true, false, [], ltb, ◌==◌, if◌then◌else◌, none}
use ivr_repo.Nanopb.Descriptor.{word, stream_full, submsg_size_changed}
use ivr_repo.Nanopb.Encode.{encode_varint}
use ivr_repo.Nanopb.Output.{OStream, Writer, ◌>>◌, return_error, write, is_null, ostream_sizing}

-- What follows the second run, of which the result and the substream are given.
unfoldable pub after_submessage : ℕ → Bool × OStream → Writer
after_submessage size (status, sub) s =
    if sub.bytes_written == size then (status, s') else return_error submsg_size_changed s'
  where
    s' : OStream
    s' = record s {
      bytes_written = (s.bytes_written + sub.bytes_written) % word;
      state = sub.state;
      errmsg = sub.errmsg;
    }

-- What follows the size. The sum in the test is a `size_t` and wraps.
unfoldable pub write_submessage : Writer → ℕ → Writer
write_submessage encode size s =
    if is_null s.callback
    then write [] size s
    else if ltb s.max_size ((s.bytes_written + size) % word)
    then return_error stream_full s
    else after_submessage size
        (encode (record {
          callback = s.callback;
          state = s.state;
          max_size = size;
          bytes_written = 0;
          errmsg = none;
        }))
        s

-- What follows the first run, on a substream that only counts.
unfoldable pub sized_submessage : Writer → Bool × OStream → Writer
sized_submessage encode (false, sub) s = (false, record s { errmsg = sub.errmsg })
sized_submessage encode (true, sub) s =
    (encode_varint sub.bytes_written >> write_submessage encode sub.bytes_written) s

-- `encode` is `pb_encode` with its fields and struct.
unfoldable pub encode_submessage : Writer → Writer
encode_submessage encode = sized_submessage encode (encode ostream_sizing)

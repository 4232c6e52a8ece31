-- ===== src/Nanopb/MessageDecode/Substream.antt =====
-- A message behind its length, and the stream behind it.
use ivr_repo.Base.{ℕ, ◌+◌, ◌-◌, ◌^◌, ◌≤◌, ◌<◌, ◌≡◌, Bool, Option, List, ◌++◌, length, drop}
use ivr_repo.Nanopb.Descriptor.{ErrMsg}
use ivr_repo.Nanopb.Encode.{varint_bytes}
use ivr_repo.Nanopb.FieldDecode.{Decoder}
use ivr_repo.Nanopb.Input.Buffer.{buffer}
use ivr_repo.Nanopb.Memory.{Memory}
use ivr_repo.Nanopb.MessageDecode.Loop.{message_end, on_substream}
use ivr_repo.Nanopb.RoundTrip.Tag.{make_string_substream-string, close_string_substream-string}

-- Whatever decodes the message `bs` behind its length, and however much of it that reads, with or
-- without success: the result is passed on, and the stream goes on just behind the message.
pub on_substream-buffer :
    (message : Decoder) (mem mem' : Memory) (status : Bool) (bs rest : List ℕ) (left k : ℕ)
    (e e' : Option ErrMsg)
    → length bs < 2 ^ 32
    → k ≤ length bs
    → message mem (buffer (bs ++ rest) (length bs) e)
      ≡ (status, mem', buffer (drop k (bs ++ rest)) (length bs - k) e')
    → let front = varint_bytes (length bs) in
      on_substream message mem
        (buffer (front ++ (bs ++ rest)) (length front + (length bs + left)) e)
      ≡ (status, mem', buffer rest left e')
unfolding on_substream message_end
on_substream-buffer message mem mem' status bs rest left k e e' small part run = rw (
  make_string_substream-string bs rest left e small,
  run,
  close_string_substream-string bs rest k left e e' part,
)

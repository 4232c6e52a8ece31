-- ===== src/Nanopb/Input/Buffer.antt =====
-- A stream over a memory buffer: what each reader of pb_decode.c does on it.
use ivr_repo.Base.{ℕ, suc, ◌+◌, ◌-◌, ◌≤◌, ◌<◌, ◌≡◌, refl, ◌∙◌, List, ◌∷◌, ◌++◌, Option, none}
use ivr_repo.Base.{some, length, take, drop, take-append, drop-append, le→not_ltb, lt→ltb, arith}
use ivr_repo.Nanopb.Descriptor.{ErrMsg, set_error, end_of_stream}
use ivr_repo.Nanopb.Input.{IStream, buf_read, read_count, read, read_null, readbyte}

-- `left` bytes may be read of the memory `st`.
abbrev pub buffer : List ℕ → ℕ → Option ErrMsg → IStream
buffer st left e = record { callback = buf_read; state = st; bytes_left = left; errmsg = e }

pub readbyte-buffer :
    (b : ℕ) (st : List ℕ) (left : ℕ) (e : Option ErrMsg)
    → readbyte (buffer (b ∷ st) (suc left) e) ≡ (some b, buffer st left e)
unfolding readbyte
readbyte-buffer b st left e = ground arith

pub readbyte-buffer_end :
    (st : List ℕ) (e : Option ErrMsg)
    → readbyte (buffer st 0 e) ≡ (none, buffer st 0 (set_error e end_of_stream))
unfolding readbyte
readbyte-buffer_end st e = refl

pub read_count-buffer :
    (st : List ℕ) (count left : ℕ) (e : Option ErrMsg)
    → count ≤ left
    → read_count count (buffer st left e)
      ≡ (some (take count st), buffer (drop count st) (left - count) e)
unfolding read_count
read_count-buffer st count left e h = rw (le→not_ltb left count h) refl

pub read_count-buffer_end :
    (st : List ℕ) (count left : ℕ) (e : Option ErrMsg)
    → left < count
    → read_count count (buffer st left e) ≡ (none, buffer st left (set_error e end_of_stream))
unfolding read_count
read_count-buffer_end st count left e h = rw (lt→ltb left count h)

-- Reading exactly the bytes `bs` that stand in front.
pub read-buffer_front :
    (n : ℕ) (bs st : List ℕ) (left : ℕ) (e : Option ErrMsg)
    → length bs ≡ n
    → read n (buffer (bs ++ st) (n + left) e) ≡ (some bs, buffer st left e)
unfolding read
read-buffer_front n bs st left e h =
    let gone : n + left - n ≡ left = omega arith in
    read_count-buffer (bs ++ st) n (n + left) e (omega arith)
    ∙ rw (gone, ← h, take-append bs st, drop-append bs st)

pub read_null-buffer :
    (st : List ℕ) (count left : ℕ) (e : Option ErrMsg)
    → read_null count (buffer st left e) ≡ read_count count (buffer st left e)
unfolding read_null
read_null-buffer st count left e = refl

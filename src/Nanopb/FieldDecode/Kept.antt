-- ===== src/Nanopb/FieldDecode/Kept.antt =====
-- The bytes left of a stream, over what the field decoders are put together from.
use ivr_repo.Base.{if◌then◌else◌, Option, ◌≤◌, arith, ℕ, Bool, none, some, true, false}
use ivr_repo.Nanopb.Descriptor.{ErrMsg}
use ivr_repo.Nanopb.FieldDecode.{on_done, on_value, decode_error, IStream, Decoder}
use ivr_repo.Nanopb.Input.{Reader}
use ivr_repo.Nanopb.Input.Shrinks.{Shrinks}
use ivr_repo.Nanopb.Memory.{Memory}

-- A result that leaves at most `n` bytes.
pub record Kept (n : ℕ) (r : Bool × Memory × IStream) : Type 0 where
  pub most : r.2.bytes_left ≤ n

-- A decoder that leaves no more bytes than there were.
pub record Consumes (dec : Decoder) : Type 0 where
  pub left : (mem : Memory) (s : IStream) → Kept s.bytes_left (dec mem s)

pub Kept-le : {n k : ℕ} {r : Bool × Memory × IStream} → Kept n r → n ≤ k → Kept k r
Kept-le p h = record { most = omega (arith, p.most, h) }

pub here-Kept :
    {n : ℕ} (status : Bool) (mem : Memory) (s : IStream)
    → s.bytes_left ≤ n
    → Kept n (status, mem, s)
here-Kept status mem s h = record { most = h }

pub error-Kept :
    {n : ℕ} (m : ErrMsg) (mem : Memory) (s : IStream)
    → s.bytes_left ≤ n
    → Kept n (decode_error m mem s)
error-Kept m mem s h = record { most = h }

pub if-Kept :
    {n : ℕ} (b : Bool) {r r' : Bool × Memory × IStream}
    → Kept n r
    → Kept n r'
    → Kept n (if b then r else r')
if-Kept true p q = p
if-Kept false p q = q

pub if-Consumes :
    (b : Bool) {d d' : Decoder} → Consumes d → Consumes d' → Consumes (if b then d else d')
if-Consumes true p q = p
if-Consumes false p q = q

pub on_value-Kept :
    {A : Type 0} {n : ℕ} {m : Reader A} {k : A → Decoder} (mem : Memory) (s : IStream)
    → Shrinks m
    → s.bytes_left ≤ n
    → ((a : A) (mem : Memory) (s : IStream) → s.bytes_left ≤ n → Kept n (k a mem s))
    → Kept n (on_value (m s) mem k)
on_value-Kept {A} {n} {m} {k} mem s p h q = after (m s) (p.left s)
  where
    after : (r : Option A × IStream) → r.1.bytes_left ≤ s.bytes_left → Kept n (on_value r mem k)
    after (none, s') less = record { most = omega (arith, h, less) }
    after (some a, s') less = q a mem s' (omega (arith, h, less))

pub on_done-Kept :
    {n : ℕ} {r : Bool × Memory × IStream} {k : Decoder}
    → Kept n r
    → ((mem : Memory) (s : IStream) → s.bytes_left ≤ n → Kept n (k mem s))
    → Kept n (on_done r k)
on_done-Kept {n} {r} {k} p q = after r p.most
  where
    after : (r : Bool × Memory × IStream) → r.2.bytes_left ≤ n → Kept n (on_done r k)
    after (false, mem, s) less = record { most = less }
    after (true, mem, s) less = q mem s less

pub error-Consumes : (m : ErrMsg) → Consumes (decode_error m)
error-Consumes m = record { left = λ mem s. error-Kept m mem s (omega arith) }

-- A decoder that reads a value and goes on with one that consumes.
pub value-Consumes :
    {A : Type 0} {m : Reader A} {k : A → Decoder}
    → Shrinks m
    → ((a : A) → Consumes (k a))
    → Consumes (λ mem s. on_value (m s) mem k)
value-Consumes p q = record {
  left = λ mem s. on_value-Kept mem s p (omega arith) (λ a mem s h. Kept-le ((q a).left mem s) h);
}

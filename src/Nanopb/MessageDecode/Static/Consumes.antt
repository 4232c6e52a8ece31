-- ===== src/Nanopb/MessageDecode/Static/Consumes.antt =====
-- The bytes left of a stream, over `decode_static_field`.
use ivr_repo.Base.{◌+◌, ◌⊎◌, inr, ◌≡◌, suc, inl, ◌==◌, not, arith, leb, Option, Bool-cases, ◌≤◌}
use ivr_repo.Base.{Bool, ℕ, none, some, true, false}
use ivr_repo.Nanopb.Decode.Shrinks.{close_string_substream-Shrinks, make_string_substream-Shrinks}
use ivr_repo.Nanopb.Descriptor.{array_overflow, htype, ltype, Field}
use ivr_repo.Nanopb.FieldDecode.{Decoder}
use ivr_repo.Nanopb.FieldDecode.Kept.{Kept-le, error-Kept, value-Consumes, if-Kept, Kept}
use ivr_repo.Nanopb.FieldDecode.Kept.{Consumes}
use ivr_repo.Nanopb.Input.{IStream}
use ivr_repo.Nanopb.Iter.{current, Iter}
use ivr_repo.Nanopb.Memory.{load, Memory}
use ivr_repo.Nanopb.MessageDecode.Static.{item_offset, is_packed, count_up, set_has, packed_loop}
use ivr_repo.Nanopb.MessageDecode.Static.{packed_end, decode_static_field, decode_packed}
use ivr_repo.Nanopb.MessageDecode.Static.{decode_oneof, decode_item, close_string_substream}
use ivr_repo.Nanopb.MessageDecode.Static.{close_with}
use ivr_repo.Nanopb.Descriptor

pub close_with-Kept :
    {n : ℕ} (status : Bool) (mem : Memory) (sub s : IStream)
    → s.bytes_left ≤ n
    → Kept n (close_with status mem (close_string_substream sub s))
close_with-Kept {n} status mem sub s h =
    after (close_string_substream sub s) ((close_string_substream-Shrinks sub).left s)
  where
    after :
        (r : Option (Unit {0}) × IStream)
        → r.1.bytes_left ≤ s.bytes_left
        → Kept n (close_with status mem r)
    after (none, s') less = record { most = omega (arith, h, less) }
    after (some _, s') less = record { most = omega (arith, h, less) }

module _ (dec : Field → ℕ → Decoder) (defaults : ℕ → ℕ → Memory → Memory)
    (on_item : (field : Field) (dest : ℕ) → Consumes (dec field dest)) (iter : Iter) where
  packed_end-Kept :
      {n : ℕ} (r : Bool × Memory × IStream) (s : IStream)
      → s.bytes_left ≤ n
      → Kept n (packed_end dec defaults iter s r)
  unfolding packed_end
  packed_end-Kept (status, mem, sub) s h =
      if-Kept (not (sub.bytes_left == 0)) (error-Kept array_overflow mem s h)
        (close_with-Kept status mem sub s h)

  decode_packed-Consumes : Consumes (decode_packed dec defaults iter)
  unfolding decode_packed
  decode_packed-Consumes = value-Consumes make_string_substream-Shrinks (λ sub. record {
    left = λ mem s.
        packed_end-Kept (packed_loop dec defaults iter (suc sub.bytes_left) mem sub) s
          (omega arith);
  })

  decode_item-Consumes : Consumes (decode_item dec defaults iter)
  unfolding decode_item
  decode_item-Consumes = record { left = λ mem s. pick mem s (Bool-cases (leb _ _)) }
    where
      pick :
          (mem : Memory) (s : IStream)
          → let over = leb (current iter).array_size (load 4 mem iter.p_size) in
            (over ≡ true) ⊎ (over ≡ false) → Kept s.bytes_left (decode_item dec defaults iter mem s)
      pick mem s (inl over) =
          rw over (error-Kept array_overflow (count_up iter mem) s (omega arith))
      pick mem s (inr room) = rw room (
          (on_item (current iter)
              (iter.p_data + item_offset (current iter) (load 4 mem iter.p_size))).left
            (count_up iter mem) s)

  decode_oneof-Consumes : Consumes (decode_oneof dec defaults iter)
  unfolding decode_oneof
  decode_oneof-Consumes = record {
    left =
        λ mem s. pick mem s (Bool-cases (ltype (current iter).type == Descriptor.ltype_submessage));
  }
    where
      pick :
          (mem : Memory) (s : IStream)
          → let sub = ltype (current iter).type == Descriptor.ltype_submessage in
            (sub ≡ true) ⊎ (sub ≡ false) → Kept s.bytes_left (decode_oneof dec defaults iter mem s)
      pick mem s (inl sub) = rw sub ((on_item (current iter) iter.p_data).left _ s)
      pick mem s (inr other) = rw other ((on_item (current iter) iter.p_data).left _ s)

  pub decode_static_field-Kept :
      {n : ℕ} (wire_type : ℕ) (mem : Memory) (s : IStream)
      → s.bytes_left ≤ n
      → Kept n (decode_static_field dec defaults iter wire_type mem s)
  unfolding decode_static_field
  decode_static_field-Kept wire_type mem s h = Kept-le whole h
    where
      whole : Kept s.bytes_left (decode_static_field dec defaults iter wire_type mem s)
      whole = elim (Bool-cases (htype (current iter).type == Descriptor.htype_required)) [
        | inl r ↦ rw r ((on_item (current iter) iter.p_data).left mem s)
        | inr r ↦ elim (Bool-cases (htype (current iter).type == Descriptor.htype_optional)) [
          | inl o ↦ rw (r, o) ((on_item (current iter) iter.p_data).left (set_has iter mem) s)
          | inr o ↦ elim (Bool-cases (htype (current iter).type == Descriptor.htype_repeated)) [
            | inl a ↦ elim (Bool-cases (is_packed iter wire_type)) [
              | inl p ↦ rw (r, o, a, p) (decode_packed-Consumes.left mem s)
              | inr p ↦ rw (r, o, a, p) (decode_item-Consumes.left mem s)
            ]
            | inr a ↦ rw (r, o, a) (decode_oneof-Consumes.left mem s)
          ]
        ]
      ]

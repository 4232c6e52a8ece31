-- ===== src/Nanopb/MessageDecode/Loop/Empty.antt =====
-- `pb_decode_noinit` at the end of a stream.
use ivr_repo.Base.{◌∙◌, not, length, Bool, All, List, arith, ◌≡◌, ◌==◌, min, ℕ, zero, suc, true}
use ivr_repo.Base.{false, if◌then◌else◌, refl, [], every}
use ivr_repo.Nanopb.Descriptor.{missing_required_field, set_error, Field}
use ivr_repo.Nanopb.Iter.Cycle.{IsField}
use ivr_repo.Nanopb.MessageDecode.Loop.{store, IStream, Memory, DecodeEnv, count_complete}
use ivr_repo.Nanopb.MessageDecode.Loop.{decode_end, decode_round, decode_loop, run_message}
use ivr_repo.Nanopb.MessageDecode.Loop.{decode_level, decode_noinit}
use ivr_repo.Nanopb.MessageDecode.Required.Count.{required_count-first, count_required}
use ivr_repo.Nanopb.MessageDecode.Required.Seen.{all_seen-mark_all, contains}

none_marked : (n : ℕ) → every n (contains []) ≡ (n == 0)
none_marked zero = refl
none_marked (suc n) = ground arith

none_missing : (n : ℕ) → (min 64 n == 0) ≡ (n == 0)
none_missing n = ground arith

negated {ℓ} : {A : Type ℓ} (b : Bool) (x y : A) → (if not b then x else y) ≡ (if b then y else x)
negated true x y = refl
negated false x y = refl

-- At the end of a stream a message of fields whose tags are not 0 is decoded, with nothing read, if
-- no field is required; else it is a "missing required field".
pub decode_noinit_empty :
    (env : DecodeEnv) (depth n : ℕ) (fields : List Field) (dest : ℕ) (mem : Memory) (s : IStream)
    → All IsField fields
    → length fields ≡ suc n
    → s.bytes_left ≡ 0
    → let mem' = store 4 0 mem (env.count_slot depth) in
      decode_noinit env (suc depth) fields dest mem s ≡ (
        if count_required fields == 0
        then (true, mem', s)
        else (false, mem', record s { errmsg = set_error s.errmsg missing_required_field }))
unfolding decode_noinit decode_level run_message decode_loop decode_round decode_end count_complete
decode_noinit_empty env depth n fields dest mem s all whole empty =
    let count = required_count-first fields dest 0 n all whole (omega arith) in
    let seen = all_seen-mark_all (min 64 (count_required fields)) [] (omega arith) tt in
    let marked =
      none_marked (min 64 (count_required fields)) ∙ none_missing (count_required fields) in
    rw (empty, count, seen, marked) (negated (count_required fields == 0) _ _)

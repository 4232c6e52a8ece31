-- ===== src/Nanopb/MessageDecode/AnyField/Callback.antt =====
-- The loop of `decode_callback_field` on the substream of a string.
use ivr_repo.Base.{Option, some, Bool, true, false, ℕ, zero, suc, ◌-◌, ◌<◌, ◌≡◌, ◌⊎◌, inl, inr}
use ivr_repo.Base.{refl, ◌∙◌, arith, ◌==◌, Bool-cases, ==→eq, not, ◌&&◌}
use ivr_repo.Nanopb.FieldDecode.{Decoder}
use ivr_repo.Nanopb.Input.{IStream}
use ivr_repo.Nanopb.Memory.{Memory}
use ivr_repo.Nanopb.MessageDecode.AnyField.{callback_loop, after_call}

-- A callback that reads a byte at least, or leaves none, where it returns true.
abbrev pub Progress : Decoder → Type 0
Progress callback =
    (mem : Memory) (sub : IStream)
    → (callback mem sub).0 ≡ true
    → ((callback mem sub).2.bytes_left ≡ 0) ⊎ ((callback mem sub).2.bytes_left < sub.bytes_left)

-- What a call of the callback or a loop of them comes to, for every fuel above `n`.
abbrev Ends : ℕ → (ℕ → Option (Bool × Memory × IStream)) → Type 0
Ends n run =
    (r : Bool × Memory × IStream) × ((fuel : ℕ) → n < fuel → run fuel ≡ some r)
    × (r.0 ≡ true → r.2.bytes_left ≡ 0)

loop-call :
    (callback : Decoder) (fuel : ℕ) (mem : Memory) (sub : IStream)
    → 0 < fuel
    → callback_loop callback fuel mem sub
      ≡ after_call (λ mem sub. callback_loop callback (fuel - 1) mem sub) (callback mem sub)
unfolding callback_loop
loop-call callback zero mem sub h = absurd (omega arith)
loop-call callback (suc fuel) mem sub h =
    let less : suc fuel - 1 ≡ fuel = omega arith in rw less refl

module _ (callback : Decoder) (progress : Progress callback) where
  after_call-Ends :
      (n : ℕ) (r : Bool × Memory × IStream)
      → (r.0 ≡ true → (r.2.bytes_left ≡ 0) ⊎ (r.2.bytes_left < n))
      → ((mem' : Memory) (sub' : IStream)
          → sub'.bytes_left < n
          → Ends sub'.bytes_left (λ fuel. callback_loop callback fuel mem' sub'))
      → Ends n (λ fuel. after_call (λ mem sub. callback_loop callback (fuel - 1) mem sub) r)
  after_call-Ends n (false, mem', sub') read go = ((false, mem', sub'), λ fuel h. refl, λ e. cc)
  after_call-Ends n (true, mem', sub') read go = elim (Bool-cases (sub'.bytes_left == 0)) [
    | inl none_left ↦
        ((true, mem', sub'), λ fuel h. rw (none_left, after_call) refl, λ e. ==→eq _ _ none_left)
    | inr more ↦
        let less : sub'.bytes_left < n = elim (read refl) [
          | inl empty ↦ absurd (ground arith)
          | inr less ↦ less
        ] in
        let (r, run, done) = go mem' sub' less in
        (r, λ fuel h. rw (more, after_call) (run (fuel - 1) (omega arith)), done)
  ]

  below :
      (n : ℕ) (mem : Memory) (sub : IStream)
      → sub.bytes_left < n
      → Ends sub.bytes_left (λ fuel. callback_loop callback fuel mem sub)
  below zero mem sub h = absurd (omega arith)
  below (suc n) mem sub h =
      let (r, run, done) =
        after_call-Ends sub.bytes_left (callback mem sub) (progress mem sub)
          (λ mem' sub' less. below n mem' sub' (omega arith)) in
      (r, λ fuel enough. loop-call callback fuel mem sub (omega arith) ∙ run fuel enough, done)

left_behind :
    (r : Bool × Memory × IStream)
    → (r.0 ≡ true → r.2.bytes_left ≡ 0)
    → (r.0 && not (r.2.bytes_left == 0)) ≡ false
left_behind (false, mem, sub) done = refl
left_behind (true, mem, sub) done = rw (done refl) refl

-- If the callback reads a byte at least, or leaves none, whenever it returns true: with any fuel
-- above the bytes left its loop on the substream of a string comes to its end, with the result that
-- it has on the fuel of `run_decode_callback`, and if that is true no byte is left of the substream.
pub callback_loop-Progress :
    (callback : Decoder) (fuel : ℕ) (mem : Memory) (sub : IStream)
    → Progress callback
    → sub.bytes_left < fuel
    → (r : Bool × Memory × IStream) × (callback_loop callback fuel mem sub ≡ some r)
      × (callback_loop callback (suc sub.bytes_left) mem sub ≡ some r)
      × ((r.0 && not (r.2.bytes_left == 0)) ≡ false)
callback_loop-Progress callback fuel mem sub progress h =
    let (r, run, done) = below callback progress (suc sub.bytes_left) mem sub (omega arith) in
    (r, run fuel h, run (suc sub.bytes_left) (omega arith), left_behind r done)

-- ===== src/Select/Walk.antt =====
-- The walk back of src/frame-ring.hpp's ringselect::PlanDecodeStart, from the frame due to its key.
use native.Mathlib.Omega.{arith}
use obs_trigglow_dynamic_del.Prelude.{
  ℕ, zero, suc, ◌+◌, ◌-◌, ◌%◌, ◌≤◌, ◌<◌, ◌≡◌, refl, sym, subst, ◌∙◌, inl, inr, Bool, true, false,
  not, ◌||◌, some, ◌==◌, u32_mod, Bool-cases,
}
use obs_trigglow_dynamic_del.Select.{
  codec_eq, ChainCursor, no_cursor, decodable, ChainSlot, DecodeStart, walk_back,
}
use obs_trigglow_dynamic_del.Select.Replay.{replay, passes, after_slot, replay-pass, replay-take}

-- The sequence number that follows, as a `uint32_t`.
abbrev pub next_seq : ℕ → ℕ
next_seq s = (s + 1) % u32_mod

-- The packet of `slot` is the one right before packet `expected` of the chain.
abbrev pub precedes : ChainSlot → ChainSlot → ℕ → Bool
precedes slot target expected =
    not (not (slot.chain == target.chain) || not (slot.seq == (expected + u32_mod - 1) % u32_mod))

module _ (due : ℕ) (chain_at : ℕ → ChainSlot) where
  -- The plan's promise: decoding from its key on, unshown but for the last packet, reaches the frame
  -- due.
  pub record IsSound (plan : DecodeStart) : Type 0 where
    pub key_inside : plan.key_pos ≤ due
    pub key_ready : (chain_at plan.key_pos).ready ≡ true
    pub is_key : (chain_at plan.key_pos).key ≡ true
    pub key_codec : codec_eq (chain_at plan.key_pos).codec (chain_at due).codec ≡ true
    pub reaches :
        replay (chain_at due).codec chain_at (due + 1 - plan.key_pos) plan.key_pos no_cursor
        ≡ some (plan.catch_up + 1)

  -- Every slot's sequence number is a `uint32_t`.
  abbrev pub SeqFits : Type 0
  SeqFits = (q : ℕ) → (chain_at q).seq < u32_mod

  -- After any cursor of the due frame's chain whose next packet is `expected`, the positions from
  -- `p` on decode, `k` packets of them.
  abbrev pub Suffix : ℕ → ℕ → ℕ → ℕ → Type 0
  Suffix n p expected k =
      (c : ChainCursor)
      → c.valid ≡ true
      → c.chain ≡ (chain_at due).chain
      → next_seq c.seq ≡ expected
      → replay (chain_at due).codec chain_at n p c ≡ some k

  Suffix_pass :
      (n q expected k : ℕ)
      → passes (chain_at due).codec (chain_at q) ≡ true
      → Suffix n (q + 1) expected k
      → Suffix (suc n) q expected k
  Suffix_pass n q expected k h s c v ch e =
      replay-pass (chain_at due).codec chain_at n q c h ∙ s c v ch e

  Suffix_take :
      (n q expected k : ℕ)
      → passes (chain_at due).codec (chain_at q) ≡ false
      → (chain_at q).chain ≡ (chain_at due).chain
      → next_seq (chain_at q).seq ≡ expected
      → Suffix n (q + 1) expected k
      → Suffix (suc n) q (chain_at q).seq (k + 1)
  unfolding decodable
  Suffix_take n q expected k h ch e s c v cc' ce = ground (
    arith,
    replay-take (chain_at due).codec chain_at n q c h,
    s (after_slot (chain_at q)) refl ch e,
  )

  key_start :
      (n q expected k : ℕ)
      → passes (chain_at due).codec (chain_at q) ≡ false
      → (chain_at q).key ≡ true
      → (chain_at q).chain ≡ (chain_at due).chain
      → next_seq (chain_at q).seq ≡ expected
      → Suffix n (q + 1) expected k
      → replay (chain_at due).codec chain_at (suc n) q no_cursor ≡ some (k + 1)
  unfolding decodable
  key_start n q expected k h key ch e s = ground (
    arith,
    replay-take (chain_at due).codec chain_at n q no_cursor h,
    s (after_slot (chain_at q)) refl ch e,
  )

  -- One round of the walk, at a slot that is passed over, that breaks the chain, that is the key, or
  -- that is one more packet to decode first.
  module _ (rounds back expected : ℕ) (plan : DecodeStart) where
    abbrev pub go : ℕ → ℕ → DecodeStart → DecodeStart
    go b e p = walk_back rounds b due e (chain_at due) chain_at p

    abbrev pub step : DecodeStart
    step = walk_back (suc rounds) back due expected (chain_at due) chain_at plan

    pub step_pass :
        passes (chain_at due).codec (chain_at (due - back)) ≡ true
        → step ≡ go (back + 1) expected plan
    unfolding walk_back
    step_pass h = ground arith

    step_break :
        passes (chain_at due).codec (chain_at (due - back)) ≡ false
        → precedes (chain_at (due - back)) (chain_at due) expected ≡ false
        → step ≡ plan
    unfolding walk_back
    step_break h p = ground arith

    pub step_key :
        passes (chain_at due).codec (chain_at (due - back)) ≡ false
        → precedes (chain_at (due - back)) (chain_at due) expected ≡ true
        → (chain_at (due - back)).key ≡ true
        → step ≡ record plan { catch_up = plan.catch_up + 1; found = true; key_pos = due - back }
    unfolding walk_back
    step_key h p k = ground arith

    pub step_more :
        passes (chain_at due).codec (chain_at (due - back)) ≡ false
        → precedes (chain_at (due - back)) (chain_at due) expected ≡ true
        → (chain_at (due - back)).key ≡ false
        → step
          ≡ go (back + 1) (chain_at (due - back)).seq (record plan { catch_up = plan.catch_up + 1 })
    unfolding walk_back
    step_more h p k = ground arith

  precedes_lem :
      (slot : ChainSlot) (expected : ℕ)
      → slot.seq < u32_mod
      → expected < u32_mod
      → precedes slot (chain_at due) expected ≡ true
      → (slot.chain ≡ (chain_at due).chain) × (next_seq slot.seq ≡ expected)
  precedes_lem slot expected f g h = ground arith

  abbrev pub SoundIfFound : DecodeStart → Type 0
  SoundIfFound plan = plan.found ≡ true → IsSound plan

  -- The walk ran past the oldest position.
  end_of_walk :
      (back expected : ℕ) (plan : DecodeStart)
      → walk_back 0 back due expected (chain_at due) chain_at plan ≡ record plan { catch_up = 0 }
  unfolding walk_back
  end_of_walk back expected plan = refl

  Suffix_move :
      {m n p q expected k : ℕ} → m ≡ n → p ≡ q → Suffix m p expected k → Suffix n q expected k
  Suffix_move {m = m} {q = q} {expected = expected} {k = k} e e' s =
      subst (λ n. Suffix n q expected k) e (subst (λ q. Suffix m q expected k) e' s)

  key-IsSound :
      (back expected : ℕ) (plan : DecodeStart)
      → back ≤ due
      → passes (chain_at due).codec (chain_at (due - back)) ≡ false
      → (chain_at (due - back)).key ≡ true
      → (chain_at (due - back)).chain ≡ (chain_at due).chain
      → next_seq (chain_at (due - back)).seq ≡ expected
      → Suffix back (due - back + 1) expected (plan.catch_up + 1)
      → IsSound (record plan { catch_up = plan.catch_up + 1; found = true; key_pos = due - back })
  key-IsSound back expected plan b h key ch nx s = record {
    key_inside = omega arith;
    key_ready = ground arith;
    is_key = key;
    key_codec = ground arith;
    reaches =
        subst
          (λ n.
            replay (chain_at due).codec chain_at n (due - back) no_cursor
            ≡ some (plan.catch_up + 1 + 1))
          (omega arith) (key_start back (due - back) expected (plan.catch_up + 1) h key ch nx s);
  }

  pub walk_back-IsSound :
      (rounds back expected : ℕ) (plan : DecodeStart)
      → SeqFits
      → expected < u32_mod
      → plan.found ≡ false
      → rounds + back ≡ due + 1
      → Suffix back (due + 1 - back) expected (plan.catch_up + 1)
      → SoundIfFound (walk_back rounds back due expected (chain_at due) chain_at plan)
  walk_back-IsSound zero back expected plan fits f nf er s =
      subst SoundIfFound (sym (end_of_walk back expected plan)) (λ y. cc)
  walk_back-IsSound (suc rounds) back expected plan fits f nf er s =
      let q : ℕ = due - back in
      let slot = chain_at q in
      let e : due + 1 - back ≡ q + 1 = omega arith in
      let e' : q ≡ due + 1 - (back + 1) = omega arith in
      let n : suc back ≡ back + 1 = omega arith in
      let s' : Suffix back (q + 1) expected (plan.catch_up + 1) = Suffix_move refl e s in
      elim (Bool-cases (passes (chain_at due).codec slot)) [
        | inl h ↦ subst SoundIfFound (sym (step_pass rounds back expected plan h)) (
            walk_back-IsSound rounds (back + 1) expected plan fits f nf (omega arith)
              (Suffix_move n e' (Suffix_pass back q expected (plan.catch_up + 1) h s')))
        | inr h ↦ elim (Bool-cases (precedes slot (chain_at due) expected)) [
          | inr p ↦ subst SoundIfFound (sym (step_break rounds back expected plan h p)) (λ y. cc)
          | inl p ↦
              let (ch, nx) = precedes_lem slot expected (fits q) f p in
              elim (Bool-cases slot.key) [
                | inl k ↦
                    subst SoundIfFound (sym (step_key rounds back expected plan h p k))
                      (λ y. key-IsSound back expected plan (omega arith) h k ch nx s')
                | inr k ↦ subst SoundIfFound (sym (step_more rounds back expected plan h p k)) (
                    walk_back-IsSound rounds (back + 1) slot.seq
                      (record plan { catch_up = plan.catch_up + 1 }) fits (fits q) nf (omega arith)
                      (Suffix_move n e'
                        (Suffix_take back q expected (plan.catch_up + 1) h ch nx s')))
              ]
        ]
      ]

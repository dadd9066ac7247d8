-- ===== src/Select/Plan.antt =====
-- src/frame-ring.hpp, ringselect::PlanDecodeStart: where decoding starts so that the frame due can
-- be shown.
use native.Mathlib.Omega.{arith}
use obs_trigglow_dynamic_del.Prelude.{
  ℕ, ◌+◌, ◌-◌, ◌≡◌, refl, sym, subst, inl, inr, true, false, some, leb, Bool-cases,
}
use obs_trigglow_dynamic_del.Select.{
  CodecId, codec_eq, no_cursor, decodable, ChainSlot, DecodeStart, no_start, next_key, walk_back,
  plan_decode_start,
}
use obs_trigglow_dynamic_del.Select.Replay.{replay}
use obs_trigglow_dynamic_del.Select.Walk.{SeqFits, IsSound, SoundIfFound, Suffix, walk_back-IsSound}

pub codec_eq_refl : (c : CodecId) → codec_eq c c ≡ true
codec_eq_refl CodecId.raw = refl
codec_eq_refl c = refl

module _ (count due : ℕ) (chain_at : ℕ → ChainSlot) where
  -- The plan before the second loop.
  abbrev pub first_plan : DecodeStart
  first_plan = record no_start { next_key_pos = next_key (count - (due + 1)) (due + 1) chain_at }

  plan_out : leb count due ≡ true → plan_decode_start count due chain_at ≡ no_start
  unfolding plan_decode_start
  plan_out h = ground arith

  plan_not_ready : (chain_at due).ready ≡ false → plan_decode_start count due chain_at ≡ no_start
  unfolding plan_decode_start
  plan_not_ready h = ground arith

  pub plan_key :
      leb count due ≡ false
      → (chain_at due).ready ≡ true
      → (chain_at due).key ≡ true
      → plan_decode_start count due chain_at ≡ record first_plan { found = true; key_pos = due }
  unfolding plan_decode_start
  plan_key h r k = ground arith

  pub plan_walk :
      leb count due ≡ false
      → (chain_at due).ready ≡ true
      → (chain_at due).key ≡ false
      → plan_decode_start count due chain_at
        ≡ walk_back due 1 due (chain_at due).seq (chain_at due) chain_at first_plan
  unfolding plan_decode_start
  plan_walk h r k = ground arith

  Suffix_due :
      (chain_at due).ready ≡ true
      → (chain_at due).key ≡ false
      → Suffix due chain_at 1 due (chain_at due).seq 1
  unfolding replay decodable
  Suffix_due r k c v ch e = ground (arith, codec_eq_refl (chain_at due).codec)

  key_alone :
      (chain_at due).ready ≡ true
      → (chain_at due).key ≡ true
      → replay (chain_at due).codec chain_at 1 due no_cursor ≡ some 1
  unfolding replay decodable
  key_alone r k = ground (arith, codec_eq_refl (chain_at due).codec)

-- When PlanDecodeStart finds a start, the plan IsSound: its key position holds a Ready key of the
-- due frame's codec at or before the due position, and a decoder of that codec that starts there
-- with nothing decoded gets through every packet up to the frame due, which is the last of
-- `catch_up + 1` packets. The sequence numbers are `uint32_t` values.
pub plan_decode_start-IsSound :
    (count due : ℕ) (chain_at : ℕ → ChainSlot)
    → SeqFits due chain_at
    → (plan_decode_start count due chain_at).found ≡ true
    → IsSound due chain_at (plan_decode_start count due chain_at)
plan_decode_start-IsSound count due chain_at fits = elim (Bool-cases (leb count due)) [
  | inl out ↦ subst Goal (sym (plan_out count due chain_at out)) (λ y. cc)
  | inr inside ↦ elim (Bool-cases (chain_at due).ready) [
    | inr r ↦ subst Goal (sym (plan_not_ready count due chain_at r)) (λ y. cc)
    | inl r ↦ elim (Bool-cases (chain_at due).key) [
      | inl k ↦ subst Goal (sym (plan_key count due chain_at inside r k)) (λ y. record {
        key_inside = omega arith;
        key_ready = r;
        is_key = k;
        key_codec = codec_eq_refl (chain_at due).codec;
        reaches = start_at_due r k;
      })
      | inr k ↦ subst Goal (sym (plan_walk count due chain_at inside r k)) (
          walk_back-IsSound due chain_at due 1 (chain_at due).seq (first_plan count due chain_at)
            fits (fits due) refl refl (one_left r k))
    ]
  ]
]
  where
    Goal : DecodeStart → Type 0
    Goal = SoundIfFound due chain_at

    start_at_due :
        (chain_at due).ready ≡ true
        → (chain_at due).key ≡ true
        → replay (chain_at due).codec chain_at (due + 1 - due) due no_cursor ≡ some (0 + 1)
    start_at_due r k =
        let e : due + 1 - due ≡ 1 = omega arith in rw e (key_alone count due chain_at r k)

    one_left :
        (chain_at due).ready ≡ true
        → (chain_at due).key ≡ false
        → Suffix due chain_at 1 (due + 1 - 1) (chain_at due).seq (0 + 1)
    one_left r k =
        let e : due ≡ due + 1 - 1 = omega arith in
        subst (λ p. Suffix due chain_at 1 p (chain_at due).seq 1) e
          (Suffix_due count due chain_at r k)

-- ===== src/Select/Complete.antt =====
-- src/frame-ring.hpp, ringselect::PlanDecodeStart: the starts that it finds.
use native.Mathlib.Omega.{arith}
use native.Mathlib.Decide.{dec_lt}
use obs_trigglow_dynamic_del.Prelude.{
  ℕ, zero, suc, ◌+◌, ◌-◌, ◌≤◌, ◌<◌, ◌≡◌, refl, sym, subst, ap, ◌∙◌, inl, inr, true, false, some,
  Bool-cases, u32_mod, leb,
}
use obs_trigglow_dynamic_del.Select.{
  ChainCursor, no_cursor, decodable, ChainSlot, DecodeStart, walk_back, plan_decode_start,
}
use obs_trigglow_dynamic_del.Select.Replay.{
  replay, passes, after_slot, replay-pass, replay-inv, replay-step,
}
use obs_trigglow_dynamic_del.Select.Walk.{
  SeqFits, next_seq, precedes, step_pass, step_key, step_more,
}
use obs_trigglow_dynamic_del.Select.Plan.{codec_eq_refl, plan_key, plan_walk, first_plan}

module _ (due : ℕ) (chain_at : ℕ → ChainSlot) where
  -- From position `p` on a decoder gets through `n` positions only after the packet before
  -- `expected` of the due frame's chain.
  abbrev Needs : ℕ → ℕ → ℕ → Type 0
  Needs n p expected =
      (c : ChainCursor) (m : ℕ)
      → replay (chain_at due).codec chain_at n p c ≡ some m
      → (c.valid ≡ true) × (c.chain ≡ (chain_at due).chain) × (next_seq c.seq ≡ expected)

  Needs-pass :
      (n q expected : ℕ)
      → passes (chain_at due).codec (chain_at q) ≡ true
      → Needs n (q + 1) expected
      → Needs (suc n) q expected
  Needs-pass n q expected h s c m e =
      s c m (sym (replay-pass (chain_at due).codec chain_at n q c h) ∙ e)

  Needs-take :
      (n q : ℕ)
      → passes (chain_at due).codec (chain_at q) ≡ false
      → (chain_at q).key ≡ false
      → (chain_at q).chain ≡ (chain_at due).chain
      → Needs (suc n) q (chain_at q).seq
  unfolding decodable
  Needs-take n q h k ch c m e =
      let (d, _) = replay-inv (chain_at due).codec chain_at n q c m h e in
      (ground arith, ground arith, ground arith)

  Needs-due :
      (chain_at due).key ≡ false
      → passes (chain_at due).codec (chain_at due) ≡ false
      → Needs 1 due (chain_at due).seq
  Needs-due k h = Needs-take 0 due h k refl

  Needs-move : {m n p q expected : ℕ} → m ≡ n → p ≡ q → Needs m p expected → Needs n q expected
  Needs-move {m = m} {q = q} {expected = expected} e e' s =
      subst (λ n. Needs n q expected) e (subst (λ q. Needs m q expected) e' s)

  -- A decoder that gets from `s` to the frame due gets from `q` there too, with some cursor.
  alive :
      (d n s l q : ℕ) (c : ChainCursor) (m : ℕ)
      → l ≡ d + n
      → s + d ≡ q
      → replay (chain_at due).codec chain_at l s c ≡ some m
      → (c' : ChainCursor) × (k : ℕ) × (replay (chain_at due).codec chain_at n q c' ≡ some k)
  alive zero n s l q c m el eq e =
      let el' : l ≡ n = omega arith in let eq' : s ≡ q = omega arith in (c, m, rw (← el', ← eq') e)
  alive (suc d) n s l q c m el eq e =
      let el' : l ≡ suc (d + n) = omega arith in
      let (c', k, e') = replay-step (chain_at due).codec chain_at (d + n) s c m (rw el' at e) in
      alive d n (s + 1) (d + n) q c' k refl (omega arith) e'

  -- Nothing decodes the frame due from where the chain is missing a packet.
  not_here :
      (n p expected s m : ℕ)
      → Needs n p expected
      → s ≡ p
      → due + 1 - s ≡ n
      → replay (chain_at due).codec chain_at (due + 1 - s) s no_cursor ≡ some m
      → ⊥
  not_here n p expected s m needs es en e =
      let start = needs no_cursor m (rw (← en, ← es) e) in cc start.0

  precedes_of :
      (slot : ChainSlot) (expected : ℕ)
      → slot.seq < u32_mod
      → slot.chain ≡ (chain_at due).chain
      → next_seq slot.seq ≡ expected
      → precedes slot (chain_at due) expected ≡ true
  precedes_of slot expected f ch e = ground arith

  walk_back_finds :
      (rounds back expected : ℕ) (plan : DecodeStart) (s m : ℕ)
      → SeqFits due chain_at
      → rounds + back ≡ due + 1
      → s + back ≤ due + 1
      → Needs back (due + 1 - back) expected
      → replay (chain_at due).codec chain_at (due + 1 - s) s no_cursor ≡ some m
      → (walk_back rounds back due expected (chain_at due) chain_at plan).found ≡ true
  walk_back_finds zero back expected plan s m fits er below needs e =
      absurd (not_here back (due + 1 - back) expected s m needs (omega arith) (omega arith) e)
  walk_back_finds (suc rounds) back expected plan s m fits er below needs e =
      elim (dec_lt (s + back) (due + 1)) [
        | no here ↦
            absurd (not_here back (due + 1 - back) expected s m needs (omega arith) (omega arith) e)
        | yes before ↦
            let q : ℕ = due - back in
            let slot = chain_at q in
            let at : due + 1 - back ≡ q + 1 = omega arith in
            let at' : q ≡ due + 1 - (back + 1) = omega arith in
            let n : suc back ≡ back + 1 = omega arith in
            let needs' : Needs back (q + 1) expected = Needs-move refl at needs in
            let (c, k, r) =
              alive (q - s) (suc back) s (due + 1 - s) q no_cursor m (omega arith) (omega arith)
                e in
            elim (Bool-cases (passes (chain_at due).codec slot)) [
              | inl h ↦
                  ap (λ (d : DecodeStart). d.found)
                    (step_pass due chain_at rounds back expected plan h)
                  ∙ walk_back_finds rounds (back + 1) expected plan s m fits (omega arith)
                      (omega arith) (Needs-move n at' (Needs-pass back q expected h needs')) e
              | inr h ↦
                  let (d, (j, t)) = replay-inv (chain_at due).codec chain_at back q c k h r in
                  let (v, ch, nx) = needs' (after_slot slot) j t in
                  let pr = precedes_of slot expected (fits q) ch nx in
                  elim (Bool-cases slot.key) [
                    | inl key ↦
                        ap (λ (d : DecodeStart). d.found)
                          (step_key due chain_at rounds back expected plan h pr key)
                    | inr key ↦
                        ap (λ (d : DecodeStart). d.found)
                          (step_more due chain_at rounds back expected plan h pr key)
                        ∙ walk_back_finds rounds (back + 1) slot.seq
                            (record plan { catch_up = plan.catch_up + 1 }) s m fits (omega arith)
                            (omega arith) (Needs-move n at' (Needs-take back q h key ch)) e
                  ]
            ]
      ]

-- PlanDecodeStart finds a start whenever there is one: if the Ready frame at position `due` can be
-- reached by a decoder of its codec that starts with nothing decoded at some position `s` up to
-- `due`, the plan is found. The sequence numbers are `uint32_t` values.
pub plan_decode_start_finds :
    (count due : ℕ) (chain_at : ℕ → ChainSlot) (s m : ℕ)
    → SeqFits due chain_at
    → due < count
    → (chain_at due).ready ≡ true
    → s ≤ due
    → replay (chain_at due).codec chain_at (due + 1 - s) s no_cursor ≡ some m
    → (plan_decode_start count due chain_at).found ≡ true
plan_decode_start_finds count due chain_at s m fits inside r h e =
    elim (Bool-cases (chain_at due).key) [
      | inl k ↦ ap (λ (d : DecodeStart). d.found) (plan_key count due chain_at in_ring r k)
      | inr k ↦
          ap (λ (d : DecodeStart). d.found) (plan_walk count due chain_at in_ring r k)
          ∙ walk_back_finds due chain_at due 1 (chain_at due).seq (first_plan count due chain_at) s
              m fits refl (omega arith)
              (Needs-move due chain_at refl (omega arith) (Needs-due due chain_at k not_passed)) e
    ]
  where
    in_ring : leb count due ≡ false
    in_ring = ground arith

    not_passed : passes (chain_at due).codec (chain_at due) ≡ false
    not_passed = ground (arith, codec_eq_refl (chain_at due).codec)

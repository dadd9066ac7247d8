-- ===== src/Select/Replay.antt =====
-- The decoder's side of src/frame-ring.hpp's ringselect: what a decoder of one codec does over
-- consecutive ring positions. It is a description of its own, and shares no code with PlanDecodeStart.
use obs_trigglow_dynamic_del.Prelude.{
  ℕ, zero, suc, ◌+◌, ◌≡◌, Bool, true, false, not, ◌||◌, Option, none, some, if◌then◌else◌, arith,
  Bool-cases, inl, inr,
}
use obs_trigglow_dynamic_del.Select.{CodecId, codec_eq, ChainCursor, decodable, ChainSlot}

abbrev pub after_slot : ChainSlot → ChainCursor
after_slot slot = record { valid = true; chain = slot.chain; seq = slot.seq }

abbrev pub count_one : Option ℕ → Option ℕ
count_one none = none
count_one (some n) = some (n + 1)

-- The slots that a decoder of `codec` has nothing to do with: not Ready, or of another codec.
abbrev pub passes : CodecId → ChainSlot → Bool
passes codec slot = not slot.ready || not (codec_eq slot.codec codec)

module _ (codec : CodecId) (chain_at : ℕ → ChainSlot) where
  -- Decodes the packets at `n` positions from `p` on, after the packet of the cursor: how many, or
  -- `none` if one of them cannot be decoded.
  unfoldable pub replay : ℕ → ℕ → ChainCursor → Option ℕ
  replay zero p cursor = some 0
  replay (suc n) p cursor =
      let slot = chain_at p in
      if passes codec slot
      then replay n (p + 1) cursor
      else if decodable slot.key slot.chain slot.seq cursor
      then count_one (replay n (p + 1) (after_slot slot))
      else none

  pub replay-pass :
      (n p : ℕ) (cursor : ChainCursor)
      → passes codec (chain_at p) ≡ true
      → replay (suc n) p cursor ≡ replay n (p + 1) cursor
  unfolding replay
  replay-pass n p cursor h = ground arith

  pub replay-take :
      (n p : ℕ) (cursor : ChainCursor)
      → passes codec (chain_at p) ≡ false
      → decodable (chain_at p).key (chain_at p).chain (chain_at p).seq cursor ≡ true
      → replay (suc n) p cursor ≡ count_one (replay n (p + 1) (after_slot (chain_at p)))
  unfolding replay
  replay-take n p cursor h d = ground arith

  -- A replay that gets past a packet decoded it, and goes on from it.
  pub replay-inv :
      (n p : ℕ) (cursor : ChainCursor) (m : ℕ)
      → passes codec (chain_at p) ≡ false
      → replay (suc n) p cursor ≡ some m
      → (decodable (chain_at p).key (chain_at p).chain (chain_at p).seq cursor ≡ true)
        × ((k : ℕ) × (replay n (p + 1) (after_slot (chain_at p)) ≡ some k))
  unfolding replay
  replay-inv n p cursor m h e = ground arith

  -- A replay that succeeds goes on from the next position, with some cursor.
  pub replay-step :
      (n p : ℕ) (cursor : ChainCursor) (m : ℕ)
      → replay (suc n) p cursor ≡ some m
      → (c : ChainCursor) × (k : ℕ) × (replay n (p + 1) c ≡ some k)
  replay-step n p cursor m e = elim (Bool-cases (passes codec (chain_at p))) [
    | inl h ↦ (cursor, m, ground (arith, replay-pass n p cursor))
    | inr h ↦ let (d, (k, r)) = replay-inv n p cursor m h e in (after_slot (chain_at p), k, r)
  ]

-- ===== src/Ring/Reserve.antt =====
-- src/frame-ring.cpp, FrameRing::Reserve: the new slot goes to the end of the window, and takes the
-- oldest one's place once the ring is full.
use native.Mathlib.Omega.{arith}
use obs_trigglow_dynamic_del.Prelude.{
  ℕ, ◌+◌, ◌-◌, ◌%◌, max, ◌≤◌, ◌<◌, ◌≡◌, refl, ap, ◌∙◌, inl, inr, false, ◌==◌, ltb, if◌then◌else◌,
  mod_wrap, length, length-set, Bool-cases, some, add_u64,
}
use obs_trigglow_dynamic_del.Ring.{
  FrameRing, Reservation, Header, header_at, index_at, at_position, capture_at, claim, reserve,
  reserve_header, is_busy,
}
use obs_trigglow_dynamic_del.Ring.Slots.{index_at_lem, header_at-put}
use obs_trigglow_dynamic_del.Ring.Invariant.{IsValid, Layout}

module _ (r : FrameRing) (generation capture tag : ℕ) (v : IsValid r generation) where
  abbrev pub n : ℕ
  n = length r.headers

  abbrev pub s : FrameRing
  s = claim r generation capture tag

  abbrev pub new : Header
  new = reserve_header (header_at r r.write_index) (max capture r.last_capture_ns) generation tag

  length-claim : length s.headers ≡ n
  unfolding claim
  length-claim = length-set r.headers r.write_index new

  write_index-claim : s.write_index ≡ (if ltb (r.write_index + 1) n then r.write_index + 1 else 0)
  unfolding claim
  write_index-claim = ground (arith, mod_wrap (r.write_index + 1) n)

  pub buffered-claim : s.buffered ≡ (if ltb r.buffered n then r.buffered + 1 else n)
  unfolding claim
  buffered-claim = ground (arith, v.layout)

  oldest_eq : s.oldest ≡ (s.write_index + n - s.buffered) % n
  unfolding claim
  oldest_eq = refl

  oldest-claim : s.oldest ≡ (if ltb r.buffered n then 0 else s.write_index)
  oldest-claim =
      oldest_eq
      ∙ ground (
        arith,
        mod_wrap (s.write_index + n - s.buffered) n,
        write_index-claim,
        buffered-claim,
        v.layout,
        v.write_in,
      )

  pub Layout-claim : Layout s
  Layout-claim = ground (
    arith, length-claim, write_index-claim, buffered-claim, oldest-claim, v.layout, v.write_in,
    v.some_slot,
  )

  pub at_claim : (j : ℕ) → header_at s j ≡ (if r.write_index == j then new else header_at r j)
  unfolding claim
  at_claim j = header_at-put r r.write_index j new v.write_in

  oldest_in : r.oldest < n
  oldest_in = omega (arith, v.layout, v.write_in, v.some_slot)

  facts : (s.oldest < n) × (s.buffered ≤ n) × (s.write_index < n)
  facts = (
    ground (arith, oldest-claim, write_index-claim, v.some_slot),
    ground (arith, buffered-claim),
    ground (arith, write_index-claim, v.some_slot),
  )

  index_before :
      (p : ℕ)
      → p < n
      → index_at r p ≡ (if ltb (r.oldest + p) n then r.oldest + p else r.oldest + p - n)
  index_before p h = index_at_lem r p v.small oldest_in h

  index_after :
      (p : ℕ)
      → p < n
      → index_at s p ≡ (if ltb (s.oldest + p) n then s.oldest + p else s.oldest + p - n)
  index_after p h = ground (
    arith,
    length-claim,
    index_at_lem s p (omega (arith, length-claim, v.small))
        (omega (arith, length-claim, oldest-claim, write_index-claim, v.some_slot, facts))
        (omega (arith, length-claim)),
  )

  old_index :
      (p : ℕ)
      → p + 1 < s.buffered
      → (index_at s p ≡ index_at r (if ltb r.buffered n then p else p + 1))
        × ((r.write_index == index_at s p) ≡ false)
  old_index p h = elim (Bool-cases (ltb r.buffered n)) [
    | inl filling ↦ rw filling (
      ground (
        arith,
        index_after p (omega (arith, facts)),
        index_before p (omega (arith, facts)),
        oldest-claim,
        buffered-claim,
        v.layout,
      ),
      ground (arith, index_after p (omega (arith, facts)), oldest-claim, buffered-claim, v.layout),
    )
    | inr full ↦ rw full (
      ground (
        arith,
        index_after p (omega (arith, facts)),
        index_before (p + 1) (omega (arith, facts)),
        oldest-claim,
        write_index-claim,
        v.layout,
        v.write_in,
      ),
      ground (
        arith,
        index_after p (omega (arith, facts)),
        oldest-claim,
        write_index-claim,
        buffered-claim,
        v.layout,
        v.write_in,
      ),
    )
  ]

  new_index : (p : ℕ) → p + 1 ≡ s.buffered → index_at s p ≡ r.write_index
  new_index p h = ground (
    arith,
    index_after p (omega (arith, facts)),
    oldest-claim,
    buffered-claim,
    write_index-claim,
    v.layout,
    v.write_in,
  )

  -- The positions of the window after a Reserve: those that were there, one less if the ring was
  -- full, and the new slot last.
  pub at_old_position :
      (p : ℕ)
      → p + 1 < s.buffered
      → at_position s p ≡ at_position r (if ltb r.buffered n then p else p + 1)
  at_old_position p h =
      let (e, ne) = old_index p h in at_claim (index_at s p) ∙ rw ne (ap (header_at r) e)

  pub at_new_position : (p : ℕ) → p + 1 ≡ s.buffered → at_position s p ≡ new
  at_new_position p h = at_claim (index_at s p) ∙ ground (arith, new_index p h)

  capture_old :
      (p : ℕ)
      → p + 1 < s.buffered
      → capture_at s p ≡ capture_at r (if ltb r.buffered n then p else p + 1)
  capture_old p h = ap (λ (x : Header). x.capture_ns) (at_old_position p h)

  capture_new : (p : ℕ) → p + 1 ≡ s.buffered → capture_at s p ≡ max capture r.last_capture_ns
  capture_new p h = ap (λ (x : Header). x.capture_ns) (at_new_position p h)

  last-claim : s.last_capture_ns ≡ max capture r.last_capture_ns
  unfolding claim
  last-claim = refl

  newest-claim : (p : ℕ) → p < s.buffered → capture_at s p ≤ s.last_capture_ns
  newest-claim p h = elim (Bool-cases (p + 1 == s.buffered)) [
    | inl e ↦ ground (arith, capture_new p, last-claim)
    | inr e ↦
        let q = if ltb r.buffered n then p else p + 1 in
        ground (arith, capture_old p, last-claim, v.newest q, buffered-claim, v.layout)
  ]

  pub ordered-claim : (p q : ℕ) → p ≤ q → q < s.buffered → capture_at s p ≤ capture_at s q
  ordered-claim p q h k = elim (Bool-cases (q + 1 == s.buffered)) [
    | inl e ↦ ground (arith, capture_new q, newest-claim p, last-claim)
    | inr e ↦
        let p' = if ltb r.buffered n then p else p + 1 in
        let q' = if ltb r.buffered n then q else q + 1 in
        ground (arith, capture_old p, capture_old q, v.ordered p' q', buffered-claim, v.layout)
  ]

  -- A successful Reserve keeps the ring valid, with the next generation.
  pub claim-IsValid : ltb 0 (header_at r r.write_index).pins ≡ false → IsValid s (generation + 1)
  claim-IsValid idle = record {
    some_slot = omega (arith, length-claim, v.some_slot);
    small = omega (arith, length-claim, v.small);
    write_in = omega (arith, length-claim, facts);
    layout = Layout-claim;
    ordered = ordered-claim;
    newest = newest-claim;
    older = λ i. ground (arith, at_claim i, v.older i);
    pinned = λ i b. ground (arith, at_claim i, v.pinned i);
    unused = λ i b. at_claim i ∙ ground (arith, v.unused i, buffered-claim, v.layout);
  }

-- A successful Reserve: the slot was not in use, and the ring after it.
pub reserve_inv :
    (r s : FrameRing) (g g' capture tag : ℕ) (reservation : Reservation)
    → reserve r g capture tag ≡ (some reservation, s, g')
    → (is_busy (header_at r r.write_index) ≡ false)
      × (s ≡ claim r g capture tag)
      × (g' ≡ add_u64 g 1)
      × (reservation.index ≡ r.write_index)
      × (reservation.generation ≡ g)
      × (reservation.capture_ns ≡ max capture r.last_capture_ns)
unfolding reserve
reserve_inv r s g g' capture tag reservation e =
    elim (Bool-cases (is_busy (header_at r r.write_index))) [
      | inl busy ↦ absurd (ground arith)
      | inr idle ↦ (idle, ground arith, ground arith, ground arith, ground arith, ground arith)
    ]

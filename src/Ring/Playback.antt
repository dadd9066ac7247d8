-- ===== src/Ring/Playback.antt =====
-- The positions that the readers of src/frame-ring.cpp pin: PinNextForDecode, PinNextInRange,
-- PinForDisplay.
use native.Mathlib.Omega.{arith}
use obs_trigglow_dynamic_del.Prelude.{
  ℕ, zero, suc, ◌+◌, ◌-◌, ◌≤◌, ◌<◌, ◌≡◌, subst, ◌⊎◌, inl, inr, true, not, ◌&&◌, ◌==◌, ltb, add_u64,
  Bool-cases, some, ltb→lt,
}
use obs_trigglow_dynamic_del.Select.{select_for_display}
use obs_trigglow_dynamic_del.Select.Search.{Ordered, last_at_or_before_lem}
use obs_trigglow_dynamic_del.Select.Display.{IsShown, select_for_display_lem}
use obs_trigglow_dynamic_del.Ring.{
  FrameRing, capture_at, ready_at, decode_position, next_for_decode, next_in_range,
  display_position, first_after,
}

-- A position between two others, Ready, and not younger than `end`.
pub record IsPick (r : FrameRing) (lo hi end p : ℕ) : Type 0 where
  pub from : lo ≤ p
  pub inside : p < hi
  pub is_ready_slot : ready_at r p ≡ true
  pub in_time : capture_at r p ≤ end

module _ (r : FrameRing) where
  next_for_decode-IsPick :
      (rounds p hi target window_end q : ℕ)
      → rounds + p ≤ hi
      → next_for_decode rounds p r target window_end ≡ some q
      → IsPick r p hi window_end q
  unfolding next_for_decode
  next_for_decode-IsPick zero p hi target window_end q h e = cc
  next_for_decode-IsPick (suc rounds) p hi target window_end q h e =
      ground (arith, next_for_decode-IsPick rounds (p + 1) hi target window_end q)

  next_in_range-IsPick :
      (rounds p hi after until q : ℕ)
      → rounds + p ≤ hi
      → next_in_range rounds p r after until ≡ some q
      → IsPick r p hi until q × (after < capture_at r q)
  unfolding next_in_range
  next_in_range-IsPick zero p hi after until q h e = cc
  next_in_range-IsPick (suc rounds) p hi after until q h e =
      ground (arith, next_in_range-IsPick rounds (p + 1) hi after until q)

  module _ (ordered : Ordered r.buffered (capture_at r)) where
    -- From `first_after` on every capture time is past the time asked for.
    first_after_lem : (time q : ℕ) → q < r.buffered → first_after r time ≤ q → time < capture_at r q
    first_after_lem time q h k =
        elim (last_at_or_before_lem r.buffered time (capture_at r) ordered) [
          | inr (e, young) ↦ young q h
          | inl l ↦ l.later q (ground (arith, l.inside)) h
        ]

    first_after_in : (time : ℕ) → first_after r time ≤ r.buffered
    first_after_in time = elim (last_at_or_before_lem r.buffered time (capture_at r) ordered) [
      | inr (e, young) ↦ ground arith
      | inl l ↦ ground (arith, l.inside)
    ]

    pub display_lem :
        (target max_back p : ℕ)
        → display_position r target max_back ≡ some p
        → IsShown r.buffered target max_back (capture_at r) (ready_at r) p
    display_lem target max_back p e =
        elim (select_for_display_lem r.buffered target max_back (capture_at r) (ready_at r)
          ordered) [
            | inl shown ↦
                let p' =
                  select_for_display r.buffered target max_back (capture_at r) (ready_at r) in
                let eq : p' ≡ p = ground arith in
                subst (λ q. IsShown r.buffered target max_back (capture_at r) (ready_at r) q) eq
                  shown
            | inr (none_shown, _) ↦ absurd (ground arith)
          ]

    -- What PinNextForDecode picks: a Ready slot after the decoder's position, due already or inside
    -- the decode-ahead window.
    pub decode_lem :
        (after target window_end late p : ℕ)
        → decode_position r after target window_end late ≡ some p
        → (p < r.buffered)
          × (ready_at r p ≡ true)
          × (after < capture_at r p)
          × ((capture_at r p ≤ target) ⊎ (capture_at r p ≤ window_end))
    unfolding decode_position
    decode_lem after target window_end late p e =
        let shown = select_for_display r.buffered target 8 (capture_at r) (ready_at r) in
        elim (Bool-cases (
          ltb (add_u64 after late) target
          && not (shown == r.buffered)
          && ltb after (capture_at r shown))) [
            | inl jump ↦
                let eq : shown ≡ p = ground arith in
                let s = display_lem target 8 p (ground arith) in
                (
                  s.inside,
                  s.is_ready,
                  subst (λ q. after < capture_at r q) eq
                      (ltb→lt after (capture_at r shown) (ground arith)),
                  inl s.no_future,
                )
            | inr go ↦
                let first = first_after r after in
                let s =
                  next_for_decode-IsPick (r.buffered - first) first r.buffered target window_end p
                    (omega (arith, first_after_in after)) (ground arith) in
                (s.inside, s.is_ready_slot, first_after_lem after p s.inside s.from, inr s.in_time)
          ]

    pub range_lem :
        (after until p : ℕ)
        → next_in_range (r.buffered - first_after r after) (first_after r after) r after until
          ≡ some p
        → (p < r.buffered)
          × (ready_at r p ≡ true)
          × (after < capture_at r p)
          × (capture_at r p ≤ until)
    range_lem after until p e =
        let (s, later) =
          next_in_range-IsPick (r.buffered - first_after r after) (first_after r after) r.buffered
            after until p (omega (arith, first_after_in after)) e in
        (s.inside, s.is_ready_slot, later, s.in_time)

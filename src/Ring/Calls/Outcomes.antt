-- ===== src/Ring/Calls/Outcomes.antt =====
-- Each call of the ring has one of the outcomes of `Ring.Calls`.
use native.Mathlib.Omega.{arith}
use obs_trigglow_dynamic_del.Prelude.{
  ℕ, ◌-◌, ◌<◌, ◌≡◌, refl, inl, inr, true, not, ◌&&◌, ◌||◌, ◌==◌, ltb, leb, add_u64, length,
  Bool-cases, Option, some, none,
}
use obs_trigglow_dynamic_del.Ring.{
  FrameRing, Payload, ReadView, header_at, index_at, is_reserved, is_encoding, is_busy, reserve,
  mark_dropped, begin_encode, publish, fill_view, pin_at, pin_next_for_decode, pin_next_in_range,
  pin_for_display, unpin,
}
use obs_trigglow_dynamic_del.Ring.Invariant.{IsValid}
use native.Mathlib.Nat.{mod-lt}
use obs_trigglow_dynamic_del.Ring.Playback.{display_lem, decode_lem, range_lem}
use obs_trigglow_dynamic_del.Ring.{
  decode_position, next_in_range, display_position, first_after, ready_at,
}
use obs_trigglow_dynamic_del.Ring.Calls.{
  Call, step, drop, begin, finish, pin, release, Outcome, same, refused, edited, claimed,
}

module _ (r : FrameRing) (g : ℕ) where
  reserve-Outcome : (capture tag : ℕ) → let (_, s, g') = reserve r g capture tag in Outcome r g s g'
  unfolding reserve
  reserve-Outcome capture tag = elim (Bool-cases (is_busy (header_at r r.write_index))) [
    | inl busy ↦ rw busy (refused _ refl refl)
    | inr idle ↦ rw idle (claimed capture tag idle refl refl)
  ]

  drop-Outcome : (i generation : ℕ) → Outcome r g (mark_dropped r i generation).1 g
  unfolding mark_dropped
  drop-Outcome i generation = elim (Bool-cases (leb (length r.headers) i)) [
    | inl out ↦ rw out (same refl refl)
    | inr inside ↦
        let h = header_at r i in
        elim (Bool-cases (
          not (h.generation == generation)
          || (not (is_reserved h.state) && not (is_encoding h.state)))) [
            | inl stale ↦ rw (inside, stale) (same refl refl)
            | inr fresh ↦
                rw (inside, fresh) (edited i _ (ground arith) (drop (ground arith) refl) refl refl)
          ]
  ]

  begin-Outcome : (i generation : ℕ) → Outcome r g (begin_encode r i generation).1 g
  unfolding begin_encode
  begin-Outcome i generation = elim (Bool-cases (leb (length r.headers) i)) [
    | inl out ↦ rw out (same refl refl)
    | inr inside ↦
        let h = header_at r i in
        elim (Bool-cases (not (h.generation == generation) || not (is_reserved h.state))) [
          | inl stale ↦ rw (inside, stale) (same refl refl)
          | inr fresh ↦
              rw (inside, fresh) (edited i _ (ground arith) (begin (ground arith) refl) refl refl)
        ]
  ]

  publish-Outcome :
      (i generation : ℕ) (payload : Payload) → Outcome r g (publish r i generation payload).1 g
  unfolding publish
  publish-Outcome i generation payload = elim (Bool-cases (leb (length r.headers) i)) [
    | inl out ↦ rw out (same refl refl)
    | inr inside ↦
        let h = header_at r i in
        elim (Bool-cases (not (h.generation == generation) || not (is_encoding h.state))) [
          | inl stale ↦ rw (inside, stale) (same refl refl)
          | inr fresh ↦
              rw (inside, fresh)
                (edited i _ (ground arith) (finish payload (ground arith) refl) refl refl)
        ]
  ]

  unpin-Outcome : (view : ReadView) → Outcome r g (unpin r view) g
  unfolding unpin
  unpin-Outcome view = elim (Bool-cases (leb (length r.headers) view.index)) [
    | inl out ↦ rw out (same refl refl)
    | inr inside ↦
        let h = header_at r view.index in
        elim (Bool-cases ((h.generation == view.generation) && ltb 0 h.pins)) [
          | inl held ↦
              rw (inside, held)
                (edited view.index _ (ground arith) (release (ground arith) refl) refl refl)
          | inr other ↦ rw (inside, other) (same refl refl)
        ]
  ]

  -- A Ready position of the window.
  abbrev IsPinnable : Option ℕ → Type 0
  IsPinnable none = Unit {0}
  IsPinnable (some p) = (p < r.buffered) × (ready_at r p ≡ true)

  module _ (v : IsValid r g) where
    index_in : (p : ℕ) → index_at r p < length r.headers
    index_in p = mod-lt (add_u64 r.oldest p) v.some_slot

    pin-Outcome : (p : Option ℕ) → IsPinnable p → Outcome r g (pin_at r p).1 g
    unfolding fill_view
    pin-Outcome none h = same refl refl
    pin-Outcome (some p) (h, e) =
        edited (index_at r p) _ (index_in p) (pin (ground arith) refl) refl refl

    display-IsPinnable : (target max_back : ℕ) → IsPinnable (display_position r target max_back)
    display-IsPinnable target max_back = go (display_position r target max_back) refl
      where
        go : (o : Option ℕ) → display_position r target max_back ≡ o → IsPinnable o
        go none e = tt
        go (some p) e =
            let s = display_lem r v.ordered target max_back p e in (s.inside, s.is_ready)

    decode-IsPinnable :
        (after target window_end late : ℕ)
        → IsPinnable (decode_position r after target window_end late)
    decode-IsPinnable after target window_end late =
        go (decode_position r after target window_end late) refl
      where
        go : (o : Option ℕ) → decode_position r after target window_end late ≡ o → IsPinnable o
        go none e = tt
        go (some p) e =
            let (h, k, _, _) = decode_lem r v.ordered after target window_end late p e in (h, k)

    range-IsPinnable :
        (after until : ℕ)
        → IsPinnable
            (next_in_range (r.buffered - first_after r after) (first_after r after) r after until)
    range-IsPinnable after until =
        go (next_in_range (r.buffered - first_after r after) (first_after r after) r after until)
          refl
      where
        go :
            (o : Option ℕ)
            → next_in_range (r.buffered - first_after r after) (first_after r after) r after until
              ≡ o
            → IsPinnable o
        go none e = tt
        go (some p) e = let (h, k, _, _) = range_lem r v.ordered after until p e in (h, k)

-- Every call on a valid ring has one of the outcomes: it changes nothing but the count of refusals,
-- or makes one step of the slot state machine on one slot, or claims the next slot, which was not
-- in use.
pub step-Outcome :
    (r : FrameRing) (g : ℕ) (c : Call)
    → IsValid r g
    → Outcome r g (step (r, g) c).0 (step (r, g) c).1
unfolding step pin_next_for_decode pin_next_in_range pin_for_display
step-Outcome r g (Call.reserves capture tag) v = reserve-Outcome r g capture tag
step-Outcome r g (Call.drops i generation) v = drop-Outcome r g i generation
step-Outcome r g (Call.begins i generation) v = begin-Outcome r g i generation
step-Outcome r g (Call.publishes i generation payload) v = publish-Outcome r g i generation payload
step-Outcome r g (Call.decodes after target window_end late) v =
    pin-Outcome r g v _ (decode-IsPinnable r g v after target window_end late)
step-Outcome r g (Call.catches_up after until) v =
    pin-Outcome r g v _ (range-IsPinnable r g v after until)
step-Outcome r g (Call.displays target max_back) v =
    pin-Outcome r g v _ (display-IsPinnable r g v target max_back)
step-Outcome r g (Call.unpins view) v = unpin-Outcome r g view

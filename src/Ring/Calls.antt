-- ===== src/Ring/Calls.antt =====
-- The calls of src/frame-ring.hpp's FrameRing from any of its threads, in the order in which they
-- take its mutex.
pub mod Outcomes
pub mod Machine
pub mod Stale
pub mod Pins
use native.Mathlib.Omega.{arith}
use obs_trigglow_dynamic_del.Prelude.{
  ℕ, zero, suc, ◌+◌, ◌-◌, ◌^◌, ◌%◌, ◌≤◌, ◌<◌, ◌≡◌, refl, ap, sym, ◌∙◌, ◌⊎◌, inl, inr, Bool, true,
  false, not, ◌&&◌, ◌||◌, ◌==◌, ltb, leb, add_u64, if◌then◌else◌, length, Bool-cases, Option, some,
  none, List, [], ◌∷◌,
}
use obs_trigglow_dynamic_del.Ring.{
  FrameRing, Header, Payload, ReadView, SlotState, free, reserved, encoding, ready, dropped,
  header_at, index_at, at_position, put_header, capture_at, is_ready, is_reserved, is_encoding,
  is_busy, claim, reserve, mark_dropped, begin_encode, publish, fill_view, pin_at,
  pin_next_for_decode, pin_next_in_range, pin_for_display, unpin,
}
use obs_trigglow_dynamic_del.Ring.Invariant.{IsValid, IsTouched, put-IsValid}
use obs_trigglow_dynamic_del.Ring.Reserve.{claim-IsValid}

pub data Call : Type 0 where
  reserves : (capture tag : ℕ) → Call
  drops : (index generation : ℕ) → Call
  begins : (index generation : ℕ) → Call
  publishes : (index generation : ℕ) → Payload → Call
  decodes : (after target window_end late : ℕ) → Call
  catches_up : (after until : ℕ) → Call
  displays : (target max_back : ℕ) → Call
  unpins : ReadView → Call

-- A ring, and the next generation of `g_nextGeneration`.
abbrev pub State : Type 0
State = FrameRing × ℕ

unfoldable pub step : State → Call → State
step (r, g) (reserves capture tag) = let (_, s, g') = reserve r g capture tag in (s, g')
step (r, g) (drops index generation) = ((mark_dropped r index generation).1, g)
step (r, g) (begins index generation) = ((begin_encode r index generation).1, g)
step (r, g) (publishes index generation payload) = ((publish r index generation payload).1, g)
step (r, g) (decodes after target window_end late) =
    ((pin_next_for_decode r after target window_end late).1, g)
step (r, g) (catches_up after until) = ((pin_next_in_range r after until).1, g)
step (r, g) (displays target max_back) = ((pin_for_display r target max_back).1, g)
step (r, g) (unpins view) = (unpin r view, g)

unfoldable pub run : State → List Call → State
run s [] = s
run s (c ∷ cs) = run (step s c) cs

-- The slot state machine of src/frame-ring.hpp's header comment, with the pins: how one call may
-- change one slot in place.
pub data Edit (h k : Header) : Type 0 where
  drop : (h.state ≡ reserved) ⊎ (h.state ≡ encoding) → k ≡ record h { state = dropped } → Edit h k
  begin : h.state ≡ reserved → k ≡ record h { state = encoding } → Edit h k
  finish :
      (payload : Payload)
      → h.state ≡ encoding
      → k ≡ record h { state = ready; payload = payload }
      → Edit h k
  pin : h.state ≡ ready → k ≡ record h { pins = (h.pins + 1) % 2 ^ 16 } → Edit h k
  release : 0 < h.pins → k ≡ record h { pins = h.pins - 1 } → Edit h k

-- What one call may do to the ring and the next generation: nothing but count a refusal, edit one
-- slot, or claim the next slot.
pub data Outcome (r : FrameRing) (g : ℕ) (s : FrameRing) (g' : ℕ) : Type 0 where
  same : s ≡ r → g' ≡ g → Outcome r g s g'
  refused : (n : ℕ) → s ≡ record r { reserve_failures = n } → g' ≡ g → Outcome r g s g'
  edited :
      (i : ℕ) (k : Header)
      → i < length r.headers
      → Edit (header_at r i) k
      → s ≡ put_header r i k
      → g' ≡ g
      → Outcome r g s g'
  claimed :
      (capture tag : ℕ)
      → is_busy (header_at r r.write_index) ≡ false
      → s ≡ claim r g capture tag
      → g' ≡ add_u64 g 1
      → Outcome r g s g'

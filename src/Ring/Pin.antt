-- ===== src/Ring/Pin.antt =====
-- A pin of src/frame-ring.cpp's FillViewLocked: the view, and the slot that has it.
use native.Mathlib.Nat.{mod-lt}
use obs_trigglow_dynamic_del.Prelude.{
  ℕ, ◌+◌, ◌%◌, ◌<◌, ◌≡◌, refl, ◌^◌, length, add_u64, ◌==◌, if◌then◌else◌, some,
}
use obs_trigglow_dynamic_del.Ring.{
  FrameRing, ReadView, at_position, index_at, header_at, capture_at, fill_view, pin_position,
}
use obs_trigglow_dynamic_del.Ring.Slots.{header_at-put}

-- The view shows the frame at a position of the ring.
pub record IsViewOf (r : FrameRing) (p : ℕ) (view : ReadView) : Type 0 where
  pub at_index : view.index ≡ index_at r p
  pub same_payload : view.payload ≡ (at_position r p).payload
  pub same_capture : view.capture_ns ≡ capture_at r p
  pub same_generation : view.generation ≡ (at_position r p).generation
  pub same_tag : view.tag ≡ (at_position r p).tag

-- The slot at a position of ring `r` has one pin more in `s`, modulo 2 ^ 16, and no other slot changed.
pub record IsPinned (r : FrameRing) (p : ℕ) (s : FrameRing) : Type 0 where
  pub headers :
      (i : ℕ)
      → header_at s i ≡ (
          if index_at r p == i
          then record (at_position r p) { pins = ((at_position r p).pins + 1) % 2 ^ 16 }
          else header_at r i)
  pub same_window : (s.oldest ≡ r.oldest) × (s.buffered ≡ r.buffered)

pub pin_position-IsPinned :
    (r : FrameRing) (p : ℕ) → 0 < length r.headers → IsPinned r p (pin_position r p).1
unfolding fill_view
pin_position-IsPinned r p h = record {
  headers = λ i. header_at-put r (index_at r p) i _ (mod-lt (add_u64 r.oldest p) h);
  same_window = (refl, refl);
}

pub pin_position-IsViewOf :
    (r : FrameRing) (p : ℕ)
    → (view : ReadView) × ((pin_position r p).0 ≡ some view) × IsViewOf r p view
unfolding fill_view
pin_position-IsViewOf r p = (
  (fill_view r (index_at r p)).0,
  refl,
  record {
    at_index = refl;
    same_payload = refl;
    same_capture = refl;
    same_generation = refl;
    same_tag = refl;
  },
)

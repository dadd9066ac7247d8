-- ===== src/Ring/Calls/Pins.antt =====
-- Pinned slots of src/frame-ring.cpp: a view's `data` until Unpin().
use native.Mathlib.Omega.{arith}
use obs_trigglow_dynamic_del.Prelude.{ℕ, ◌<◌, ◌≡◌, refl, true}
use obs_trigglow_dynamic_del.Ring.{FrameRing, Header, header_at, is_ready}
use obs_trigglow_dynamic_del.Ring.Invariant.{IsValid, at_put}
use obs_trigglow_dynamic_del.Ring.Reserve.{at_claim}
use obs_trigglow_dynamic_del.Ring.Calls.{
  Call, step, Edit, drop, begin, finish, pin, release, Outcome, same, refused, edited, claimed,
}
use obs_trigglow_dynamic_del.Ring.Calls.Outcomes.{step-Outcome}

-- The frame in a slot is the one that was there.
abbrev pub SameFrame : Header → Header → Type 0
SameFrame h k =
    (k.payload ≡ h.payload)
    × (k.capture_ns ≡ h.capture_ns)
    × (k.generation ≡ h.generation)
    × (is_ready k.state ≡ true)

Edit-SameFrame : {h k : Header} → is_ready h.state ≡ true → Edit h k → SameFrame h k
Edit-SameFrame p (drop s e) = absurd (ground arith)
Edit-SameFrame p (begin s e) = absurd (ground arith)
Edit-SameFrame p (finish payload s e) = absurd (ground arith)
Edit-SameFrame p (pin s e) = (ground arith, ground arith, ground arith, ground arith)
Edit-SameFrame p (release s e) = (ground arith, ground arith, ground arith, ground arith)

Outcome-SameFrame :
    {r : FrameRing} {g : ℕ} {s : FrameRing} {g' : ℕ} (j : ℕ)
    → IsValid r g
    → 0 < (header_at r j).pins
    → Outcome r g s g'
    → SameFrame (header_at r j) (header_at s j)
Outcome-SameFrame {r} j v h (same e f) = rw e (refl, refl, refl, v.pinned j h)
Outcome-SameFrame {r} j v h (refused n e f) = rw e (refl, refl, refl, v.pinned j h)
Outcome-SameFrame {r} j v h (edited i k inside t e f) = rw e (
    ground
      (arith, v.pinned j h, Edit-SameFrame {h = header_at r i} {k = k}, t, at_put r i k inside j))
Outcome-SameFrame {r} {g} j v h (claimed capture tag idle e f) =
    rw e (ground (arith, v.pinned j h, at_claim r g capture tag v j))

-- While a slot is pinned, no call of any thread changes the frame in it: a valid ring's pinned slot
-- is Ready, and after the call its payload, capture time and generation are the same and it is
-- still Ready.
pub pinned_frame_stays :
    (r : FrameRing) (g : ℕ) (c : Call) (i : ℕ)
    → IsValid r g
    → 0 < (header_at r i).pins
    → SameFrame (header_at r i) (header_at (step (r, g) c).0 i)
pinned_frame_stays r g c i v h = Outcome-SameFrame i v h (step-Outcome r g c v)

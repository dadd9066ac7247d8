-- ===== src/Ring/Calls/Stale.antt =====
-- Work in flight for a slot that was reserved again (src/frame-ring.hpp: "a stale job simply fails
-- its BeginEncode/Publish").
use native.Mathlib.Omega.{arith}
use obs_trigglow_dynamic_del.Prelude.{
  ℕ, ◌+◌, max, ◌≤◌, ◌<◌, ◌≡◌, false, add_u64, u64_mod, length, List, [], ◌∷◌, some,
}
use obs_trigglow_dynamic_del.Ring.{
  FrameRing, Header, Payload, Reservation, header_at, is_busy, claim, reserve, begin_encode,
  publish, mark_dropped,
}
use obs_trigglow_dynamic_del.Ring.Invariant.{IsValid, at_put}
use obs_trigglow_dynamic_del.Ring.Reserve.{claim-IsValid, at_claim, reserve_inv}
use obs_trigglow_dynamic_del.Ring.Calls.{
  Call, step, run, Edit, drop, begin, finish, pin, release, Outcome, same, refused, edited, claimed,
}
use obs_trigglow_dynamic_del.Ring.Calls.Outcomes.{step-Outcome}
use obs_trigglow_dynamic_del.Ring.Calls.Machine.{step-IsValid, step-generation}

Edit-generation : {h k : Header} → Edit h k → k.generation ≡ h.generation
Edit-generation (drop s e) = ground arith
Edit-generation (begin s e) = ground arith
Edit-generation (finish payload s e) = ground arith
Edit-generation (pin s e) = ground arith
Edit-generation (release s e) = ground arith

Outcome-generation_mono :
    {r : FrameRing} {g : ℕ} {s : FrameRing} {g' : ℕ} (j : ℕ)
    → IsValid r g
    → Outcome r g s g'
    → (header_at r j).generation ≤ (header_at s j).generation
Outcome-generation_mono {r} j v (same e f) = rw e (omega arith)
Outcome-generation_mono {r} j v (refused n e f) = rw e (omega arith)
Outcome-generation_mono {r} j v (edited i k h t e f) =
    rw e (ground (arith, Edit-generation t, at_put r i k h j))
Outcome-generation_mono {r} {g} j v (claimed capture tag idle e f) =
    rw e (ground (arith, at_claim r g capture tag v j, v.older j))

run_generation_mono :
    (r : FrameRing) (g : ℕ) (cs : List Call) (j : ℕ)
    → IsValid r g
    → g + length cs < u64_mod
    → (header_at r j).generation ≤ (header_at (run (r, g) cs).0 j).generation
unfolding run
run_generation_mono r g [] j v b = omega arith
run_generation_mono r g (c ∷ cs) j v b = omega (
  arith,
  Outcome-generation_mono j v (step-Outcome r g c v),
  run_generation_mono (step (r, g) c).0 (step (r, g) c).1 cs j (step-IsValid r g c v (omega arith))
      (omega (arith, step-generation r g c v (omega arith))),
)

fails_at :
    (r : FrameRing) (i k : ℕ) (payload : Payload)
    → k < (header_at r i).generation
    → (begin_encode r i k ≡ (false, r))
      × (publish r i k payload ≡ (false, r))
      × (mark_dropped r i k ≡ (false, r))
unfolding begin_encode publish mark_dropped
fails_at r i k payload h = (ground arith, ground arith, ground arith)

-- Once Reserve handed out a slot, and after any further calls, work that carries an older generation
-- for that slot fails its BeginEncode, its Publish and its MarkDropped, and leaves the ring as it
-- is. (The ring is valid and the generation counter does not wrap.)
pub stale_work_fails :
    (r s : FrameRing) (g g' capture tag k : ℕ) (reservation : Reservation) (cs : List Call)
    (payload : Payload)
    → IsValid r g
    → reserve r g capture tag ≡ (some reservation, s, g')
    → g + 1 + length cs < u64_mod
    → k < reservation.generation
    → let t = (run (s, g') cs).0 in
      (begin_encode t reservation.index k ≡ (false, t))
      × (publish t reservation.index k payload ≡ (false, t))
      × (mark_dropped t reservation.index k ≡ (false, t))
stale_work_fails r s g g' capture tag k reservation cs payload v e b h =
    fails_at (run (s, g') cs).0 reservation.index k payload
      (newer (reserve_inv r s g g' capture tag reservation e))
  where
    newer :
        (is_busy (header_at r r.write_index) ≡ false)
          × (s ≡ claim r g capture tag)
          × (g' ≡ add_u64 g 1)
          × (reservation.index ≡ r.write_index)
          × (reservation.generation ≡ g)
          × (reservation.capture_ns ≡ max capture r.last_capture_ns)
        → k < (header_at (run (s, g') cs).0 reservation.index).generation
    newer (idle, es, eg, ei, en, _) =
        let next : g' ≡ g + 1 = omega arith in
        let valid : IsValid s g' = rw (es, next) (claim-IsValid r g capture tag v (ground arith)) in
        omega (
          arith,
          run_generation_mono s g' cs reservation.index valid (omega arith),
          claimed_generation es ei,
        )
      where
        claimed_generation :
            s ≡ claim r g capture tag
            → reservation.index ≡ r.write_index
            → (header_at s reservation.index).generation ≡ g
        claimed_generation es ei =
            rw (es, ei) (ground (arith, at_claim r g capture tag v r.write_index))

-- ===== src/Ring/Calls/Machine.antt =====
-- The slot state machine of src/frame-ring.hpp under any interleaving of calls.
use native.Mathlib.Omega.{arith}
use obs_trigglow_dynamic_del.Prelude.{
  ℕ, ◌+◌, ◌≤◌, ◌<◌, ◌≡◌, Bool, true, false, add_u64, u64_mod, length, List, [], ◌∷◌,
}
use obs_trigglow_dynamic_del.Ring.{
  FrameRing, Header, SlotState, free, reserved, encoding, ready, dropped, header_at, is_ready,
}
use obs_trigglow_dynamic_del.Ring.Invariant.{IsValid, IsTouched, put-IsValid, at_put}
use obs_trigglow_dynamic_del.Ring.Reserve.{claim-IsValid, at_claim}
use obs_trigglow_dynamic_del.Ring.Calls.{
  Call, step, run, Edit, drop, begin, finish, pin, release, Outcome, same, refused, edited, claimed,
}
use obs_trigglow_dynamic_del.Ring.Calls.Outcomes.{step-Outcome}

Edit-IsTouched : {h k : Header} → (0 < h.pins → is_ready h.state ≡ true) → Edit h k → IsTouched h k
Edit-IsTouched p (drop s e) = ground (arith, p)
Edit-IsTouched p (begin s e) = ground (arith, p)
Edit-IsTouched p (finish payload s e) = ground (arith, p)
Edit-IsTouched p (pin s e) = ground (arith, p)
Edit-IsTouched p (release s e) = ground (arith, p)

Outcome-IsValid :
    {r : FrameRing} {g : ℕ} {s : FrameRing} {g' : ℕ}
    → IsValid r g
    → g + 1 < u64_mod
    → Outcome r g s g'
    → IsValid s g'
Outcome-IsValid {r} {g} v b (same e f) = rw (e, f) v
Outcome-IsValid {r} {g} v b (refused n e f) =
    rw (e, f)
      (record {
        some_slot = v.some_slot;
        small = v.small;
        write_in = v.write_in;
        layout = v.layout;
        ordered = v.ordered;
        newest = v.newest;
        older = v.older;
        pinned = v.pinned;
        unused = v.unused;
      })
Outcome-IsValid {r} {g} v b (edited i k h t e f) =
    rw (e, f) (put-IsValid r i k h v (Edit-IsTouched (v.pinned i) t))
Outcome-IsValid {r} {g} v b (claimed capture tag idle e f) =
    let f' : add_u64 g 1 ≡ g + 1 = omega arith in
    rw (e, f, f') (claim-IsValid r g capture tag v (ground arith))

-- Every call keeps the ring valid, while the generation counter does not wrap.
pub step-IsValid :
    (r : FrameRing) (g : ℕ) (c : Call)
    → IsValid r g
    → g + 1 < u64_mod
    → IsValid (step (r, g) c).0 (step (r, g) c).1
step-IsValid r g c v b = Outcome-IsValid v b (step-Outcome r g c v)

Outcome-generation :
    {r : FrameRing} {g : ℕ} {s : FrameRing} {g' : ℕ}
    → g + 1 < u64_mod
    → Outcome r g s g'
    → (g ≤ g') × (g' ≤ g + 1)
Outcome-generation b (same e f) = omega arith
Outcome-generation b (refused n e f) = omega arith
Outcome-generation b (edited i k h t e f) = omega arith
Outcome-generation b (claimed capture tag idle e f) = omega arith

pub step-generation :
    (r : FrameRing) (g : ℕ) (c : Call)
    → IsValid r g
    → g + 1 < u64_mod
    → (g ≤ (step (r, g) c).1) × ((step (r, g) c).1 ≤ g + 1)
step-generation r g c v b = Outcome-generation b (step-Outcome r g c v)

-- From any valid ring every sequence of calls leads to a valid ring, while the generation counter
-- does not wrap.
pub run-IsValid :
    (r : FrameRing) (g : ℕ) (cs : List Call)
    → IsValid r g
    → g + length cs < u64_mod
    → IsValid (run (r, g) cs).0 (run (r, g) cs).1
unfolding run
run-IsValid r g [] v b = v
run-IsValid r g (c ∷ cs) v b =
    run-IsValid (step (r, g) c).0 (step (r, g) c).1 cs (step-IsValid r g c v (omega arith))
      (omega (arith, step-generation r g c v (omega arith)))

-- The arrows of the state machine, and staying put.
abbrev pub can_move : SlotState → SlotState → Bool
can_move free free = true
can_move free reserved = true
can_move reserved reserved = true
can_move reserved encoding = true
can_move reserved dropped = true
can_move encoding encoding = true
can_move encoding ready = true
can_move encoding dropped = true
can_move ready ready = true
can_move ready reserved = true
can_move dropped dropped = true
can_move dropped reserved = true
can_move _ _ = false

can_move_self : (s : SlotState) → can_move s s ≡ true
can_move_self s = ground arith

Edit-moves : {h k : Header} → Edit h k → can_move h.state k.state ≡ true
Edit-moves (drop s e) = ground arith
Edit-moves (begin s e) = ground arith
Edit-moves (finish payload s e) = ground arith
Edit-moves (pin s e) = ground arith
Edit-moves {h} (release s e) = ground (arith, can_move_self h.state)

Outcome-moves :
    {r : FrameRing} {g : ℕ} {s : FrameRing} {g' : ℕ} (j : ℕ)
    → IsValid r g
    → Outcome r g s g'
    → can_move (header_at r j).state (header_at s j).state ≡ true
Outcome-moves {r} j v (same e f) = ground (arith, can_move_self (header_at r j).state)
Outcome-moves {r} j v (refused n e f) = ground (arith, can_move_self (header_at r j).state)
Outcome-moves {r} j v (edited i k h t e f) =
    rw e (ground (arith, can_move_self (header_at r j).state, Edit-moves t, at_put r i k h j))
Outcome-moves {r} {g} j v (claimed capture tag idle e f) =
    rw e (ground (arith, can_move_self (header_at r j).state, at_claim r g capture tag v j))

-- Whatever call runs, every slot of a valid ring stays in its state or takes one of the arrows of
-- the state machine: Free, Ready and Dropped slots are reserved, Reserved ones begin encoding,
-- Encoding ones get Ready, and Reserved and Encoding ones are dropped.
pub step_moves :
    (r : FrameRing) (g : ℕ) (c : Call) (i : ℕ)
    → IsValid r g
    → can_move (header_at r i).state (header_at (step (r, g) c).0 i).state ≡ true
step_moves r g c i v = Outcome-moves i v (step-Outcome r g c v)

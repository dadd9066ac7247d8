-- ===== src/Ring/Tests.antt =====
-- A ring of two slots (src/frame-ring.cpp) through some calls.
use native.Mathlib.Omega.{arith}
use obs_trigglow_dynamic_del.Prelude.{
  ℕ, ◌≤◌, ◌<◌, ◌≡◌, refl, true, false, ◌⊎◌, none, some, List, [], ◌∷◌, ◌++◌, length, ltb,
  if◌then◌else◌,
}
use obs_trigglow_dynamic_del.Arena.{Config}
use obs_trigglow_dynamic_del.Ring.{
  FrameRing, Header, no_payload, Reservation, ReadView, make, header_at, reserve, reserve_header,
  begin_encode, publish, mark_dropped, pin_for_display, pin_next_for_decode, capture_at, ready_at,
  claim, decode_position, next_for_decode,
}
use obs_trigglow_dynamic_del.Ring.Invariant.{IsValid, make-IsValid}
use obs_trigglow_dynamic_del.Ring.Window.{window, drop_first, window-reserve}
use obs_trigglow_dynamic_del.Ring.Pin.{IsViewOf, IsPinned}
use obs_trigglow_dynamic_del.Ring.Queries.{NoneShown, pin_for_display_lem, pin_next_for_decode_lem}
use obs_trigglow_dynamic_del.Select.{select_for_display, last_at_or_before, search, look_back}
use obs_trigglow_dynamic_del.Select.Display.{IsShown}
use obs_trigglow_dynamic_del.Ring.Calls.{
  Call, State, step, run, reserves, begins, publishes, drops, displays,
}
use obs_trigglow_dynamic_del.Ring.Calls.Machine.{run-IsValid, can_move, step_moves}
use obs_trigglow_dynamic_del.Ring.Calls.Pins.{SameFrame, pinned_frame_stays}
use obs_trigglow_dynamic_del.Ring.Calls.Stale.{stale_work_fails}

abbrev config : Config
config = record { block_bytes = 1048576; limit_bytes = 4194304; max_spare_blocks = 1 }

abbrev empty : FrameRing
empty = make 2 config

abbrev two_frames : List Call
two_frames =
    reserves 10 0
    ∷ begins 0 1
    ∷ publishes 0 1 no_payload
    ∷ reserves 20 0
    ∷ begins 1 2
    ∷ publishes 1 2 no_payload
    ∷ []

abbrev shown : List Call
shown = two_frames ++ displays 15 1 ∷ []

abbrev full : State
full = run (empty, 1) two_frames

abbrev pinned : State
pinned = run (empty, 1) shown

empty-IsValid : IsValid empty 1
empty-IsValid = make-IsValid 2 config 1 (omega arith) (omega arith)

full-IsValid : IsValid full.0 full.1
full-IsValid = run-IsValid empty 1 two_frames empty-IsValid (omega arith)

pinned-IsValid : IsValid pinned.0 pinned.1
pinned-IsValid = run-IsValid empty 1 shown empty-IsValid (omega arith)

is_pinned : 0 < (header_at pinned.0 0).pins
unfolding run step reserve make claim begin_encode publish pin_for_display select_for_display
    last_at_or_before search look_back
is_pinned = omega arith

abbrev view : ReadView
view = record { index = 0; generation = 1; capture_ns = 10; payload = no_payload; tag = 0 }

view_decoded : (pin_next_for_decode full.0 0 15 15 0).0 ≡ some view
unfolding run step reserve make claim begin_encode publish pin_next_for_decode decode_position
    next_for_decode last_at_or_before search select_for_display look_back
view_decoded = refl

full_generation : full.1 ≡ 3
unfolding run step reserve make claim begin_encode publish
full_generation = refl

abbrev third : Reservation
third = record { index = 0; generation = 3; capture_ns = 30; tag = 7 }

third_reserved : reserve full.0 full.1 30 7 ≡ (some third, claim full.0 3 30 7, 4)
unfolding run step reserve make claim begin_encode publish
third_reserved = refl

abbrev third_header : Header
third_header =
    reserve_header (header_at full.0 full.0.write_index) third.capture_ns full.1 third.tag

window_full_ring :
    window (claim full.0 3 30 7)
    ≡ (if ltb full.0.buffered (length full.0.headers)
        then window full.0
        else drop_first (window full.0))
      ++ third_header ∷ []
window_full_ring =
    window-reserve full.0 (claim full.0 3 30 7) full.1 4 30 7 third full-IsValid third_reserved

pinned_frame : SameFrame (header_at pinned.0 0) (header_at (step pinned (drops 0 1)).0 0)
pinned_frame = pinned_frame_stays pinned.0 pinned.1 (drops 0 1) 0 pinned-IsValid is_pinned

stale_work :
    let t = (run (claim full.0 3 30 7, 4) (drops 0 3 ∷ [])).0 in
    (begin_encode t 0 1 ≡ (false, t))
    × (publish t 0 1 no_payload ≡ (false, t))
    × (mark_dropped t 0 1 ≡ (false, t))
stale_work =
    stale_work_fails full.0 (claim full.0 3 30 7) full.1 4 30 7 1 third (drops 0 3 ∷ []) no_payload
      full-IsValid third_reserved (omega (arith, full_generation)) (omega arith)

IsValid-after_calls : IsValid (run (empty, 1) shown).0 (run (empty, 1) shown).1
IsValid-after_calls = run-IsValid empty 1 shown empty-IsValid (omega arith)

moves_of_slot :
    can_move
      (header_at full.0 0).state
      (header_at (step (full.0, full.1) (reserves 30 7)).0 0).state
    ≡ true
moves_of_slot = step_moves full.0 full.1 (reserves 30 7) 0 full-IsValid

view_for_display :
    let (found, s) = pin_for_display full.0 15 1 in
    ((p : ℕ) × (view : ReadView) × (found ≡ some view)
      × IsViewOf full.0 p view
      × IsPinned full.0 p s
      × IsShown full.0.buffered 15 1 (capture_at full.0) (ready_at full.0) p)
    ⊎ ((found ≡ none) × (s ≡ full.0) × NoneShown full.0 15 1)
view_for_display = pin_for_display_lem full.0 full.1 15 1 full-IsValid

view_for_decode :
    (p : ℕ) × IsViewOf full.0 p view
    × (p < full.0.buffered)
    × (ready_at full.0 p ≡ true)
    × (0 < view.capture_ns)
    × ((view.capture_ns ≤ 15) ⊎ (view.capture_ns ≤ 15))
view_for_decode = pin_next_for_decode_lem full.0 full.1 0 15 15 0 view full-IsValid view_decoded

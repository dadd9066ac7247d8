-- ===== src/Select/Tests.antt =====
-- The selections of src/frame-ring.hpp at four stored frames: a key and three that follow it.
use obs_trigglow_dynamic_del.Prelude.{
  ℕ, ◌+◌, ◌*◌, ◌-◌, ◌≤◌, ◌<◌, ◌≡◌, refl, ◌⊎◌, Bool, true, false, some, not, ◌==◌, ◌%◌,
  if◌then◌else◌, arith,
}
use obs_trigglow_dynamic_del.Select.{
  h264, no_cursor, ChainSlot, last_at_or_before, select_for_display, next_key, walk_back,
  plan_decode_start, decodable,
}
use obs_trigglow_dynamic_del.Select.Search.{Ordered, IsLast, last_at_or_before_lem}
use obs_trigglow_dynamic_del.Select.Display.{IsShown, select_for_display_lem}
use obs_trigglow_dynamic_del.Select.Walk.{SeqFits, IsSound}
use obs_trigglow_dynamic_del.Select.Replay.{replay}
use obs_trigglow_dynamic_del.Select.Plan.{plan_decode_start-IsSound}
use obs_trigglow_dynamic_del.Select.Complete.{plan_decode_start_finds}

abbrev capture_at : ℕ → ℕ
capture_at p = p * 16

abbrev ready_at : ℕ → Bool
ready_at p = not (p == 2)

abbrev seq_at : ℕ → ℕ
seq_at p = if p == 3 then 2 else p % 3

abbrev chain_at : ℕ → ChainSlot
chain_at p = record {
  ready = not (p == 2);
  key = (p == 0);
  chain = 1;
  seq = seq_at p;
  codec = h264;
}

Ordered-captures : Ordered 4 capture_at
Ordered-captures p q a b = omega arith

chain-SeqFits : SeqFits 3 chain_at
chain-SeqFits p = ground arith

due_frame :
    IsLast 4 40 capture_at (last_at_or_before 4 40 capture_at)
    ⊎ ((last_at_or_before 4 40 capture_at ≡ 4) × ((q : ℕ) → q < 4 → 40 < capture_at q))
due_frame = last_at_or_before_lem 4 40 capture_at Ordered-captures

start_found : (plan_decode_start 4 3 chain_at).found ≡ true
unfolding plan_decode_start walk_back next_key
start_found = refl

IsSound-start : IsSound 3 chain_at (plan_decode_start 4 3 chain_at)
IsSound-start = plan_decode_start-IsSound 4 3 chain_at chain-SeqFits start_found

chain_replays : replay h264 chain_at (3 + 1 - 0) 0 no_cursor ≡ some 3
unfolding replay decodable
chain_replays = refl

start_exists : (plan_decode_start 4 3 chain_at).found ≡ true
start_exists =
    plan_decode_start_finds 4 3 chain_at 0 3 chain-SeqFits (omega arith) refl (omega arith)
      chain_replays

displayed :
    let p = select_for_display 4 40 1 capture_at ready_at in
    IsShown 4 40 1 capture_at ready_at p
    ⊎ ((p ≡ 4)
        × ((d q : ℕ)
            → IsLast 4 40 capture_at d
            → capture_at q ≤ 40
            → q < 4
            → d ≤ q + 1
            → ready_at q ≡ false))
displayed = select_for_display_lem 4 40 1 capture_at ready_at Ordered-captures

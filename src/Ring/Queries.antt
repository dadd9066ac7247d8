-- ===== src/Ring/Queries.antt =====
-- The queries of src/frame-ring.cpp's FrameRing, and what the readers' pins return.
use native.Mathlib.Omega.{arith}
use obs_trigglow_dynamic_del.Prelude.{
  ℕ, zero, suc, ◌+◌, ◌-◌, ◌%◌, ◌≤◌, ◌<◌, ◌≡◌, refl, ◌⊎◌, inl, inr, Bool, true, false, ◌==◌, ltb,
  if◌then◌else◌, u32_mod, Option, some, none, List, [], ◌∷◌, not,
}
use obs_trigglow_dynamic_del.Select.{
  CodecId, raw, ChainSlot, StartChoice, wait_for_key, no_position, last_at_or_before,
  select_for_display, plan_decode_start, choose_decode_start,
}
use obs_trigglow_dynamic_del.Select.Search.{IsLast}
use obs_trigglow_dynamic_del.Select.Display.{IsShown, select_for_display_lem}
use obs_trigglow_dynamic_del.Ring.{
  FrameRing, Header, ReadView, SlotState, free, reserved, encoding, ready, dropped, no_chain,
  at_position, header_at, capture_at, ready_at, is_ready, fill_view, pin_at, pin_for_display,
  pin_next_for_decode, decode_position,
}
use obs_trigglow_dynamic_del.Ring.Invariant.{IsValid}
use obs_trigglow_dynamic_del.Ring.Pin.{
  IsViewOf, IsPinned, pin_position-IsPinned, pin_position-IsViewOf,
}
use obs_trigglow_dynamic_del.Ring.Playback.{decode_lem}

pub record SlotSummary : Type 0 where
  pub state : SlotState
  pub capture_ns : ℕ
  pub codec : CodecId
  pub key : Bool
  pub chain : ℕ
  pub seq : ℕ

-- The summary's fields, the payload's for a Ready slot only.
abbrev pub summary : Header → SlotSummary
summary h =
    if is_ready h.state
    then record {
      state = h.state;
      capture_ns = h.capture_ns;
      codec = h.payload.codec;
      key = h.payload.key;
      chain = h.payload.chain;
      seq = h.payload.seq;
    }
    else record {
      state = h.state;
      capture_ns = h.capture_ns;
      codec = raw;
      key = true;
      chain = no_chain;
      seq = 0;
    }

-- Snapshot, over `rounds` positions from `position` on.
snapshot_from : ℕ → ℕ → FrameRing → List SlotSummary
snapshot_from zero position r = []
snapshot_from (suc rounds) position r =
    summary (at_position r position) ∷ snapshot_from rounds (position + 1) r

pub snapshot : FrameRing → List SlotSummary
unfolding snapshot_from
snapshot r = snapshot_from r.buffered 0 r

-- DueSlot: `none` for `exists == false`.
pub due : FrameRing → ℕ → Option (SlotSummary × ℕ)
due r target =
    let p = last_at_or_before r.buffered target (capture_at r) in
    if p == r.buffered then none else some (summary (at_position r p), (at_position r p).tag)

-- OldestCaptureNs.
pub oldest_capture_ns : FrameRing → Option ℕ
oldest_capture_ns r = if r.buffered == 0 then none else some (header_at r r.oldest).capture_ns

pub record Counts : Type 0 where
  pub buffered : ℕ
  pub reserved_slots : ℕ
  pub encoding_slots : ℕ
  pub ready_slots : ℕ
  pub dropped_slots : ℕ
  pub pinned : ℕ
  pub reserve_failures : ℕ

abbrev count_state : Counts → SlotState → Counts
count_state c free = c
count_state c reserved = record c { reserved_slots = c.reserved_slots + 1 }
count_state c encoding = record c { encoding_slots = c.encoding_slots + 1 }
count_state c ready = record c { ready_slots = c.ready_slots + 1 }
count_state c dropped = record c { dropped_slots = c.dropped_slots + 1 }

abbrev count_pins : Counts → Header → Counts
count_pins c h = if ltb 0 h.pins then record c { pinned = c.pinned + 1 } else c

count_headers : Counts → List Header → Counts
count_headers c [] = c
count_headers c (h ∷ hs) = count_headers (count_pins (count_state c h.state) h) hs

-- GetCounts.
pub get_counts : FrameRing → Counts
unfolding count_headers
get_counts r =
    count_headers
      (record {
        buffered = r.buffered;
        reserved_slots = 0;
        encoding_slots = 0;
        ready_slots = 0;
        dropped_slots = 0;
        pinned = 0;
        reserve_failures = r.reserve_failures;
      })
      r.headers

pub record DecodePlan : Type 0 where
  pub is_due : Bool
  pub due_ns : ℕ
  pub found : Bool
  pub key_ns : ℕ
  pub catch_up : ℕ
  pub next_key : Bool
  pub frames_to_next_key : ℕ
  pub choice : StartChoice

abbrev pub no_plan : DecodePlan
no_plan = record {
  is_due = false;
  due_ns = 0;
  found = false;
  key_ns = 0;
  catch_up = 0;
  next_key = false;
  frames_to_next_key = 0;
  choice = wait_for_key;
}

-- `chainAt` of PlanDecodeStart.
abbrev pub chain_at : FrameRing → ℕ → ChainSlot
chain_at r position =
    let h = at_position r position in
    record {
      ready = is_ready h.state;
      key = h.payload.key;
      chain = h.payload.chain;
      seq = h.payload.seq;
      codec = h.payload.codec;
    }

-- PlanDecodeStart.
pub plan_start : FrameRing → ℕ → ℕ → ℕ → ℕ → DecodePlan
plan_start r target max_back decode_ns interval_ns =
    let p = select_for_display r.buffered target max_back (capture_at r) (ready_at r) in
    let start = plan_decode_start r.buffered p (chain_at r) in
    let has_next = not (start.next_key_pos == no_position) in
    if p == r.buffered then no_plan else record {
      is_due = true;
      due_ns = capture_at r p;
      found = start.found;
      key_ns = if start.found then capture_at r start.key_pos else 0;
      catch_up = if start.found then start.catch_up % u32_mod else 0;
      next_key = has_next;
      frames_to_next_key = if has_next then (start.next_key_pos - p) % u32_mod else 0;
      choice = choose_decode_start start p decode_ns interval_ns;
    }

pin_at_inv :
    (r : FrameRing) (o : Option ℕ) (view : ReadView)
    → (pin_at r o).0 ≡ some view
    → (p : ℕ) × (o ≡ some p) × IsViewOf r p view
unfolding fill_view
pin_at_inv r none view e = absurd (cc)
pin_at_inv r (some p) view e = (
  p,
  refl,
  record {
    at_index = ground arith;
    same_payload = ground arith;
    same_capture = ground arith;
    same_generation = ground arith;
    same_tag = ground arith;
  },
)

-- No Ready frame at or before the target lies within `max_back` positions of the frame due.
abbrev pub NoneShown : FrameRing → ℕ → ℕ → Type 0
NoneShown r target max_back =
    (d q : ℕ)
    → IsLast r.buffered target (capture_at r) d
    → capture_at r q ≤ target
    → q < r.buffered
    → d ≤ q + max_back
    → ready_at r q ≡ false

-- PinForDisplay returns a view of the frame to show now and pins its slot, and no other: a Ready frame,
-- never younger than the target, at most `max_back` positions before the frame due, and no later frame
-- at or before the target is Ready. Or it returns none and pins nothing, and then there is no such frame.
pub pin_for_display_lem :
    (r : FrameRing) (g target max_back : ℕ)
    → IsValid r g
    → let (found, s) = pin_for_display r target max_back in
      ((p : ℕ) × (view : ReadView) × (found ≡ some view)
        × IsViewOf r p view
        × IsPinned r p s
        × IsShown r.buffered target max_back (capture_at r) (ready_at r) p)
      ⊎ ((found ≡ none) × (s ≡ r) × NoneShown r target max_back)
unfolding pin_for_display
pin_for_display_lem r g target max_back v =
    elim (select_for_display_lem r.buffered target max_back (capture_at r) (ready_at r) v.ordered) [
      | inl shown ↦
          let p = select_for_display r.buffered target max_back (capture_at r) (ready_at r) in
          let found : (p == r.buffered) ≡ false = ground (arith, shown.inside) in
          let (view, e, s) = pin_position-IsViewOf r p in
          rw found (inl (p, view, e, s, pin_position-IsPinned r p v.some_slot, shown))
      | inr (e, none_shown) ↦
          let p = select_for_display r.buffered target max_back (capture_at r) (ready_at r) in
          let missing : (p == r.buffered) ≡ true = ground (arith, e) in
          rw missing (inr (refl, refl, none_shown))
    ]

-- PinNextForDecode only moves forward: the view it returns is of a Ready frame captured after
-- `after`, and at or before the target or the end of the decode-ahead window.
pub pin_next_for_decode_lem :
    (r : FrameRing) (g after target window_end late : ℕ) (view : ReadView)
    → IsValid r g
    → (pin_next_for_decode r after target window_end late).0 ≡ some view
    → (p : ℕ) × IsViewOf r p view
      × (p < r.buffered)
      × (ready_at r p ≡ true)
      × (after < view.capture_ns)
      × ((view.capture_ns ≤ target) ⊎ (view.capture_ns ≤ window_end))
unfolding pin_next_for_decode
pin_next_for_decode_lem r g after target window_end late view v e =
    let (p, o, s) = pin_at_inv r (decode_position r after target window_end late) view e in
    let (a, b, c, d) = decode_lem r v.ordered after target window_end late p o in
    (p, s, a, b, omega (arith, s.same_capture), omega (arith, s.same_capture, d))

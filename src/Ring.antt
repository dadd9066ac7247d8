-- ===== src/Ring.antt =====
-- src/frame-ring.hpp and src/frame-ring.cpp, class FrameRing: the delay ring. Every operation holds
-- the ring's mutex, so it is one step here; `g_nextGeneration`, the counter that all rings share, is
-- the argument `generation` of `reserve`, which hands back the counter's next value.
pub mod Pin
pub mod Queries
mod Slots
pub mod Invariant
pub mod Reserve
pub mod Window
pub mod Playback
pub mod Calls
mod Tests
use obs_trigglow_dynamic_del.Prelude.{
  ℕ, zero, suc, ◌+◌, ◌-◌, ◌*◌, ◌/◌, ◌%◌, ◌^◌, min, max, Bool, true, false, not, ◌&&◌, ◌||◌, Option,
  none, some, List, [], ◌∷◌, ◌++◌, map, ltb, leb, ◌==◌, if◌then◌else◌, u64_mod, u32_mod, add_u64,
  sub_u64, add_u32, sub_u32, length, get_or, set, replicate,
}
use obs_trigglow_dynamic_del.Arena
use obs_trigglow_dynamic_del.Arena.{Arena, Config, Allocation, no_allocation}
use obs_trigglow_dynamic_del.Select.{
  CodecId, raw, ChainSlot, DecodeStart, StartChoice, wait_for_key, no_position, last_at_or_before,
  select_for_display, plan_decode_start, choose_decode_start,
}

pub data SlotState : Type 0 where
  free reserved encoding ready dropped : SlotState

abbrev pub is_ready : SlotState → Bool
is_ready ready = true
is_ready _ = false

abbrev pub is_reserved : SlotState → Bool
is_reserved reserved = true
is_reserved _ = false

abbrev pub is_encoding : SlotState → Bool
is_encoding encoding = true
is_encoding _ = false

-- storage::kNoChain is 0.
abbrev pub no_chain : ℕ
no_chain = 0

pub record Payload : Type 0 where
  pub allocation : Allocation
  pub bytes : ℕ
  pub width : ℕ
  pub height : ℕ
  pub codec : CodecId
  pub key : Bool
  pub chain : ℕ
  pub seq : ℕ

abbrev pub no_payload : Payload
no_payload = record {
  allocation = no_allocation;
  bytes = 0;
  width = 0;
  height = 0;
  codec = raw;
  key = true;
  chain = no_chain;
  seq = 0;
}

pub record Reservation : Type 0 where
  pub index : ℕ
  pub generation : ℕ
  pub capture_ns : ℕ
  pub tag : ℕ

-- ReadView. `data`, the payload's bytes, is its allocation.
pub record ReadView : Type 0 where
  pub index : ℕ
  pub generation : ℕ
  pub capture_ns : ℕ
  pub payload : Payload
  pub tag : ℕ

pub record Header : Type 0 where
  pub capture_ns : ℕ
  pub generation : ℕ
  pub state : SlotState
  pub pins : ℕ
  pub tag : ℕ
  pub payload : Payload

abbrev pub empty_header : Header
empty_header = record {
  capture_ns = 0;
  generation = 0;
  state = free;
  pins = 0;
  tag = 0;
  payload = no_payload;
}

pub record FrameRing : Type 0 where
  pub arena : Arena
  pub headers : List Header
  pub write_index : ℕ
  pub buffered : ℕ
  pub oldest : ℕ
  pub last_capture_ns : ℕ
  pub reserve_failures : ℕ

-- `headers_[index]`.
abbrev pub header_at : FrameRing → ℕ → Header
header_at r index = get_or r.headers index empty_header

-- IndexAt.
abbrev pub index_at : FrameRing → ℕ → ℕ
index_at r position = add_u64 r.oldest position % length r.headers

-- The header at a logical position, 0 the oldest.
abbrev pub at_position : FrameRing → ℕ → Header
at_position r position = header_at r (index_at r position)

-- The constructor.
pub make : ℕ → Config → FrameRing
make slot_count config = record {
  arena = Arena.make config;
  headers = replicate (max 1 slot_count) empty_header;
  write_index = 0;
  buffered = 0;
  oldest = 0;
  last_capture_ns = 0;
  reserve_failures = 0;
}

-- The header's change in Reserve.
abbrev pub reserve_header : Header → ℕ → ℕ → ℕ → Header
reserve_header h capture_ns generation tag = record h {
  capture_ns = capture_ns;
  generation = generation;
  state = reserved;
  tag = tag;
  payload = no_payload;
}

-- Whether the slot that Reserve would claim is still in use.
abbrev pub is_busy : Header → Bool
is_busy h = is_reserved h.state || is_encoding h.state || ltb 0 h.pins

-- The ring after a successful Reserve.
pub claim : FrameRing → ℕ → ℕ → ℕ → FrameRing
claim r generation capture tag =
    let h = header_at r r.write_index in
    let capture_ns = max capture r.last_capture_ns in
    let write_index = (r.write_index + 1) % length r.headers in
    let buffered = if ltb r.buffered (length r.headers) then r.buffered + 1 else r.buffered in
    record {
      arena = Arena.free r.arena h.payload.allocation;
      headers = set r.headers r.write_index (reserve_header h capture_ns generation tag);
      write_index = write_index;
      buffered = buffered;
      oldest = (write_index + length r.headers - buffered) % length r.headers;
      last_capture_ns = capture_ns;
      reserve_failures = r.reserve_failures;
    }

-- Reserve: the reservation (`none` for false), the ring, and the next generation.
pub reserve : FrameRing → ℕ → ℕ → ℕ → Option Reservation × FrameRing × ℕ
unfolding claim
reserve r generation capture tag =
    if is_busy (header_at r r.write_index)
    then (none, record r { reserve_failures = add_u64 r.reserve_failures 1 }, generation)
    else (
      some (record {
        index = r.write_index;
        generation = generation;
        capture_ns = max capture r.last_capture_ns;
        tag = tag;
      }),
      claim r generation capture tag,
      add_u64 generation 1,
    )

abbrev pub put_header : FrameRing → ℕ → Header → FrameRing
put_header r index h = record r { headers = set r.headers index h }

-- MarkDropped.
pub mark_dropped : FrameRing → ℕ → ℕ → Bool × FrameRing
mark_dropped r index generation =
    let h = header_at r index in
    if leb (length r.headers) index
    then (false, r)
    else if not (h.generation == generation)
        || (not (is_reserved h.state) && not (is_encoding h.state))
    then (false, r)
    else (true, put_header r index (record h { state = dropped }))

-- BeginEncode.
pub begin_encode : FrameRing → ℕ → ℕ → Bool × FrameRing
begin_encode r index generation =
    let h = header_at r index in
    if leb (length r.headers) index
    then (false, r)
    else if not (h.generation == generation) || not (is_reserved h.state)
    then (false, r)
    else (true, put_header r index (record h { state = encoding }))

-- Publish.
pub publish : FrameRing → ℕ → ℕ → Payload → Bool × FrameRing
publish r index generation payload =
    let h = header_at r index in
    if leb (length r.headers) index
    then (false, r)
    else if not (h.generation == generation) || not (is_encoding h.state)
    then (false, r)
    else (true, put_header r index (record h { state = ready; payload = payload }))

-- FillViewLocked: the view, and the ring with the slot pinned (`pins` is a `uint16_t`).
pub fill_view : FrameRing → ℕ → ReadView × FrameRing
fill_view r index =
    let h = header_at r index in
    (
      record {
        index = index;
        generation = h.generation;
        capture_ns = h.capture_ns;
        payload = h.payload;
        tag = h.tag;
      },
      put_header r index (record h { pins = (h.pins + 1) % 2 ^ 16 }),
    )

-- What a pin that may fail returns.
abbrev pub Pinned : Type 0
Pinned = Option ReadView × FrameRing

abbrev pub pin_position : FrameRing → ℕ → Pinned
pin_position r position = let (view, s) = fill_view r (index_at r position) in (some view, s)

abbrev pub capture_at : FrameRing → ℕ → ℕ
capture_at r position = (at_position r position).capture_ns

abbrev pub ready_at : FrameRing → ℕ → Bool
ready_at r position = is_ready (at_position r position).state

-- The `for` of PinNextForDecode, over `rounds` positions from `position` on: the position to pin.
pub next_for_decode : ℕ → ℕ → FrameRing → ℕ → ℕ → Option ℕ
next_for_decode zero position r target window_end = none
next_for_decode (suc rounds) position r target window_end =
    let h = at_position r position in
    let next = next_for_decode rounds (position + 1) r target window_end in
    if ltb window_end h.capture_ns then none else elim h.state [
      | ready ↦ some position
      | dropped ↦ next
      | reserved ↦ if leb h.capture_ns target then next else none
      | encoding ↦ if leb h.capture_ns target then next else none
      | free ↦ none
    ]

-- The first position strictly after a time, where LastAtOrBefore found `last`.
abbrev pub first_after : FrameRing → ℕ → ℕ
first_after r time =
    let last = last_at_or_before r.buffered time (capture_at r) in
    if last == r.buffered then 0 else last + 1

-- The position PinNextForDecode pins.
pub decode_position : FrameRing → ℕ → ℕ → ℕ → ℕ → Option ℕ
unfolding next_for_decode
decode_position r after target window_end late =
    let p = select_for_display r.buffered target 8 (capture_at r) (ready_at r) in
    let first = first_after r after in
    let next = next_for_decode (r.buffered - first) first r target window_end in
    if r.buffered == 0
    then none
    else if ltb (add_u64 after late) target && not (p == r.buffered) && ltb after (capture_at r p)
    then some p
    else next

abbrev pub pin_at : FrameRing → Option ℕ → Pinned
pin_at r none = (none, r)
pin_at r (some position) = pin_position r position

-- PinNextForDecode.
pub pin_next_for_decode : FrameRing → ℕ → ℕ → ℕ → ℕ → Pinned
unfolding decode_position fill_view
pin_next_for_decode r after target window_end late =
    pin_at r (decode_position r after target window_end late)

-- The `for` of PinNextInRange.
pub next_in_range : ℕ → ℕ → FrameRing → ℕ → ℕ → Option ℕ
next_in_range zero position r after until = none
next_in_range (suc rounds) position r after until =
    let h = at_position r position in
    let next = next_in_range rounds (position + 1) r after until in
    if ltb until h.capture_ns
    then none
    else if ltb after h.capture_ns && is_ready h.state
    then some position
    else next

-- PinNextInRange.
pub pin_next_in_range : FrameRing → ℕ → ℕ → Pinned
unfolding next_in_range fill_view
pin_next_in_range r after until =
    let first = first_after r after in
    pin_at r (next_in_range (r.buffered - first) first r after until)

-- What PinForDisplay and DisplayCandidateNs select.
abbrev pub display_position : FrameRing → ℕ → ℕ → Option ℕ
display_position r target max_back =
    let p = select_for_display r.buffered target max_back (capture_at r) (ready_at r) in
    if p == r.buffered then none else some p

-- PinForDisplay.
pub pin_for_display : FrameRing → ℕ → ℕ → Pinned
unfolding fill_view
pin_for_display r target max_back = pin_at r (display_position r target max_back)

-- DisplayCandidateNs.
pub display_candidate_ns : FrameRing → ℕ → ℕ → Option ℕ
display_candidate_ns r target max_back = elim (display_position r target max_back) [
  | none ↦ none
  | some p ↦ some (capture_at r p)
]

-- Unpin.
pub unpin : FrameRing → ReadView → FrameRing
unpin r view =
    let h = header_at r view.index in
    if leb (length r.headers) view.index
    then r
    else if (h.generation == view.generation) && ltb 0 h.pins
    then put_header r view.index (record h { pins = h.pins - 1 })
    else r

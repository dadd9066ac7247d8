-- ===== src/Select.antt =====
-- src/frame-ring.hpp, namespace ringselect: the age-based selection over the delay ring, seen in
-- logical order (positions 0 .. count - 1, oldest first). The callbacks of the templates are
-- functions of the position, as in the source; a position fits `size_t`, so no sum here wraps
-- below 2 ^ 63 positions.
pub mod Search
pub mod Display
pub mod Walk
pub mod Plan
pub mod Complete
pub mod Replay
mod Tests
use obs_trigglow_dynamic_del.Prelude.{
  ℕ, zero, suc, ◌+◌, ◌-◌, ◌*◌, ◌/◌, ◌%◌, ◌^◌, Bool, true, false, not, ◌&&◌, ◌||◌, ltb, leb, ◌==◌,
  if◌then◌else◌, u64_mod, u32_mod, add_u64,
}

-- The `while (hi - lo > 1)` of LastAtOrBefore.
unfoldable pub search : ℕ → ℕ → (ℕ → ℕ) → ℕ → ℕ → ℕ
search zero target capture_at lo hi = lo
search (suc fuel) target capture_at lo hi = elim (ltb 1 (hi - lo)) [
  | false ↦ lo
  | true ↦
      let mid = lo + (hi - lo) / 2 in
      elim (leb (capture_at mid) target) [
        | true ↦ search fuel target capture_at mid hi
        | false ↦ search fuel target capture_at lo mid
      ]
]

-- The largest position with a capture time at or before the target, or `count` if there is none.
-- Each round shrinks `hi - lo`, which starts at `count`: `count` rounds are enough.
unfoldable pub last_at_or_before : ℕ → ℕ → (ℕ → ℕ) → ℕ
last_at_or_before count target capture_at =
    if (count == 0) || ltb target (capture_at 0)
    then count
    else search count target capture_at 0 count

-- The `for` of SelectForDisplay: `back` counts up to `max_back` and `due`. After `due + 1` rounds
-- the test `back <= due` fails, so fuel `due + 1` is enough.
unfoldable pub look_back : ℕ → ℕ → ℕ → ℕ → ℕ → (ℕ → Bool) → ℕ
look_back zero back count due max_back ready_at = count
look_back (suc fuel) back count due max_back ready_at =
    let rest = look_back fuel (back + 1) count due max_back ready_at in
    if leb back max_back && leb back due
    then if ready_at (due - back) then due - back else rest
    else count

-- The frame to show for the target time: the newest Ready slot at or before the due one, over at
-- most `max_back` slots back; `count` if there is none.
unfoldable pub select_for_display : ℕ → ℕ → ℕ → (ℕ → ℕ) → (ℕ → Bool) → ℕ
select_for_display count target max_back capture_at ready_at =
    let due = last_at_or_before count target capture_at in
    if due == count then count else look_back (due + 1) 0 count due max_back ready_at

-- storage::CodecId.
pub data CodecId : Type 0 where
  raw mjpeg h264 hevc : CodecId

abbrev pub codec_eq : CodecId → CodecId → Bool
codec_eq raw raw = true
codec_eq mjpeg mjpeg = true
codec_eq h264 h264 = true
codec_eq hevc hevc = true
codec_eq _ _ = false

pub record ChainCursor : Type 0 where
  pub valid : Bool
  pub chain : ℕ
  pub seq : ℕ

-- The default ChainCursor: nothing decoded yet.
abbrev pub no_cursor : ChainCursor
no_cursor = record { valid = false; chain = 0; seq = 0 }

-- Whether a stored packet can be decoded right after the cursor's. `cursor.seq + 1` is `uint32_t`.
unfoldable pub decodable : Bool → ℕ → ℕ → ChainCursor → Bool
decodable key chain seq cursor =
    key || (cursor.valid && (chain == cursor.chain) && (seq == (cursor.seq + 1) % u32_mod))

pub record ChainSlot : Type 0 where
  pub ready : Bool
  pub key : Bool
  pub chain : ℕ
  pub seq : ℕ
  pub codec : CodecId

-- kNoPosition, SIZE_MAX.
abbrev pub no_position : ℕ
no_position = 2 ^ 64 - 1

pub record DecodeStart : Type 0 where
  pub found : Bool
  pub key_pos : ℕ
  pub catch_up : ℕ
  pub next_key_pos : ℕ

abbrev pub no_start : DecodeStart
no_start = record { found = false; key_pos = 0; catch_up = 0; next_key_pos = no_position }

-- The first loop of PlanDecodeStart: positions `p`, `p + 1`, ... for `rounds` positions.
unfoldable pub next_key : ℕ → ℕ → (ℕ → ChainSlot) → ℕ
next_key zero p chain_at = no_position
next_key (suc rounds) p chain_at =
    let rest = next_key rounds (p + 1) chain_at in
    if (chain_at p).ready && (chain_at p).key then p else rest

-- The second loop, from `back` up to `due`: `rounds` is `due + 1 - back`. `expected - 1` is
-- `uint32_t`.
unfoldable pub walk_back : ℕ → ℕ → ℕ → ℕ → ChainSlot → (ℕ → ChainSlot) → DecodeStart → DecodeStart
walk_back zero back due expected target chain_at plan = record plan { catch_up = 0 }
walk_back (suc rounds) back due expected target chain_at plan =
    let slot = chain_at (due - back) in
    let skipped = walk_back rounds (back + 1) due expected target chain_at plan in
    let counted = record plan { catch_up = plan.catch_up + 1 } in
    let accepted = walk_back rounds (back + 1) due slot.seq target chain_at counted in
    if not slot.ready
    then skipped
    else if not (codec_eq slot.codec target.codec)
    then skipped
    else if not (slot.chain == target.chain) || not (slot.seq == (expected + u32_mod - 1) % u32_mod)
    then plan
    else if slot.key
    then record counted { found = true; key_pos = due - back }
    else accepted

unfoldable pub plan_decode_start : ℕ → ℕ → (ℕ → ChainSlot) → DecodeStart
plan_decode_start count due chain_at =
    let target = chain_at due in
    let plan = record no_start { next_key_pos = next_key (count - (due + 1)) (due + 1) chain_at } in
    if leb count due
    then no_start
    else if not target.ready
    then no_start
    else if target.key
    then record plan { found = true; key_pos = due }
    else walk_back due 1 due target.seq target chain_at plan

pub data StartChoice : Type 0 where
  catch_up wait_for_key : StartChoice

-- `plan.catchUp * decodeNs` and `(plan.nextKeyPos - due) * intervalNs` are 64-bit products.
unfoldable pub choose_decode_start : DecodeStart → ℕ → ℕ → ℕ → StartChoice
choose_decode_start plan due decode_ns interval_ns =
    if not plan.found
    then wait_for_key
    else if (plan.catch_up == 0) || (plan.next_key_pos == no_position) || leb plan.next_key_pos due
    then catch_up
    else if leb (plan.catch_up * decode_ns % u64_mod)
        ((plan.next_key_pos - due) * interval_ns % u64_mod)
    then catch_up
    else wait_for_key

-- ===== src/Arena/Sizing.antt =====
-- The block size of src/frame-arena.cpp's SizedFor.
use obs_trigglow_dynamic_del.Prelude.{ℕ, ◌+◌, ◌^◌, ◌≤◌, ◌<◌, max, arith}
use obs_trigglow_dynamic_del.Arena.{
  round_up, alignment, min_sized_block_bytes, max_sized_block_bytes, sized_block,
}

-- Without a fixed payload size a block is between the two bounds.
pub sized_block_bounds :
    (expected : ℕ)
    → (min_sized_block_bytes ≤ sized_block expected 0)
      × (sized_block expected 0 ≤ max_sized_block_bytes)
unfolding sized_block
sized_block_bounds expected = (ground arith, ground arith)

-- With a fixed payload size a block holds at least one payload, rounded up to the alignment, and is
-- not over the upper bound unless one payload is.
pub payload_fits_block :
    (expected fixed : ℕ)
    → 0 < fixed
    → fixed + alignment < 2 ^ 63
    → (round_up fixed alignment ≤ sized_block expected fixed)
      × (sized_block expected fixed ≤ max max_sized_block_bytes (round_up fixed alignment))
unfolding sized_block
payload_fits_block expected fixed p s = (grind arith, grind arith)

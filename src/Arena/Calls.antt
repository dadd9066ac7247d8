-- ===== src/Arena/Calls.antt =====
-- Any sequence of the calls of src/frame-arena.cpp's arena.
use obs_trigglow_dynamic_del.Prelude.{
  ℕ, ◌+◌, List, [], ◌∷◌, Bool, true, ◌&&◌, ltb, length, get_or, u32_mod, max,
}
use obs_trigglow_dynamic_del.Arena.{
  Allocation, Arena, no_block, no_allocation, allocate, free, trim, round_up, alignment,
}
use obs_trigglow_dynamic_del.Arena.Place.{hold}
use obs_trigglow_dynamic_del.Arena.Freed.{without}

-- Allocate, where the system may have memory or not; Free of the allocation held as number `i`, of an
-- empty handle when there is none; Trim.
pub data Call : Type 0 where
  allocates : Bool → ℕ → Call
  frees : ℕ → Call
  trims : Call

-- The arena and what its callers hold.
abbrev pub World : Type 0
World = Arena × List Allocation

abbrev pub after_call : Call → World → World
after_call (allocates os_ok bytes) (a, held) =
    let r = allocate os_ok a bytes in (r.1, hold r.0 held)
after_call (frees i) (a, held) = (free a (get_or held i no_allocation), without i held)
after_call trims (a, held) = (trim a, held)

abbrev pub calls : List Call → World → World
calls [] w = w
calls (c ∷ cs) w = calls cs (after_call c w)

-- The counts of blocks and of allocations, and the size asked for, stay in 32 bits.
abbrev pub size_of : Call → ℕ
size_of (allocates os_ok bytes) = round_up (max bytes 1) alignment
size_of (frees i) = 0
size_of trims = 0

abbrev pub in_range : Call → World → Bool
in_range c (a, held) =
    ltb (length a.blocks) no_block
    && ltb (length held + 1) u32_mod
    && ltb a.config.block_bytes u32_mod
    && ltb (size_of c) u32_mod

abbrev pub all_in_range : List Call → World → Bool
all_in_range [] w = true
all_in_range (c ∷ cs) w = in_range c w && all_in_range cs (after_call c w)

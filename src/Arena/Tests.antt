-- ===== src/Arena/Tests.antt =====
-- The arena of src/frame-arena.cpp at its first payload.
use obs_trigglow_dynamic_del.Prelude.{◌≡◌, refl, List, [], ◌∷◌, true, false}
use obs_trigglow_dynamic_del.Arena.{
  Config, make, allocate, round_up, new_block, leave_current, next_current, bump,
  allocate_oversized, allocate_in_block, retire_if_empty, free, free_in_block, release_block,
  trim_spares, trim_oversized, trim,
}
use obs_trigglow_dynamic_del.Arena.Held.{AllApart}
use obs_trigglow_dynamic_del.Arena.Calls.{Call, allocates, frees, trims, calls, all_in_range}
use obs_trigglow_dynamic_del.Arena.Owned.{AllBacked, calls_keep_apart}

abbrev small : Config
small = record { block_bytes = 4096; limit_bytes = 8192; max_spare_blocks = 1 }

abbrev large : Config
large = record { block_bytes = 4096; limit_bytes = 20000; max_spare_blocks = 1 }

-- Two blocks and a dedicated one, a spare block that is taken again, a released one, and a failure.
abbrev busy : List Call
busy =
    allocates true 1000
    ∷ allocates true 5000
    ∷ allocates true 2000
    ∷ allocates true 3000
    ∷ frees 1
    ∷ frees 2
    ∷ frees 1
    ∷ trims
    ∷ allocates false 4000
    ∷ allocates true 500
    ∷ allocates false 5000
    ∷ []

busy_in_range : all_in_range busy (make large, []) ≡ true
unfolding make round_up allocate allocate_oversized allocate_in_block new_block leave_current
    next_current bump retire_if_empty free free_in_block release_block trim_spares trim_oversized
    trim
busy_in_range = refl

AllApart-busy : let w = calls busy (make large, []) in AllApart w.1 × AllBacked w.0 w.1
AllApart-busy = calls_keep_apart large busy busy_in_range

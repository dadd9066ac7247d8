-- ===== src/Arena/Limit.antt =====
-- The memory bounds of src/frame-arena.cpp.
use obs_trigglow_dynamic_del.Prelude.{ℕ, ◌≤◌, Bool, arith}
use obs_trigglow_dynamic_del.Arena.{Arena, retire_if_empty}

abbrev pub IsWithin : Arena → Type 0
IsWithin a = a.stats.committed_bytes ≤ a.config.limit_bytes

module _ (os_ok : Bool) where
  retire-IsWithin : (a : Arena) (id : ℕ) → IsWithin a → IsWithin (retire_if_empty a id)
  unfolding retire_if_empty
  retire-IsWithin a id v = ground (arith, v)

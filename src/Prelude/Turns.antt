-- ===== src/Prelude/Turns.antt =====
-- Indices that go round a ring.
use Prim.Native.Nat.{ℕ, ◌+◌, ◌-◌, ◌%◌, ◌<◌}
use mathlib.Core.Path.{◌≡◌}
use native.Mathlib.Nat.{mod-eq_of_lt, mod-eq-sub-mod}
use native.Mathlib.Decide.{dec_lt}
use native.Mathlib.Omega.{arith}
use obs_trigglow_dynamic_del.Prelude.Tests.{ltb, if◌then◌else◌}

-- One turn round a ring of `n` slots at most.
pub mod_wrap : (a n : ℕ) → a < n + n → a % n ≡ (if ltb a n then a else a - n)
mod_wrap a n h = elim (dec_lt a n) [
  | yes p ↦ ground (arith, mod-eq_of_lt {n = a} {m = n} p)
  | no p ↦ ground (
    arith,
    mod-eq-sub-mod {n = a} {m = n} (omega arith),
    mod-eq_of_lt {n = a - n} {m = n} (omega arith),
  )
]

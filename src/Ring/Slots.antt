-- ===== src/Ring/Slots.antt =====
-- Slot indices of src/frame-ring.cpp: logical positions, and writes to one header.
use native.Mathlib.Decide.{ℕ_discrete}
use obs_trigglow_dynamic_del.Prelude.{
  ℕ, ◌+◌, ◌-◌, ◌^◌, ◌≤◌, ◌<◌, ◌≡◌, ltb, ◌==◌, if◌then◌else◌, add_u64, length, get_or-set_self,
  get_or-set_ne, get_or_end, mod_wrap, arith,
}
use obs_trigglow_dynamic_del.Ring.{FrameRing, Header, empty_header, header_at, index_at, put_header}

pub index_at_lem :
    (r : FrameRing) (p : ℕ)
    → length r.headers < 2 ^ 63
    → r.oldest < length r.headers
    → p < length r.headers
    → index_at r p ≡ (
        if ltb (r.oldest + p) (length r.headers)
        then r.oldest + p
        else r.oldest + p - length r.headers)
index_at_lem r p small o h =
    let e : add_u64 r.oldest p ≡ r.oldest + p = omega arith in
    rw e (mod_wrap (r.oldest + p) (length r.headers) (omega arith))

pub header_at-put :
    (r : FrameRing) (i j : ℕ) (h : Header)
    → i < length r.headers
    → header_at (put_header r i h) j ≡ (if i == j then h else header_at r j)
header_at-put r i j h inside = elim (ℕ_discrete i j) [
  | yes e ↦ ground (arith, get_or-set_self r.headers i h empty_header inside)
  | no e ↦ ground (arith, get_or-set_ne r.headers i j h empty_header e)
]

-- A header past the end of the vector reads as an empty one.
pub header_at_end : (r : FrameRing) (i : ℕ) → length r.headers ≤ i → header_at r i ≡ empty_header
header_at_end r i h = get_or_end r.headers i empty_header h

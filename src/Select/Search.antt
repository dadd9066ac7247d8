-- ===== src/Select/Search.antt =====
-- src/frame-ring.hpp, ringselect::LastAtOrBefore: the binary search over the capture times.
use obs_trigglow_dynamic_del.Prelude.{
  ℕ, zero, suc, ◌+◌, ◌-◌, ◌/◌, ◌≤◌, ◌<◌, ◌≡◌, ◌⊎◌, inl, inr, false, ◌==◌, ltb, leb, Bool-cases,
  ltb→lt, ltb_false→le, leb→le, leb_false→lt, arith,
}
use obs_trigglow_dynamic_del.Select.{search, last_at_or_before}

-- Capture times never fall from one position to the next.
abbrev pub Ordered : ℕ → (ℕ → ℕ) → Type 0
Ordered count capture_at = (p q : ℕ) → p ≤ q → q < count → capture_at p ≤ capture_at q

-- Position `p` is the last one at or before `target` among positions below `count`.
pub record IsLast (count target : ℕ) (capture_at : ℕ → ℕ) (p : ℕ) : Type 0 where
  pub inside : p < count
  pub at_or_before : capture_at p ≤ target
  pub later : (q : ℕ) → p < q → q < count → target < capture_at q

search-IsLast :
    (count target : ℕ) (capture_at : ℕ → ℕ)
    → Ordered count capture_at
    → (fuel lo hi : ℕ) → hi ≤ lo + fuel
    → lo < hi
    → hi ≤ count
    → capture_at lo ≤ target
    → ((q : ℕ) → hi ≤ q → q < count → target < capture_at q)
    → IsLast count target capture_at (search fuel target capture_at lo hi)
unfolding search
search-IsLast count target capture_at ord zero lo hi f l c a after = absurd (omega arith)
search-IsLast count target capture_at ord (suc fuel) lo hi f l c a after =
    elim (Bool-cases (ltb 1 (hi - lo))) [
      | inl wide ↦
          let w : 1 < hi - lo = ltb→lt _ _ wide in
          let mid : ℕ = lo + (hi - lo) / 2 in
          elim (Bool-cases (leb (capture_at mid) target)) [
            | inl below ↦
                rw (wide, below, search)
                  (search-IsLast count target capture_at ord fuel mid hi (omega arith) (omega arith)
                    c (leb→le _ _ below) after)
            | inr above ↦
                rw (wide, above, search)
                  (search-IsLast count target capture_at ord fuel lo mid (omega arith) (omega arith)
                    (omega arith) a (λ q h k. omega (arith, ord mid q h k, leb_false→lt _ _ above)))
          ]
      | inr narrow ↦
          let w : hi - lo ≤ 1 = ltb_false→le _ _ narrow in
          rw (narrow, search)
            (record {
              inside = omega arith;
              at_or_before = a;
              later = λ q h k. after q (omega arith) k;
            })
    ]

nonzero : (n : ℕ) → (suc n == 0) ≡ false
nonzero n = ground arith

-- Over ordered capture times LastAtOrBefore returns the last position at or before the target, or
-- the count exactly when every position is younger than the target.
pub last_at_or_before_lem :
    (count target : ℕ) (capture_at : ℕ → ℕ)
    → Ordered count capture_at
    → IsLast count target capture_at (last_at_or_before count target capture_at)
      ⊎ ((last_at_or_before count target capture_at ≡ count)
          × ((q : ℕ) → q < count → target < capture_at q))
unfolding last_at_or_before
last_at_or_before_lem zero target capture_at ord = inr (ground arith, λ q h. absurd (omega arith))
last_at_or_before_lem (suc n) target capture_at ord =
    elim (Bool-cases (ltb target (capture_at 0))) [
      | inl young ↦
          inr (ground arith, λ q h. omega (arith, ord 0 q (omega arith) h, ltb→lt _ _ young))
      | inr old ↦ inl (
          rw (nonzero n, old)
            (search-IsLast (suc n) target capture_at ord (suc n) 0 (suc n) (omega arith)
              (omega arith) (omega arith) (ltb_false→le _ _ old) (λ q h k. absurd (omega arith))))
    ]

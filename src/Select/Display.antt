-- ===== src/Select/Display.antt =====
-- src/frame-ring.hpp, ringselect::SelectForDisplay: which frame playback shows.
use obs_trigglow_dynamic_del.Prelude.{
  ℕ, zero, suc, ◌+◌, ◌-◌, ◌≤◌, ◌<◌, ◌≡◌, refl, ap, ◌∙◌, ◌⊎◌, inl, inr, Bool, true, false, leb, ◌==◌,
  ◌&&◌, Bool-cases, arith,
}
use native.Mathlib.Decide.{dec_lt}
use obs_trigglow_dynamic_del.Select.{look_back, select_for_display, last_at_or_before}
use obs_trigglow_dynamic_del.Select.Search.{Ordered, IsLast, last_at_or_before_lem}

-- `p` is the newest Ready position among those from `due - max_back` to `due`.
pub record IsNewest (due max_back : ℕ) (ready_at : ℕ → Bool) (p : ℕ) : Type 0 where
  pub no_future : p ≤ due
  pub within : due ≤ p + max_back
  pub is_ready : ready_at p ≡ true
  pub newest : (q : ℕ) → p < q → q ≤ due → ready_at q ≡ false

module _ (count due max_back : ℕ) (ready_at : ℕ → Bool) where
  abbrev Outcome : ℕ → ℕ → Type 0
  Outcome back p =
      ((p ≤ due)
        × (due ≤ p + max_back)
        × (ready_at p ≡ true)
        × ((q : ℕ) → p < q → q + back ≤ due → ready_at q ≡ false))
      ⊎ ((p ≡ count) × ((q : ℕ) → q + back ≤ due → due ≤ q + max_back → ready_at q ≡ false))

  -- A position no further than `back` from `due` is the one just tried, or one tried later.
  skip :
      (back : ℕ)
      → ready_at (due - back) ≡ false
      → (q : ℕ) → q + back ≤ due
      → (q + (back + 1) ≤ due → ready_at q ≡ false)
      → ready_at q ≡ false
  skip back miss q h later = elim (dec_lt (q + back) due) [
    | yes p ↦ later (omega arith)
    | no p ↦ ap ready_at (omega arith) ∙ miss
  ]

  look_back-Outcome :
      (fuel back : ℕ)
      → fuel + back ≡ due + 1
      → Outcome back (look_back fuel back count due max_back ready_at)
  unfolding look_back
  look_back-Outcome zero back e = inr (refl, λ q h k. absurd (omega arith))
  look_back-Outcome (suc fuel) back e = elim (Bool-cases (leb back max_back && leb back due)) [
    | inr stop ↦ inr (ground arith, λ q h k. absurd (ground arith))
    | inl go ↦ elim (Bool-cases (ready_at (due - back))) [
      | inl hit ↦ inl (ground arith, ground arith, ground arith, λ q h k. absurd (ground arith))
      | inr miss ↦
          rw (go, miss)
            (elim (look_back-Outcome fuel (back + 1) (omega arith)) [
              | inl (a, b, c, d) ↦ inl (a, b, c, λ q h k. skip back miss q k (d q h))
              | inr (a, d) ↦ inr (a, λ q h k. skip back miss q h (λ i. d q i k))
            ])
    ]
  ]

-- What SelectForDisplay returns over ordered capture times: position `p` is inside the ring, not
-- younger than the target, Ready, at most `max_back` positions before the frame due, and no later
-- position at or before the target is Ready.
pub record IsShown (count target max_back : ℕ) (capture_at : ℕ → ℕ) (ready_at : ℕ → Bool) (p : ℕ)
    : Type 0 where
  pub inside : p < count
  pub no_future : capture_at p ≤ target
  pub is_ready : ready_at p ≡ true
  pub within : (q : ℕ) → q < count → capture_at q ≤ target → q ≤ p + max_back
  pub newest : (q : ℕ) → p < q → q < count → capture_at q ≤ target → ready_at q ≡ false

le_last :
    {count target : ℕ} {capture_at : ℕ → ℕ} {d : ℕ}
    → IsLast count target capture_at d
    → (q : ℕ) → q < count
    → capture_at q ≤ target
    → q ≤ d
le_last {d = d} l q h k = elim (dec_lt d q) [
  | yes p ↦ absurd (omega (arith, l.later q p h))
  | no p ↦ omega arith
]

-- Over ordered capture times SelectForDisplay returns a position that IsShown, or the count; the
-- count only where no Ready position at or before the target lies within `max_back` positions of
-- the frame due (the last position at or before the target).
pub select_for_display_lem :
    (count target max_back : ℕ) (capture_at : ℕ → ℕ) (ready_at : ℕ → Bool)
    → Ordered count capture_at
    → let p = select_for_display count target max_back capture_at ready_at in
      IsShown count target max_back capture_at ready_at p
      ⊎ ((p ≡ count)
          × ((d q : ℕ)
              → IsLast count target capture_at d
              → capture_at q ≤ target
              → q < count
              → d ≤ q + max_back
              → ready_at q ≡ false))
unfolding select_for_display
select_for_display_lem count target max_back capture_at ready_at ord =
    elim (last_at_or_before_lem count target capture_at ord) [
      | inr (e, young) ↦ inr (ground arith, λ d q l o h k. absurd (omega (arith, young q h)))
      | inl l ↦
          let due = last_at_or_before count target capture_at in
          let some_due : (due == count) ≡ false = ground arith in
          rw some_due
            (elim (look_back-Outcome count due max_back ready_at (due + 1) 0 (omega arith)) [
              | inl (a, b, c, d) ↦ inl (record {
                inside = omega (arith, l.inside);
                no_future = omega (arith, ord _ due a l.inside, l.at_or_before);
                is_ready = c;
                within = λ q h k. omega (arith, le_last l q h k);
                newest = λ q h k o. d q h (omega (arith, le_last l q k o));
              })
              | inr (a, d) ↦ inr (
                a,
                λ e q m h k o.
                    d q (omega (arith, le_last l q k h))
                      (omega (arith, le_last m due l.inside l.at_or_before)),
              )
            ])
    ]

-- ===== src/Ring/Window.antt =====
-- src/frame-ring.hpp's FrameRing as a queue of frames in capture order.
use native.Mathlib.Omega.{arith}
use obs_trigglow_dynamic_del.Prelude.{
  ℕ, zero, suc, ◌+◌, ◌-◌, ◌<◌, max, ◌≡◌, refl, ap, ap₂, sym, ◌∙◌, inl, inr, ltb, if◌then◌else◌,
  length, length-append, Bool-cases, List, [], ◌∷◌, ◌++◌, some,
}
use obs_trigglow_dynamic_del.Ring.{
  FrameRing, Reservation, Header, header_at, at_position, claim, reserve, reserve_header,
}
use obs_trigglow_dynamic_del.Ring.Invariant.{IsValid}
use obs_trigglow_dynamic_del.Ring.Reserve.{
  at_old_position, at_new_position, reserve_inv, buffered-claim,
}

module _ {ℓ} {A : Type ℓ} where
  -- f 0, f 1, ..., f (n - 1).
  abbrev pub tabulate : ℕ → (ℕ → A) → List A
  tabulate zero f = []
  tabulate (suc n) f = tabulate n f ++ f n ∷ []

  abbrev pub drop_first : List A → List A
  drop_first [] = []
  drop_first (x ∷ xs) = xs

  tabulate_ext : (n : ℕ) (f g : ℕ → A) → ((p : ℕ) → p < n → f p ≡ g p) → tabulate n f ≡ tabulate n g
  tabulate_ext zero f g h = refl
  tabulate_ext (suc n) f g h =
      ap₂ (λ xs x. xs ++ x ∷ []) (tabulate_ext n f g (λ p k. h p (omega arith))) (h n (omega arith))

  drop_first-append :
      (xs : List A) (y : A) → 0 < length xs → drop_first (xs ++ y ∷ []) ≡ drop_first xs ++ y ∷ []
  drop_first-append [] y h = absurd (omega arith)
  drop_first-append (x ∷ xs) y h = refl

  length-tabulate : (n : ℕ) (f : ℕ → A) → length (tabulate n f) ≡ n
  length-tabulate zero f = refl
  length-tabulate (suc n) f =
      length-append (tabulate n f) (f n ∷ []) ∙ omega (arith, length-tabulate n f)

  drop_first-tabulate :
      (n : ℕ) (f : ℕ → A) → drop_first (tabulate (suc n) f) ≡ tabulate n (λ p. f (p + 1))
  drop_first-tabulate zero f = refl
  drop_first-tabulate (suc n) f =
      drop_first-append (tabulate (suc n) f) (f (suc n)) (omega (arith, length-tabulate (suc n) f))
      ∙ ap₂ (λ xs x. xs ++ x ∷ []) (drop_first-tabulate n f) (ap f (omega arith))

-- The frames of the delay, oldest first.
abbrev pub window : FrameRing → List Header
window r = tabulate r.buffered (at_position r)

module _ (r : FrameRing) (g capture tag : ℕ) (v : IsValid r g) where
  abbrev after : FrameRing
  after = claim r g capture tag

  abbrev last_slot : Header
  last_slot = reserve_header (header_at r r.write_index) (max capture r.last_capture_ns) g tag

  window-suc :
      (m : ℕ) (f : ℕ → Header)
      → after.buffered ≡ suc m
      → ((p : ℕ) → p < m → at_position after p ≡ f p)
      → window after ≡ tabulate m f ++ last_slot ∷ []
  window-suc m f e h =
      ap (λ n. tabulate n (at_position after)) e
      ∙ ap₂ (λ xs x. xs ++ x ∷ []) (tabulate_ext m (at_position after) f h)
          (at_new_position r g capture tag v m (omega arith))

  old :
      (p : ℕ)
      → p + 1 < after.buffered
      → at_position after p ≡ at_position r (if ltb r.buffered (length r.headers) then p else p + 1)
  old = at_old_position r g capture tag v

  window-claim :
      window after
      ≡ (if ltb r.buffered (length r.headers) then window r else drop_first (window r))
        ++ last_slot ∷ []
  window-claim = elim (Bool-cases (ltb r.buffered (length r.headers))) [
    | inl filling ↦
        let e : after.buffered ≡ suc r.buffered =
          ground (arith, buffered-claim r g capture tag v) in
        rw filling
          (window-suc r.buffered (at_position r) e (λ p h. rw filling at (old p (omega arith))))
    | inr full ↦
        let m : ℕ = length r.headers - 1 in
        let n : r.buffered ≡ suc m = ground (arith, v.layout, v.some_slot) in
        let e : after.buffered ≡ suc m =
          ground (arith, buffered-claim r g capture tag v, v.some_slot) in
        rw full (
          window-suc m (λ p. at_position r (p + 1)) e (λ p h. rw full at (old p (omega arith)))
          ∙ ap (λ xs. xs ++ last_slot ∷ [])
              (sym (
                ap (λ k. drop_first (tabulate k (at_position r))) n
                ∙ drop_first-tabulate m (at_position r))))
  ]

-- A successful Reserve puts the new Reserved slot behind the frames of the window, and takes the
-- oldest frame off exactly when the ring was full.
pub window-reserve :
    (r s : FrameRing) (g g' capture tag : ℕ) (reservation : Reservation)
    → IsValid r g
    → reserve r g capture tag ≡ (some reservation, s, g')
    → window s
      ≡ (if ltb r.buffered (length r.headers) then window r else drop_first (window r))
        ++ reserve_header (header_at r r.write_index) reservation.capture_ns g tag ∷ []
window-reserve r s g g' capture tag reservation v e =
    let (idle, es, eg, ei, en, ec) = reserve_inv r s g g' capture tag reservation e in
    rw (es, ec) (window-claim r g capture tag v)
